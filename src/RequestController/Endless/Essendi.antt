-- ===== src/RequestController/Endless/Essendi.antt =====
-- Runs without end with the signer of the essendi XC API.
use cert_manager_essendi_xc.Base.{ℕ, ◌≤◌, false, [], ◌≡◌, ◌⊎◌, inl, inr}
use cert_manager_essendi_xc.Base.Errors.{ok}
use cert_manager_essendi_xc.Base.Text.{Text, is_empty, trim_space}
use cert_manager_essendi_xc.IssuerUtil.{is_submitted, is_signed}
use cert_manager_essendi_xc.Request.{
  CertificateRequest, CmUtil, Any, HasReason, ready, issued, is_true,
}
use cert_manager_essendi_xc.RequestController.Await.{is_given_up}
use cert_manager_essendi_xc.RequestController.Endless.{Serves, IsDone, issued_in_the_end}
use cert_manager_essendi_xc.RequestController.Open.{IsOpen}
use cert_manager_essendi_xc.RequestController.Outages.{after_runs, IsOutage}
use cert_manager_essendi_xc.RequestController.Routes.{IsHealthy}
use cert_manager_essendi_xc.RequestController.Steps.{Reconciler, Env}
use cert_manager_essendi_xc.Signer.Accepted.{IsAccepted, submit-IsAccepted}
use cert_manager_essendi_xc.Signer.Client.{signer}
use cert_manager_essendi_xc.Signer.Essendi.{EssendiSigner}
use cert_manager_essendi_xc.Signer.Http.{Http, str}
use cert_manager_essendi_xc.Signer.Located.{IsLocated, task-IsLocated}
use cert_manager_essendi_xc.Signer.Panics.{IsAnswered, fetch-IsAnswered}
use cert_manager_essendi_xc.Signer.Task.{request_task_status}

module _ (cm : CmUtil) (rc : Reconciler) (cr : CertificateRequest)
    (url resource certificate : Text) where
  -- A healthy run whose API accepts the request, gives the certificate, and of the task tells where the
  -- certificate is, or a state in which it has not given the task up.
  pub record IsServedBy (env : Env) : Type 0 where
    pub http : Http
    pub o : EssendiSigner
    pub t : Text
    pub healthy : IsHealthy cm rc (signer http o) t env cr
    pub accepted : IsAccepted http o t cr.spec.request url
    pub task : Text
    pub told :
        IsLocated http o t url resource task
        ⊎ ((request_task_status http o t url ≡ ok ([], task)) × (is_given_up task ≡ false))
    pub answered : IsAnswered http o t resource (str certificate)

  -- It tells where the certificate is.
  abbrev pub IsLocatedBy : Env → Type 0
  IsLocatedBy env = (v : IsServedBy env) × IsLocated v.http v.o v.t url resource v.task

  module _ (resource_full : is_empty resource ≡ false)
      (certificate_full : is_empty certificate ≡ false) where
    served-Serves : (env : Env) → IsServedBy env → Serves cm rc cr url resource certificate env
    unfolding signer
    served-Serves env v = record {
      s = signer v.http v.o;
      t = v.t;
      healthy = v.healthy;
      sent = (submit-IsAccepted v.http v.o v.t cr.spec.request url).1 v.accepted;
      task = v.task;
      told = elim v.told [
        | inl at ↦ inl ((task-IsLocated v.http v.o v.t url resource v.task resource_full).1 at)
        | inr pending ↦ inr pending
      ];
      given =
          (fetch-IsAnswered v.http v.o v.t resource certificate).1 (v.answered, certificate_full);
    }

    located-IsDone : (env : Env) → IsLocatedBy env → IsDone cm rc cr url resource certificate env
    unfolding signer served-Serves
    located-IsDone env (v, at) = (
      served-Serves env v,
      (task-IsLocated v.http v.o v.t url resource v.task resource_full).1 at,
    )

    -- Where in every run the API serves the request or there is an outage, and runs that are told where
    -- the certificate is never cease: an open request that was not submitted has, after some number of
    -- runs, the certificate that the API gives for it, and is Ready as Issued, however often its task
    -- was not done.
    pub essendi_issued :
        (envs : ℕ → Env)
        → ((k : ℕ) → IsServedBy (envs k) ⊎ IsOutage cm rc cr (envs k))
        → ((k : ℕ) → (j : ℕ) × (k ≤ j) × IsLocatedBy (envs j))
        → IsOpen cm rc cr
        → is_signed cr.status.conditions ≡ false
        → is_submitted cr.status.conditions ≡ false
        → trim_space url ≡ url
        → trim_space resource ≡ resource
        → (k : ℕ) × ((after_runs cm rc envs k cr).status.certificate ≡ certificate)
          × Any (HasReason ready is_true issued) (after_runs cm rc envs k cr).status.conditions
    essendi_issued envs each fair o unsigned unsubmitted trim1 trim2 =
        issued_in_the_end cm rc cr url resource certificate envs
          (λ k. elim (each k) [ inl v ↦ inl (served-Serves (envs k) v) | inr out ↦ inr out ])
          (λ k. let (j, behind, at) = fair k in (j, behind, located-IsDone (envs j) at)) o unsigned
          unsubmitted trim1 trim2 resource_full
