-- ===== src/RequestController/Essendi.antt =====
-- The controller with the signer of the essendi XC API.
use cert_manager_essendi_xc.Base.{false, [], ◌≡◌, ◌≢◌, refl, none, All}
use cert_manager_essendi_xc.Base.Errors.{Error, ok, err}
use cert_manager_essendi_xc.Base.Text.{Text, codes, is_empty, trim_space, text_eq}
use cert_manager_essendi_xc.IssuerUtil.{says_submitted, is_signed, is_submitted}
use cert_manager_essendi_xc.Request.{
  CertificateRequest, CmUtil, Any, HasReason, ready, is_true, issued,
}
use cert_manager_essendi_xc.Signer.Http.{Http, str}
use cert_manager_essendi_xc.Signer.Essendi.{EssendiSigner}
use cert_manager_essendi_xc.Signer.Client.{signer}
use cert_manager_essendi_xc.Signer.Accepted.{IsAccepted, submit-IsAccepted}
use cert_manager_essendi_xc.Signer.Located.{IsLocated, asked, task-IsLocated, task_unreached}
use cert_manager_essendi_xc.Signer.Panics.{IsAnswered, fetch-IsAnswered}
use cert_manager_essendi_xc.RequestController.{reconcile_found}
use cert_manager_essendi_xc.RequestController.Await.{is_given_up, await_by}
use cert_manager_essendi_xc.RequestController.Deferred.{after}
use cert_manager_essendi_xc.RequestController.Journey.{journey}
use cert_manager_essendi_xc.RequestController.Open.{IsOpen}
use cert_manager_essendi_xc.RequestController.Routes.{IsHealthy}
use cert_manager_essendi_xc.RequestController.Stages.{IsPolling}
use cert_manager_essendi_xc.RequestController.Steps.{Reconciler, Env, returned}

empty_not_given_up : is_given_up [] ≡ false
unfolding text_eq codes
empty_not_given_up = refl

-- The API accepts the request, tells where the certificate is, and gives it, each in its turn.
pub record IsServed (http : Http) (o : EssendiSigner)
    (t request url resource task certificate : Text) : Type 0 where
  pub submitted : IsAccepted http o t request url
  pub located : IsLocated http o t url resource task
  pub given : IsAnswered http o t resource (str certificate)
  pub url_trimmed : trim_space url ≡ url
  pub resource_trimmed : trim_space resource ≡ resource
  pub resource_full : is_empty resource ≡ false
  pub certificate_full : is_empty certificate ≡ false

module _ (cm : CmUtil) (rc : Reconciler) (http : Http) (o : EssendiSigner) (t : Text) where
  -- Where the API serves a request and the issuer is ready, three runs of the controller take an open
  -- request, not yet submitted, to that certificate, and make it Ready as Issued.
  pub essendi_journey :
      (env1 env2 env3 : Env) (cr : CertificateRequest) (url resource task certificate : Text)
      → IsHealthy cm rc (signer http o) t env1 cr
      → IsHealthy cm rc (signer http o) t env2 cr
      → IsHealthy cm rc (signer http o) t env3 cr
      → IsOpen cm rc cr
      → is_signed cr.status.conditions ≡ false
      → is_submitted cr.status.conditions ≡ false
      → IsServed http o t cr.spec.request url resource task certificate
      → let last = after cm rc env3 (after cm rc env2 (after cm rc env1 cr)) in
        (last.status.certificate ≡ certificate)
        × Any (HasReason ready is_true issued) last.status.conditions
  unfolding signer
  essendi_journey env1 env2 env3 cr url resource task certificate up1 up2 up3 o1 a b served =
      journey cm rc (signer http o) t env1 env2 env3 cr url resource task certificate up1 up2 up3 o1
        a b served.url_trimmed served.resource_trimmed served.resource_full
        ((submit-IsAccepted http o t cr.spec.request url).1 served.submitted)
        ((task-IsLocated http o t url resource task served.resource_full).1 served.located)
        ((fetch-IsAnswered http o t resource certificate).1 (served.given, served.certificate_full))

  -- A run that polls a task and does not reach the API changes nothing that the next run reads: it
  -- returns without an error, is repeated after 15 seconds, and then polls the same URL.
  pub unreached_waits :
      (env : Env) (cr : CertificateRequest) (url path : Text) (e : Error)
      → IsHealthy cm rc (signer http o) t env cr
      → IsOpen cm rc cr
      → trim_space url ≡ url
      → All (λ d. d.type ≢ ready → says_submitted d ≡ false) cr.status.conditions
      → IsPolling url cr.status.conditions
      → http.url_path url ≡ ok path
      → http.new_request (codes "GET") url ≡ none
      → http.do_request (asked http o t url path) ≡ err e
      → let (x, r) = reconcile_found cm rc env cr in
        (x ≡ returned (record { requeue_after = 15 }) none)
        × IsPolling url r.stored.status.conditions
  unfolding signer
  unreached_waits env cr url path e up o1 trimmed quiet polling p c d =
      let (by, same, _) =
        (await_by cm rc (signer http o) t env cr up o1 url [] trimmed quiet polling
            (task_unreached http o t url path e p c d)).1
          empty_not_given_up in
      (by, same)
