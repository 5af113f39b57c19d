-- ===== src/RequestController/Endless.antt =====
-- Requests under runs without end: outages, runs that find the task not done, and runs that get further.
pub mod Essendi
use cert_manager_essendi_xc.Base.{
  ℕ, suc, ◌+◌, ◌≤◌, ◌-◌, true, false, List, [], ◌∷◌, ◌≡◌, ◌≢◌, ◌⊎◌, inl, inr, refl, sym, ap, ◌∙◌,
  subst, arith, All, Bool-cases,
}
use cert_manager_essendi_xc.Base.Errors.{ok}
use cert_manager_essendi_xc.Base.Text.{Text, is_empty, trim_space}
use cert_manager_essendi_xc.IssuerUtil.{is_submitted, is_signed, says_submitted}
use cert_manager_essendi_xc.IssuerUtil.Submitted.{find-none-All}
use cert_manager_essendi_xc.Request.{
  CertificateRequest, Condition, ConditionType, CmUtil, Any, HasReason, ready, issued, is_true,
}
use cert_manager_essendi_xc.RequestController.Await.{is_given_up, await_by}
use cert_manager_essendi_xc.RequestController.Deferred.{after}
use cert_manager_essendi_xc.RequestController.Footprint.{is_ready_type, others, after-others}
use cert_manager_essendi_xc.RequestController.Frame.{SameReference, after-SameReference}
use cert_manager_essendi_xc.RequestController.Journey.{submit_run, poll_run, fetch_run}
use cert_manager_essendi_xc.RequestController.Open.{IsOpen}
use cert_manager_essendi_xc.RequestController.Outages.{
  after_runs, IsOutage, outage_kept, reach_target,
}
use cert_manager_essendi_xc.RequestController.Routes.{IsHealthy, still-IsHealthy}
use cert_manager_essendi_xc.RequestController.Stages.{IsPolling, is_submitted-find}
use cert_manager_essendi_xc.RequestController.Steps.{Reconciler, Env}
use cert_manager_essendi_xc.Signer.{Signer}

-- Only the Ready condition speaks of a submission.
abbrev IsQuiet : List Condition → Type 0
IsQuiet cs = All (λ d. d.type ≢ ready → says_submitted d ≡ false) cs

ready_type : (t : ConditionType) → is_ready_type t ≡ true → t ≡ ready
ready_type t h = ground arith

-- It is so where no other condition does.
others-IsQuiet :
    (cs : List Condition) → All (λ d. says_submitted d ≡ false) (others cs) → IsQuiet cs
others-IsQuiet [] h = tt
others-IsQuiet (c ∷ cs) h = elim (Bool-cases (is_ready_type c.type)) [
  | inl r ↦ ((λ other. absurd (other (ready_type c.type r))), others-IsQuiet cs (rw r at h))
  | inr o ↦
      let rest : (says_submitted c ≡ false) × All (λ d. says_submitted d ≡ false) (others cs) =
        rw o at h in
      ((λ other. rest.0), others-IsQuiet cs rest.1)
]

IsQuiet-others :
    (cs : List Condition) → IsQuiet cs → All (λ d. says_submitted d ≡ false) (others cs)
IsQuiet-others [] h = tt
IsQuiet-others (c ∷ cs) h = elim (Bool-cases (is_ready_type c.type)) [
  | inl r ↦ rw r (IsQuiet-others cs h.1)
  | inr o ↦ rw o (h.0 (λ e. absurd (cc (ap is_ready_type e, o))), IsQuiet-others cs h.1)
]

module _ (cm : CmUtil) (rc : Reconciler) (cr : CertificateRequest)
    (url resource certificate : Text) where
  -- A healthy run whose CA accepts a submission at `url`, and gives the certificate at `resource`. Of the
  -- task it tells the resource, or a state in which the CA has not given it up.
  pub record Serves (env : Env) : Type 0 where
    pub s : Signer
    pub t : Text
    pub healthy : IsHealthy cm rc s t env cr
    pub sent : s.submit_certificate_request t cr.spec.request ≡ ok url
    pub task : Text
    pub told :
        (s.request_task_status t url ≡ ok (resource, task))
        ⊎ ((s.request_task_status t url ≡ ok ([], task)) × (is_given_up task ≡ false))
    pub given : s.fetch_certificate t resource ≡ ok certificate

  -- It tells the resource.
  abbrev pub IsDone : Env → Type 0
  IsDone env = (v : Serves env) × (v.s.request_task_status v.t url ≡ ok (resource, v.task))

  later : (k j : ℕ) → k ≤ j → j ≡ k + (j - k)
  later k j h = omega (arith, h)

  module _ (envs : ℕ → Env) (each : (k : ℕ) → Serves (envs k) ⊎ IsOutage cm rc cr (envs k))
      (fair : (k : ℕ) → (j : ℕ) × (k ≤ j) × IsDone (envs j)) where
    -- An open request waits through outages as it is, for the next run that serves it.
    next_serving :
        (k : ℕ) (c : CertificateRequest)
        → after_runs cm rc envs k cr ≡ c
        → SameReference c cr
        → IsOpen cm rc c
        → (i : ℕ) × Serves (envs i) × (after_runs cm rc envs i cr ≡ c)
    next_serving k c at same o =
        let (j, behind, (v, _)) = fair k in
        reach_target cm rc envs cr (λ x. x ≡ c) (λ i. Serves (envs i))
          (λ i x e. elim (each i) [
            | inl serves ↦ inl serves
            | inr out ↦
                inr (ap (after cm rc (envs i)) e ∙ outage_kept cm rc cr c (envs i) out same o)
          ])
          (j - k) k j (later k j behind) v at

    -- The request was submitted, and its task is not known to be done.
    record IsWaiting (c : CertificateRequest) : Type 0 where
      opened : IsOpen cm rc c
      polling : IsPolling url c.status.conditions
      same : SameReference c cr
      quiet : IsQuiet c.status.conditions

    after-IsQuiet :
        (env : Env) (c : CertificateRequest)
        → IsQuiet c.status.conditions
        → IsQuiet (after cm rc env c).status.conditions
    after-IsQuiet env c q = others-IsQuiet _ (
        subst (λ (x : List Condition). All (λ d. says_submitted d ≡ false) x)
          (sym (after-others cm rc env c)) (IsQuiet-others c.status.conditions q))

    same_after :
        (env : Env) (c : CertificateRequest)
        → SameReference c cr
        → SameReference (after cm rc env c) cr
    same_after env c same = let (n, e) = after-SameReference cm rc env c in (n ∙ same.0, e ∙ same.1)

    wait :
        (trimmed : trim_space url ≡ url) (i : ℕ) (c : CertificateRequest)
        → IsWaiting c
        → IsDone (envs i) ⊎ IsWaiting (after cm rc (envs i) c)
    wait trimmed i c w = elim (each i) [
      | inr out ↦
          inr (subst IsWaiting (sym (outage_kept cm rc cr c (envs i) out w.same w.opened)) w)
      | inl v ↦ elim v.told [
        | inl done ↦ inl (v, done)
        | inr (told, alive) ↦
            let up = still-IsHealthy cm rc v.s v.t (envs i) c cr w.same v.healthy in
            let (_, polling, opened) =
              (await_by cm rc v.s v.t (envs i) c up w.opened url v.task trimmed w.quiet w.polling
                  told).1
                alive in
            inr (record {
              opened = opened;
              polling = polling;
              same = same_after (envs i) c w.same;
              quiet = after-IsQuiet (envs i) c w.quiet;
            })
      ]
    ]

    submitted_at :
        (k : ℕ)
        → trim_space url ≡ url
        → Serves (envs k)
        → after_runs cm rc envs k cr ≡ cr
        → IsOpen cm rc cr
        → is_signed cr.status.conditions ≡ false
        → is_submitted cr.status.conditions ≡ false
        → IsWaiting (after_runs cm rc envs (suc k) cr)
    unfolding after_runs
    submitted_at k trimmed v at o unsigned unsubmitted =
        let (_, _, opened, polling, _) =
          submit_run cm rc v.s v.t (envs k) cr v.healthy o url trimmed unsigned unsubmitted
            v.sent in
        subst IsWaiting (sym (ap (after cm rc (envs k)) at)) (record {
          opened = opened;
          polling = polling;
          same = after-SameReference cm rc (envs k) cr;
          quiet = after-IsQuiet (envs k) cr (
              find-none-All says_submitted ready cr.status.conditions
                (is_submitted-find cr.status.conditions unsubmitted));
        })

    -- Where every run serves the request or meets an outage, and runs that find its task done never
    -- cease: an open request that was not submitted has, after some number of runs, the certificate
    -- that the CA gives for it, and is Ready as Issued, however often its task was not done.
    pub issued_in_the_end :
        IsOpen cm rc cr
        → is_signed cr.status.conditions ≡ false
        → is_submitted cr.status.conditions ≡ false
        → trim_space url ≡ url
        → trim_space resource ≡ resource
        → is_empty resource ≡ false
        → (k : ℕ) × ((after_runs cm rc envs k cr).status.certificate ≡ certificate)
          × Any (HasReason ready is_true issued) (after_runs cm rc envs k cr).status.conditions
    unfolding after_runs
    issued_in_the_end o unsigned unsubmitted trim1 trim2 full =
        let (i1, v1, at1) = next_serving 0 cr refl (refl, refl) o in
        let (j, behind, done) = fair (suc i1) in
        let (i2, (v2, told), w) =
          reach_target cm rc envs cr IsWaiting (λ i. IsDone (envs i)) (wait trim1) (j - suc i1)
            (suc i1) j (later (suc i1) j behind) done
            (submitted_at i1 trim1 v1 at1 o unsigned unsubmitted) in
        let c = after_runs cm rc envs i2 cr in
        let up2 = still-IsHealthy cm rc v2.s v2.t (envs i2) c cr w.same v2.healthy in
        let (_, _, opened, fetching) =
          poll_run cm rc v2.s v2.t (envs i2) c up2 w.opened url resource v2.task trim2 full
            w.polling told in
        let signed = after cm rc (envs i2) c in
        let same = same_after (envs i2) c w.same in
        let (i3, v3, at3) = next_serving (suc i2) signed refl same opened in
        let up3 = still-IsHealthy cm rc v3.s v3.t (envs i3) signed cr same v3.healthy in
        let (_, _, has, ready_now) =
          fetch_run cm rc v3.s v3.t (envs i3) signed up3 opened resource certificate fetching
            v3.given in
        (suc i3, rw at3 has, rw at3 ready_now)
