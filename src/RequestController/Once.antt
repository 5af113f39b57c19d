-- ===== src/RequestController/Once.antt =====
-- certificaterequest_controller.go: submissions of a request over a sequence of runs.
use cert_manager_essendi_xc.Base.{true, false, List, [], ◌∷◌, ◌≡◌, inl, inr, none, Bool-cases}
use cert_manager_essendi_xc.Request.{CertificateRequest, CmUtil, Any}
use cert_manager_essendi_xc.RequestController.{is_ignored, reconcile_found}
use cert_manager_essendi_xc.RequestController.Deferred.{
  ended, ended_by, is_refused, reconcile_ignored, reconcile_kept, deferred-Any, after, after_all,
}
use cert_manager_essendi_xc.RequestController.Settled.{is_settled}
use cert_manager_essendi_xc.RequestController.Settled.Body.{
  IsSubmission, under_way, body_settled, body_submission, body_stored, submit_settles,
  deferred_either, deferred_returned,
}
use cert_manager_essendi_xc.RequestController.Steps.{Reconciler, Env, Result, returned}

module _ (cm : CmUtil) (rc : Reconciler) where
  module _ (env : Env) (cr : CertificateRequest) where
    -- A run with no refusal leaves a settled request settled.
    pub reconcile_settled :
        is_refused (ended_by cm rc env cr) ≡ false
        → is_settled cr.status.conditions ≡ true
        → is_settled (after cm rc env cr).status.conditions ≡ true
    reconcile_settled u h = elim (Bool-cases (is_ignored cm rc cr)) [
      | inl ignored ↦ rw (reconcile_ignored cm rc env cr ignored, after) h
      | inr live ↦
          rw (reconcile_kept cm rc env cr live, after)
            (elim (deferred_either cm rc env (ended_by cm rc env cr) (ended cm rc env cr) u) [
              | inl new ↦ rw new (body_settled cm rc env cr live h)
              | inr old ↦ rw old (rw (body_stored cm rc env cr) h)
            ])
    ]

    pub no-IsSubmission :
        is_settled cr.status.conditions ≡ true
        → ¬ Any IsSubmission (reconcile_found cm rc env cr).1.actions
    no-IsSubmission h a = elim (Bool-cases (is_ignored cm rc cr)) [
      | inl ignored ↦ absurd (rw (reconcile_ignored cm rc env cr ignored) at a)
      | inr live ↦
          let b =
            deferred-Any cm rc env IsSubmission (λ k m x. x) (λ c x. x) (ended_by cm rc env cr)
              (ended cm rc env cr) (rw (reconcile_kept cm rc env cr live) at a) in
          cc (under_way cm rc cr live h, body_submission cm rc env cr b)
    ]

    -- A run that submits and reports no error has stored that it did.
    pub submission_settles :
        (n : Result)
        → Any IsSubmission (reconcile_found cm rc env cr).1.actions
        → (reconcile_found cm rc env cr).0 ≡ returned n none
        → is_settled (after cm rc env cr).status.conditions ≡ true
    submission_settles n a e = elim (Bool-cases (is_ignored cm rc cr)) [
      | inl ignored ↦ absurd (rw (reconcile_ignored cm rc env cr ignored) at a)
      | inr live ↦
          let b =
            deferred-Any cm rc env IsSubmission (λ k m x. x) (λ c x. x) (ended_by cm rc env cr)
              (ended cm rc env cr) (rw (reconcile_kept cm rc env cr live) at a) in
          let (done, stored) =
            deferred_returned cm rc env (ended_by cm rc env cr) (ended cm rc env cr) n
              (rw (reconcile_kept cm rc env cr live) at e) in
          rw (reconcile_kept cm rc env cr live, after)
            (rw stored (submit_settles cm rc env cr n b done))
    ]

  -- No run of the sequence ends in an error that speaks of a refusal.
  abbrev pub Unrefused : List Env → CertificateRequest → Type 0
  Unrefused [] cr = Unit
  Unrefused (env ∷ envs) cr =
      (is_refused (ended_by cm rc env cr) ≡ false) × Unrefused envs (after cm rc env cr)

  after_all-settled :
      (envs : List Env) (cr : CertificateRequest)
      → Unrefused envs cr
      → is_settled cr.status.conditions ≡ true
      → is_settled (after_all cm rc envs cr).status.conditions ≡ true
  unfolding after_all
  after_all-settled [] cr u h = h
  after_all-settled (env ∷ envs) cr u h =
      after_all-settled envs (after cm rc env cr) u.1 (reconcile_settled env cr u.0 h)

  -- Once a run has submitted the request and returned without an error, and as long as no run after
  -- it ends in an error that speaks of a refusal, whatever else the later runs meet, none of them
  -- submits it again.
  pub submitted_once :
      (env : Env) (envs : List Env) (last : Env) (cr : CertificateRequest) (n : Result)
      → Any IsSubmission (reconcile_found cm rc env cr).1.actions
      → (reconcile_found cm rc env cr).0 ≡ returned n none
      → Unrefused envs (after cm rc env cr)
      → ¬ Any IsSubmission
          (reconcile_found cm rc last (after_all cm rc envs (after cm rc env cr))).1.actions
  submitted_once env envs last cr n a e u =
      no-IsSubmission last (after_all cm rc envs (after cm rc env cr))
        (after_all-settled envs (after cm rc env cr) u (submission_settles env cr n a e))
