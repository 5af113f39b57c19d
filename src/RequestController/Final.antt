-- ===== src/RequestController/Final.antt =====
-- Requests that the controller is done with, or may not touch yet.
use cert_manager_essendi_xc.Base.{
  ℕ, Option, some, ◌⊎◌, true, false, List, [], ◌∷◌, ◌≡◌, inl, inr, refl, arith, none, Bool-cases,
}
use cert_manager_essendi_xc.Base.Text.{codes}
use cert_manager_essendi_xc.Request.{
  CertificateRequest, ready, approved, is_true, is_false, denied, CmUtil, Any, HasStatus, HasReason,
}
use cert_manager_essendi_xc.Request.Laws.{Any-Puts_new}
use cert_manager_essendi_xc.RequestController.{is_ignored, deny, body, reconcile_found, fail_at}
use cert_manager_essendi_xc.RequestController.Deferred.{
  start, empty, reconcile_ignored, reconcile_body, after, after_all,
}
use cert_manager_essendi_xc.RequestController.Settled.{is_final}
use cert_manager_essendi_xc.RequestController.Settled.Body.{final_ignored}
use cert_manager_essendi_xc.RequestController.Steps.{
  event, normal, updated, Reconciler, Env, report, returned,
}

module _ (cm : CmUtil) (rc : Reconciler) where
  -- A request whose Ready condition is True, or False as Failed or Denied, is never touched again:
  -- every run on it returns at once with no action, whatever its environment, and after any number
  -- of runs the stored object is the same.
  pub final_absorbs :
      (envs : List Env) (env : Env) (cr : CertificateRequest)
      → Any (λ c. is_final c ≡ true) cr.status.conditions
      → (after_all cm rc envs cr ≡ cr)
        × (reconcile_found cm rc env cr ≡ (returned empty none, start cr))
  unfolding after_all
  final_absorbs [] env cr h = (refl, reconcile_ignored cm rc env cr (final_ignored cm rc cr h))
  final_absorbs (e ∷ envs) env cr h =
      let (same, last) = final_absorbs envs env cr h in
      (rw (reconcile_ignored cm rc e cr (final_ignored cm rc cr h), after) same, last)

  -- While the approval check is on, a run leaves a request that no approver approved as it is, a
  -- denied one too: no failure time, no Ready condition, no action.
  pub unapproved_untouched :
      (env : Env) (cr : CertificateRequest)
      → rc.check_approved_condition ≡ true
      → ¬ Any (HasStatus approved is_true) cr.status.conditions
      → reconcile_found cm rc env cr ≡ (returned empty none, start cr)
  unfolding is_ignored
  unapproved_untouched env cr on h =
      reconcile_ignored cm rc env cr (elim (Bool-cases (cm.is_approved cr.status.conditions)) [
        | inl yes_approved ↦ absurd (h ((cm.is_approved_iff _).0 yes_approved))
        | inr unapproved ↦ ground arith
      ])

  body_denied :
      (env : Env) (cr : CertificateRequest)
      → cm.is_denied cr.status.conditions ≡ true
      → body cm rc env (start cr) ≡ deny cm rc env (start cr)
  unfolding body
  body_denied env cr d = rw d refl

  -- The failure time behind a denial: the old one, or else the current time.
  abbrev pub IsFailureTime : ℕ → Option ℕ → Option ℕ → Type 0
  IsFailureTime now old new =
      ((old ≡ none) × (new ≡ some now)) ⊎ ((t : ℕ) × (old ≡ some t) × (new ≡ some t))

  fail_at-IsFailureTime :
      (env : Env) (old : Option ℕ) → IsFailureTime env.now old (fail_at cm rc env old)
  fail_at-IsFailureTime env none = inl (refl, refl)
  fail_at-IsFailureTime env (some t) = inr (t, refl, refl)

  -- A request that passes the early returns and was denied is reported as Denied, keeps the failure
  -- time that it has or gets the current one, and asks the CA for nothing.
  pub deny_run :
      (env : Env) (cr : CertificateRequest)
      → is_ignored cm rc cr ≡ false
      → cm.is_denied cr.status.conditions ≡ true
      → ((c : CertificateRequest) → env.update c ≡ none)
      → let (e, r) = reconcile_found cm rc env cr in
        (e ≡ returned empty none)
        × IsFailureTime env.now cr.status.failure_time r.stored.status.failure_time
        × Any (HasReason ready is_false denied) r.stored.status.conditions
        × (r.actions
            ≡ event normal (codes "The CertificateRequest was denied by an approval controller")
              ∷ updated r.stored
              ∷ [])
  unfolding deny report
  deny_run env cr live d ok =
      rw (reconcile_body cm rc env cr _ _ live (body_denied env cr d) refl (ok _)) (
        refl,
        fail_at-IsFailureTime env cr.status.failure_time,
        Any-Puts_new (HasReason ready is_false denied) (cm.set_condition-Puts _ _)
            (refl, refl, refl),
        refl,
      )
