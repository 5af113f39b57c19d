-- ===== src/RequestController/Safety.antt =====
-- When a run of `Reconcile` may turn to the CA, and what it leaves alone.
use cert_manager_essendi_xc.Base.{true, false, ◌≡◌, ◌≢◌, inl, inr, arith, Bool-cases, none}
use cert_manager_essendi_xc.Base.Text.{text_eq}
use cert_manager_essendi_xc.Api.{group}
use cert_manager_essendi_xc.Base.Text.Laws.{text_eq_iff}
use cert_manager_essendi_xc.Request
use cert_manager_essendi_xc.Request.{
  CertificateRequest, CmUtil, Any, HasStatus, HasReason, HasType, approved, denied, ready, is_true,
  is_false,
}
use cert_manager_essendi_xc.RequestController.{is_ignored, deny, initialise, body, reconcile_found}
use cert_manager_essendi_xc.RequestController.Deferred.{
  start, ended, ended_by, reconcile_ignored, reconcile_kept, deferred-Any,
}
use cert_manager_essendi_xc.RequestController.Steps.{
  Action, event, updated, Reconciler, Env, report,
}

-- A call of the signer that reaches the CA or its token endpoint.
abbrev pub IsContact : Action → Type 0
IsContact (event _ _) = ⊥
IsContact (updated _) = ⊥
IsContact _ = Unit

-- What a request must show before the CA is asked: it belongs to this issuer's group, it is approved
-- if the check is on, no approver denied it, it has a Ready condition, and it is neither issued nor
-- failed.
pub record IsEligible (rc : Reconciler) (cr : CertificateRequest) : Type 0 where
  pub own_group : cr.spec.issuer_ref.group ≡ group
  pub is_approved :
      rc.check_approved_condition ≡ true → Any (HasStatus approved is_true) cr.status.conditions
  pub not_denied : ¬ Any (HasStatus denied is_true) cr.status.conditions
  pub seen : ¬ ¬ Any (HasType ready) cr.status.conditions
  pub not_issued : ¬ Any (HasStatus ready is_true) cr.status.conditions
  pub not_failed : ¬ Any (HasReason ready is_false Request.failed) cr.status.conditions

module _ (cm : CmUtil) (rc : Reconciler) (env : Env) where
  body-IsContact :
      (cr : CertificateRequest)
      → Any IsContact (body cm rc env (start cr)).1.actions
      → (cm.is_denied cr.status.conditions ≡ false)
        × (cm.get_condition cr.status.conditions ready ≢ none)
  unfolding body deny initialise report
  body-IsContact cr h = ground arith

  not-ignored :
      (cr : CertificateRequest)
      → is_ignored cm rc cr ≡ false
      → (text_eq cr.spec.issuer_ref.group group ≡ true)
        × (cm.has_status cr.status.conditions ready is_true ≡ false)
        × (cm.has_reason cr.status.conditions ready is_false Request.failed ≡ false)
        × (rc.check_approved_condition ≡ true → cm.is_approved cr.status.conditions ≡ true)
  unfolding is_ignored
  not-ignored cr h = ground arith

  -- A run asks the CA for nothing unless the request is eligible.
  pub reconcile_contact-IsEligible :
      (cr : CertificateRequest)
      → Any IsContact (reconcile_found cm rc env cr).1.actions
      → IsEligible rc cr
  reconcile_contact-IsEligible cr h = elim (Bool-cases (is_ignored cm rc cr)) [
    | inl ignored ↦ absurd (rw (reconcile_ignored cm rc env cr ignored) at h)
    | inr kept ↦
        let asked =
          deferred-Any cm rc env IsContact (λ k m x. x) (λ c x. x) (ended_by cm rc env cr)
            (ended cm rc env cr) (rw (reconcile_kept cm rc env cr kept) at h) in
        let (free, seen) = body-IsContact cr asked in
        let (own, unissued, unfailed, allowed) = not-ignored cr kept in
        record {
          own_group = (text_eq_iff _ _).0 own;
          is_approved = λ on. (cm.is_approved_iff _).0 (allowed on);
          not_denied = λ d. cc (free, (cm.is_denied_iff _).1 d);
          seen = λ n. seen ((cm.get_condition-eq-none_iff _ _).1 n);
          not_issued = λ d. cc (unissued, (cm.has_status_iff _ _ _).1 d);
          not_failed = λ d. cc (unfailed, (cm.has_reason_iff _ _ _ _).1 d);
        }
  ]
