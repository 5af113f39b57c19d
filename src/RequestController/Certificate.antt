-- ===== src/RequestController/Certificate.antt =====
-- Where the certificate of a request comes from.
use cert_manager_essendi_xc.Base.{
  [], ◌∷◌, ◌≡◌, ◌≢◌, ◌⊎◌, inl, inr, refl, arith, none, Bool-cases, Option-cases, ◌∙◌, ◌++◌, ap,
}
use cert_manager_essendi_xc.Request.{
  CertificateRequest, CmUtil, Any, HasReason, ready, is_true, issued,
}
use cert_manager_essendi_xc.Request.Laws.{Any-Puts_new}
use cert_manager_essendi_xc.RequestController.{
  is_ignored, body, deny, initialise, sign, open_signer, route, submit, poll, fetch, deferred,
  reconcile_found,
}
use cert_manager_essendi_xc.RequestController.Deferred.{
  ended, ended_by, empty, reconcile_ignored, reconcile_kept, after,
}
use cert_manager_essendi_xc.RequestController.Routes.{issued_now}
use cert_manager_essendi_xc.RequestController.Settled.Body.{body_stored}
use cert_manager_essendi_xc.RequestController.Steps.{
  Reconciler, Env, Run, Exit, report, returned, updated,
}

module _ (cm : CmUtil) (rc : Reconciler) (env : Env) (cr : CertificateRequest) where
  body_certificate :
      (ended cm rc env cr).request.status.certificate ≢ cr.status.certificate
      → (ended_by cm rc env cr ≡ returned empty none)
        × ((ended cm rc env cr).request.status.conditions
            ≡ cm.set_condition issued_now cr.status.conditions)
  unfolding body deny initialise sign open_signer route submit poll fetch report
  body_certificate h = ground arith

  deferred_request :
      (e : Exit) (r : Run)
      → ((deferred cm rc env e r).1.stored.status.certificate ≡ r.request.status.certificate)
        ⊎ ((deferred cm rc env e r).1.stored ≡ r.stored)
  unfolding deferred report
  deferred_request e r = ground arith

  deferred_done :
      (r : Run)
      → ((deferred cm rc env (returned empty none) r).1.stored ≡ r.stored)
        ⊎ (deferred cm rc env (returned empty none) r ≡ (
          returned empty none,
          record r { stored = r.request; actions = r.actions ++ updated r.request ∷ [] },
        ))
  unfolding deferred
  deferred_done r = elim (Option-cases (env.update r.request)) [
    | inl up ↦ inr (rw up refl)
    | inr (e, down) ↦ inl (rw down refl)
  ]

  body_changed :
      (deferred cm rc env (ended_by cm rc env cr) (ended cm rc env cr)).1.stored.status.certificate
        ≢ cr.status.certificate
      → (ended cm rc env cr).request.status.certificate ≢ cr.status.certificate
  body_changed h = elim (deferred_request (ended_by cm rc env cr) (ended cm rc env cr)) [
    | inl new ↦ λ same. h (new ∙ same)
    | inr old ↦
        absurd (
          h (
            ap (λ (c : CertificateRequest). c.status.certificate) (old ∙ body_stored cm rc env cr)))
  ]

  issued_by_body :
      (reconcile_found cm rc env cr).1.stored.status.certificate ≢ cr.status.certificate
      → reconcile_found cm rc env cr
        ≡ deferred cm rc env (ended_by cm rc env cr) (ended cm rc env cr)
      → ((reconcile_found cm rc env cr).0 ≡ returned empty none)
        × Any
            (HasReason ready is_true issued)
            (reconcile_found cm rc env cr).1.stored.status.conditions
  issued_by_body h e =
      let (done, set) = body_certificate (body_changed (rw e at h)) in
      let whole = e ∙ ap (λ (x : Exit). deferred cm rc env x (ended cm rc env cr)) done in
      elim (deferred_done (ended cm rc env cr)) [
        | inl old ↦ absurd (
            h (
              ap (λ (x : Exit × Run). x.1.stored.status.certificate) whole
              ∙ ap (λ (c : CertificateRequest). c.status.certificate)
                  (old ∙ body_stored cm rc env cr)))
        | inr new ↦ rw (whole ∙ new) (
          refl,
          rw set (
              Any-Puts_new (HasReason ready is_true issued)
                (cm.set_condition-Puts issued_now cr.status.conditions) (refl, refl, refl)),
        )
      ]

  -- If a run changes the stored certificate, then it returned without an error, and the same update
  -- made the request Ready with the reason Issued.
  pub certificate_issued :
      (after cm rc env cr).status.certificate ≢ cr.status.certificate
      → ((reconcile_found cm rc env cr).0 ≡ returned empty none)
        × Any (HasReason ready is_true issued) (after cm rc env cr).status.conditions
  certificate_issued h = elim (Bool-cases (is_ignored cm rc cr)) [
    | inl ignored ↦ absurd (
        h (
          ap (λ (x : Exit × Run). x.1.stored.status.certificate)
            (reconcile_ignored cm rc env cr ignored)))
    | inr live ↦ issued_by_body h (reconcile_kept cm rc env cr live)
  ]
