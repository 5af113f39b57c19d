-- ===== src/RequestController/Errors.antt =====
-- Runs that end in an error or a panic.
use cert_manager_essendi_xc.Base.{
  false, [], ◌∷◌, ◌≡◌, inl, inr, refl, sym, arith, some, none, Bool-cases, ◌∙◌, ap,
}
use cert_manager_essendi_xc.Base.Errors.{Error}
use cert_manager_essendi_xc.Base.Text.{Text, contains, after_colon}
use cert_manager_essendi_xc.IssuerUtil.{is_signed, is_submitted, get_submitted_condition}
use cert_manager_essendi_xc.Request.{CertificateRequest, Condition, CmUtil}
use cert_manager_essendi_xc.Signer.{Signer}
use cert_manager_essendi_xc.RequestController.{
  is_ignored, body, deny, initialise, sign, open_signer, route, submit, poll, fetch, deferred,
  reconcile_found, message_url, err_signer_refused,
}
use cert_manager_essendi_xc.RequestController.Deferred.{
  ended, ended_by, is_refused, reconcile_ignored, reconcile_kept, deferred_stored, after,
}
use cert_manager_essendi_xc.RequestController.Open.{IsOpen}
use cert_manager_essendi_xc.RequestController.Routes.{IsHealthy, under_way, reconcile_route}
use cert_manager_essendi_xc.RequestController.Steps.{
  refreshed, Reconciler, Env, Run, Exit, Result, report, returned, panicked, stop, updated,
}

module _ (cm : CmUtil) (rc : Reconciler) (env : Env) (cr : CertificateRequest) where
  -- No stage changes the request before it returns an error.
  body_error :
      (n : Result) (e : Error)
      → ended_by cm rc env cr ≡ returned n (some e)
      → (ended cm rc env cr).request ≡ cr
  unfolding body deny initialise sign open_signer route submit poll fetch report
  body_error n e h = ground arith

  module _ (updates : (c : CertificateRequest) → env.update c ≡ none) where
    deferred_exit : (e : Exit) (r : Run) → (deferred cm rc env e r).0 ≡ e
    unfolding deferred
    deferred_exit e r = rw (updates _) refl

    error_body :
        (n : Result) (e : Error)
        → (reconcile_found cm rc env cr).0 ≡ returned n (some e)
        → (is_ignored cm rc cr ≡ false) × (ended_by cm rc env cr ≡ returned n (some e))
    error_body n e h = elim (Bool-cases (is_ignored cm rc cr)) [
      | inl ignored ↦ cc (h, reconcile_ignored cm rc env cr ignored)
      | inr live ↦ (live, sym (deferred_exit _ _) ∙ rw (reconcile_kept cm rc env cr live) at h)
    ]

    -- A run that ends in an error whose text does not speak of a refusal leaves the stored request
    -- as it was, its Ready condition too.
    pub error_unreported :
        (n : Result) (e : Error)
        → (reconcile_found cm rc env cr).0 ≡ returned n (some e)
        → contains e.text err_signer_refused ≡ false
        → after cm rc env cr ≡ cr
    error_unreported n e h quiet =
        let (live, by) = error_body n e h in
        let unrefused : is_refused (ended_by cm rc env cr) ≡ false = rw by quiet in
        ap (λ (x : Exit × Run). x.1.stored)
          (reconcile_kept cm rc env cr live
            ∙ deferred_stored cm rc env (ended_by cm rc env cr) (ended cm rc env cr) unrefused
                (updates (ended cm rc env cr).request))
        ∙ body_error n e by

  module _ (s : Signer) (t : Text) (up : IsHealthy cm rc s t env cr) (o : IsOpen cm rc cr) where
    route_panic :
        (c : Condition)
        → is_signed cr.status.conditions ≡ false
        → get_submitted_condition cr.status.conditions ≡ some c
        → after_colon c.message ≡ none
        → route cm rc env s t cr (under_way cm rc s t env cr up o)
          ≡ (stop panicked, under_way cm rc s t env cr up o)
    unfolding route poll is_submitted message_url
    route_panic c unsigned e h = rw (unsigned, e) (rw h refl)

    -- Where the condition that counts as submitted has a message with no colon, whoever wrote it, the
    -- run of an open request panics; the request stays as it was, so that every further run does.
    pub colonless_panics :
        (c : Condition)
        → is_signed cr.status.conditions ≡ false
        → get_submitted_condition cr.status.conditions ≡ some c
        → after_colon c.message ≡ none
        → let (e, r) = reconcile_found cm rc env cr in
          (e ≡ panicked) × (r.stored ≡ cr) × (r.actions ≡ refreshed ∷ updated cr ∷ [])
    colonless_panics c unsigned e h =
        rw (reconcile_route cm rc s t env cr up o _ _ (route_panic c unsigned e h) refl)
          (refl, refl, refl)
