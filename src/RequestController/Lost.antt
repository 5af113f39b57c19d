-- ===== src/RequestController/Lost.antt =====
-- Runs that submit a request and whose update is refused, as for a run on an old copy.
use cert_manager_essendi_xc.Base.{false, [], ◌∷◌, ◌≡◌, refl, inl, inr, some, none, ap, ◌∙◌}
use cert_manager_essendi_xc.Base.Errors.{Error, ok}
use cert_manager_essendi_xc.Base.Text.{Text}
use cert_manager_essendi_xc.IssuerUtil.{is_submitted, is_signed}
use cert_manager_essendi_xc.Request.{CertificateRequest, CmUtil, Any}
use cert_manager_essendi_xc.Signer.{Signer}
use cert_manager_essendi_xc.RequestController.{
  body, deny, initialise, sign, open_signer, route, submit, poll, await, fetch, deferred, exit_of,
  reconcile_found,
}
use cert_manager_essendi_xc.RequestController.Deferred.{start, empty, reconcile_kept}
use cert_manager_essendi_xc.RequestController.Open.{IsOpen}
use cert_manager_essendi_xc.RequestController.Routes.{
  IsHealthy, body_route, reconcile_route, route_submit,
}
use cert_manager_essendi_xc.RequestController.Settled.Body.{IsSubmission}
use cert_manager_essendi_xc.RequestController.Stages.{submitted_with}
use cert_manager_essendi_xc.RequestController.Steps.{
  event, normal, refreshed, submitted, updated, Reconciler, Env, Run, Flow, report, put, returned,
}

-- The same world, in which every update is refused.
abbrev pub refusing : Env → Error → Env
refusing env x = record env { update = λ c. some x }

module _ (cm : CmUtil) (rc : Reconciler) (env : Env) (x : Error) where
  body_refusing : (r : Run) → body cm rc (refusing env x) r ≡ body cm rc env r
  unfolding body deny initialise sign open_signer route submit poll await fetch report
  body_refusing r = refl

  module _ (s : Signer) (t url : Text) (cr : CertificateRequest) (up : IsHealthy cm rc s t env cr)
      (o : IsOpen cm rc cr) (unsigned : is_signed cr.status.conditions ≡ false)
      (unsubmitted : is_submitted cr.status.conditions ≡ false)
      (answer : s.submit_certificate_request t cr.spec.request ≡ ok url) where
    refused_run : reconcile_found cm rc (refusing env x) cr ≡ (
      returned empty (some (env.aggregate none x)),
      record (start cr) {
        request = put cm (submitted_with url) cr;
        actions =
            refreshed
            ∷ submitted cr.spec.request
            ∷ event normal (submitted_with url).message
            ∷ updated (put cm (submitted_with url) cr)
            ∷ [];
      },
    )
    unfolding deferred
    refused_run =
        reconcile_kept cm rc (refusing env x) cr o.kept
        ∙ ap
            (λ (y : Flow ⊥ × Run).
              deferred cm rc (refusing env x) (exit_of cm rc (refusing env x) y.0) y.1)
            (body_refusing (start cr)
              ∙ body_route cm rc s t env cr up o
              ∙ route_submit cm rc s t env cr up o url unsigned unsubmitted answer)

    submits_now : Any IsSubmission (reconcile_found cm rc env cr).1.actions
    submits_now =
        rw
          (reconcile_route cm rc s t env cr up o _ _
            (route_submit cm rc s t env cr up o url unsigned unsubmitted answer) refl)
          (inr (inl tt))

    -- The run of an open request that was not submitted submits it even where its update is refused,
    -- as for an old copy of the request. It returns the error of the update and leaves no trace of the
    -- submission in the store, so that the next run whose update is taken submits the request again.
    pub unstored_resubmits :
        let (e, r) = reconcile_found cm rc (refusing env x) cr in
        (e ≡ returned empty (some (env.aggregate none x)))
        × Any IsSubmission r.actions
        × (r.stored ≡ cr)
        × Any IsSubmission (reconcile_found cm rc env r.stored).1.actions
    unstored_resubmits = rw refused_run (refl, inr (inl tt), refl, submits_now)
