-- ===== src/RequestController/Refused.antt =====
-- What an error that speaks of a refusal does to a request that the CA has signed.
use cert_manager_essendi_xc.Base.{
  true, false, none, some, List, [], ◌∷◌, ◌≡◌, refl, sym, ap, ◌∙◌, subst,
}
use cert_manager_essendi_xc.Base.Errors.{Error, ok, err}
use cert_manager_essendi_xc.Base.Text.{Text, codes, contains, has_prefix, trim_space}
use cert_manager_essendi_xc.IssuerUtil.{
  says_submitted, says_signed, is_submitted, is_signed, get_submitted_condition,
  get_signed_condition,
}
use cert_manager_essendi_xc.Request.{CertificateRequest, RequestSpec, Condition, CmUtil}
use cert_manager_essendi_xc.RequestController.{
  route, fetch, deferred, reconcile_found, err_signer_refused, err_signer_builder, exit_of,
}
use cert_manager_essendi_xc.RequestController.Deferred.{empty, after, reconcile_kept}
use cert_manager_essendi_xc.RequestController.Frame.{after-SameReference}
use cert_manager_essendi_xc.RequestController.Journey.{submit_run}
use cert_manager_essendi_xc.RequestController.Lifecycle.{IsWellFormed, ready_of}
use cert_manager_essendi_xc.RequestController.Lifecycle.Moves.{Puts-ready_of, Puts-IsWellFormed}
use cert_manager_essendi_xc.RequestController.Lifecycle.View.{signed-ready_of, submitted-ready_of}
use cert_manager_essendi_xc.RequestController.Open.{IsOpen, put-IsOpen}
use cert_manager_essendi_xc.RequestController.Routes.{
  IsHealthy, still-IsHealthy, under_way, body_route,
}
use cert_manager_essendi_xc.RequestController.Stages.{IsFetching, pending_with, submitted_with}
use cert_manager_essendi_xc.RequestController.Steps.{
  event, normal, refreshed, submitted, fetched, updated, Reconciler, Env, Run, Exit, Flow, returned,
  stop, report, wrap, put,
}
use cert_manager_essendi_xc.Signer.{Signer}

-- The condition of the report.
abbrev retrying : Text → Condition
retrying e = pending_with (wrap (codes "Temporary error. Retrying") e)

-- With that as its Ready condition, a well-formed request counts neither as submitted nor as signed.
module _ (e : Text) (cs : List Condition) (w : IsWellFormed cs)
    (at : ready_of cs ≡ some (retrying e)) where
  retrying_unsigned : is_signed cs ≡ false
  unfolding is_signed get_signed_condition says_signed has_prefix codes
  retrying_unsigned = rw (signed-ready_of cs w) (rw at refl)

  retrying_unsubmitted : is_submitted cs ≡ false
  unfolding is_submitted get_submitted_condition says_submitted has_prefix codes
  retrying_unsubmitted = rw (submitted-ready_of cs w) (rw at refl)

module _ (cm : CmUtil) (rc : Reconciler) (s : Signer) (t : Text) (env : Env)
    (cr : CertificateRequest) (up : IsHealthy cm rc s t env cr) (o : IsOpen cm rc cr) (url : Text)
    (e : Error) (p : IsFetching url cr.status.conditions)
    (fails : s.fetch_certificate t url ≡ err e)
    (refused : contains (wrap err_signer_builder e.text) err_signer_refused ≡ true) where
  route_refused : route cm rc env s t cr (under_way cm rc s t env cr up o) ≡ (
    stop (returned empty (some (record { text = wrap err_signer_builder e.text }))),
    record (under_way cm rc s t env cr up o) { actions = refreshed ∷ fetched url ∷ [] },
  )
  unfolding route fetch
  route_refused = rw (p.signed, p.url_read, fails) refl

  run_refused : after cm rc env cr ≡ put cm (retrying (wrap err_signer_builder e.text)) cr
  unfolding deferred report
  run_refused =
      ap (λ (x : Exit × Run). x.1.stored)
        (reconcile_kept cm rc env cr o.kept
          ∙ ap (λ (x : Flow ⊥ × Run). deferred cm rc env (exit_of cm rc env x.0) x.1)
              (body_route cm rc s t env cr up o ∙ route_refused))
      ∙ rw refused (rw (up.stores _) refl)

  module _ (w : IsWellFormed cr.status.conditions) where
    abbrev forgotten : CertificateRequest
    forgotten = after cm rc env cr

    abbrev told : Condition
    told = retrying (wrap err_signer_builder e.text)

    forgotten-status : forgotten.status.conditions ≡ cm.set_condition told cr.status.conditions
    forgotten-status = ap (λ (x : CertificateRequest). x.status.conditions) run_refused

    forgotten-IsWellFormed : IsWellFormed forgotten.status.conditions
    forgotten-IsWellFormed =
        rw forgotten-status
          (Puts-IsWellFormed told (cm.set_condition-Puts told cr.status.conditions) refl w)

    forgotten-ready_of : ready_of forgotten.status.conditions ≡ some told
    forgotten-ready_of =
        rw forgotten-status
          (Puts-ready_of told (cm.set_condition-Puts told cr.status.conditions) refl)

    -- Where the CA has signed an open, well-formed request, and the fetch of its certificate fails with
    -- an error that speaks of a refusal, the run makes the request count as neither signed nor
    -- submitted, and the next run with a healthy signer submits it to the CA again.
    pub refused_resubmits :
        (later : Env) (second : Text)
        → IsHealthy cm rc s t later cr
        → s.submit_certificate_request t cr.spec.request ≡ ok second
        → trim_space second ≡ second
        → let (x, r) = reconcile_found cm rc later (after cm rc env cr) in
          (is_signed (after cm rc env cr).status.conditions ≡ false)
          × (is_submitted (after cm rc env cr).status.conditions ≡ false)
          × (x ≡ returned (record { requeue_after = 15 }) none)
          × (r.actions
              ≡ refreshed
                ∷ submitted cr.spec.request
                ∷ event normal (submitted_with second).message
                ∷ updated r.stored
                ∷ [])
    refused_resubmits later second healthy accepts trimmed =
        let same = after-SameReference cm rc env cr in
        let content = ap (λ (x : RequestSpec). x.request) same.1 in
        let unsigned =
          retrying_unsigned _ forgotten.status.conditions forgotten-IsWellFormed
            forgotten-ready_of in
        let unsubmitted =
          retrying_unsubmitted _ forgotten.status.conditions forgotten-IsWellFormed
            forgotten-ready_of in
        let run =
          submit_run cm rc s t later forgotten
            (still-IsHealthy cm rc s t later forgotten cr same healthy)
            (subst (IsOpen cm rc) (sym run_refused) (put-IsOpen cm rc told.message cr o)) second
            trimmed unsigned unsubmitted
            (subst (λ (x : Text). s.submit_certificate_request t x ≡ ok second) (sym content)
              accepts) in
        (unsigned, unsubmitted, run.0, rw content at run.1)
