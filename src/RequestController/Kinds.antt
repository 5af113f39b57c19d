-- ===== src/RequestController/Kinds.antt =====
-- Runs on a request whose issuer is of a kind that the controller does not serve.
use cert_manager_essendi_xc.Base.{true, false, List, [], ◌∷◌, ◌++◌, ◌≡◌, refl, some, none, arith}
use cert_manager_essendi_xc.Base.Errors.{Error, ok, err}
use cert_manager_essendi_xc.Base.Text.{codes}
use cert_manager_essendi_xc.Request
use cert_manager_essendi_xc.Request.{
  CertificateRequest, Condition, CmUtil, Any, HasReason, ready, is_false,
}
use cert_manager_essendi_xc.Request.Laws.{Any-Puts_new}
use cert_manager_essendi_xc.RequestController.{body, sign, open_signer, known_kind, reconcile_found}
use cert_manager_essendi_xc.RequestController.Deferred.{
  start, empty, is_refused, reconcile_body, after_all,
}
use cert_manager_essendi_xc.RequestController.Open.{IsOpen}
use cert_manager_essendi_xc.RequestController.Final.{final_absorbs}
use cert_manager_essendi_xc.RequestController.Settled.{is_final}
use cert_manager_essendi_xc.RequestController.Steps.{
  RuntimeObject, as_client_object, event, warning, updated, put, Reconciler, Env, Run, Exit, report,
  returned, panicked, stop, reported,
}

abbrev pub unrecognised : Condition
unrecognised =
    reported Request.failed (codes "Unrecognised kind. Ignoring") false
      (some (record { text = codes "error interpreting issuerRef: false" }))

module _ (cm : CmUtil) (rc : Reconciler) (env : Env) (cr : CertificateRequest) (o : IsOpen cm rc cr)
    (updates : (c : CertificateRequest) → env.update c ≡ none) where
  -- A run of an open request that ends on the way to the signer.
  reconcile_unopened :
      (e : Exit) (r : Run)
      → open_signer cm rc env (start cr) ≡ (stop e, r)
      → is_refused e ≡ false
      → reconcile_found cm rc env cr
        ≡ (e, record r { stored = r.request; actions = r.actions ++ updated r.request ∷ [] })
  unfolding body sign
  reconcile_unopened e r h u =
      reconcile_body cm rc env cr e r o.kept (ground (arith, h, o.allowed, o.seen)) u
        (updates r.request)

  open_signer_other :
      (made : RuntimeObject)
      → env.scheme_new cr.spec.issuer_ref.kind ≡ ok made
      → as_client_object made ≡ none
      → open_signer cm rc env (start cr) ≡ (stop panicked, start cr)
  unfolding open_signer known_kind
  open_signer_other made k h = ground (arith, k, h)

  -- Where the scheme makes an object for the request's kind that is no `client.Object`, the run of an
  -- open request panics. The request stays as it was, so that every further run does.
  pub no_object_panics :
      (made : RuntimeObject)
      → env.scheme_new cr.spec.issuer_ref.kind ≡ ok made
      → as_client_object made ≡ none
      → let (e, r) = reconcile_found cm rc env cr in
        (e ≡ panicked) × (r.stored ≡ cr) × (r.actions ≡ updated cr ∷ [])
  no_object_panics made k h =
      rw (reconcile_unopened panicked (start cr) (open_signer_other made k h) refl)
        (refl, refl, refl)

  open_signer_unknown :
      (x : Error)
      → env.scheme_new cr.spec.issuer_ref.kind ≡ err x
      → open_signer cm rc env (start cr) ≡ (
        stop (returned empty none),
        record (start cr) {
          request = put cm unrecognised cr;
          actions = event warning unrecognised.message ∷ [];
        },
      )
  unfolding open_signer known_kind report codes
  open_signer_unknown x k = ground (arith, k)

  unrecognised_final : Any (λ c. is_final c ≡ true) (put cm unrecognised cr).status.conditions
  unrecognised_final =
      Any-Puts_new (λ c. is_final c ≡ true) (cm.set_condition-Puts unrecognised _) refl

  -- Where the scheme knows no type for the request's kind, the run of an open request reports the
  -- request as Failed and asks the CA for nothing, and no later run touches the request again.
  pub unknown_kind_fails :
      (x : Error) (later : List Env)
      → env.scheme_new cr.spec.issuer_ref.kind ≡ err x
      → let (e, r) = reconcile_found cm rc env cr in
        (e ≡ returned empty none)
        × (r.actions ≡ event warning unrecognised.message ∷ updated r.stored ∷ [])
        × Any (HasReason ready is_false Request.failed) r.stored.status.conditions
        × (after_all cm rc later r.stored ≡ r.stored)
  unknown_kind_fails x later k = rw (reconcile_unopened _ _ (open_signer_unknown x k) refl) (
    refl,
    refl,
    Any-Puts_new (HasReason ready is_false Request.failed) (cm.set_condition-Puts unrecognised _)
        (refl, refl, refl),
    (final_absorbs cm rc later env (put cm unrecognised cr) unrecognised_final).0,
  )
