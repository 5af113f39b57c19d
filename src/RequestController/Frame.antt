-- ===== src/RequestController/Frame.antt =====
-- The reference of a request under a run of `Reconcile`.
use cert_manager_essendi_xc.Base.{◌≡◌, inl, inr, refl, arith, Bool-cases}
use cert_manager_essendi_xc.Request.{CertificateRequest, CmUtil}
use cert_manager_essendi_xc.RequestController.{
  is_ignored, deny, initialise, sign, body, submit, poll, await, fetch, route, open_signer,
  deferred, retry_report,
}
use cert_manager_essendi_xc.RequestController.Deferred.{
  ended, ended_by, reconcile_ignored, reconcile_kept, after,
}
use cert_manager_essendi_xc.RequestController.Settled.Body.{body_stored, retry_report_stored}
use cert_manager_essendi_xc.RequestController.Steps.{Reconciler, Env, Run, Exit, report}

-- The requests refer to the same issuer and ask for the same certificate.
abbrev pub SameReference : CertificateRequest → CertificateRequest → Type 0
SameReference a b = (a.namespace ≡ b.namespace) × (a.spec ≡ b.spec)

module _ (cm : CmUtil) (rc : Reconciler) (env : Env) (cr : CertificateRequest) where
  body-SameReference : SameReference (ended cm rc env cr).request cr
  unfolding body deny initialise report sign open_signer route submit poll await fetch
  body-SameReference = ground arith

  retry_report-SameReference :
      (e : Exit) (r : Run)
      → SameReference r.request cr
      → SameReference (retry_report cm rc env e r).request cr
  unfolding report
  retry_report-SameReference e r h = ground arith

  -- A run leaves the reference of the stored request as it was.
  pub after-SameReference : SameReference (after cm rc env cr) cr
  unfolding deferred
  after-SameReference = elim (Bool-cases (is_ignored cm rc cr)) [
    | inl ignored ↦ rw (reconcile_ignored cm rc env cr ignored, after) (refl, refl)
    | inr live ↦
        rw (after, reconcile_kept cm rc env cr live)
          (ground (
            arith,
            retry_report-SameReference (ended_by cm rc env cr) (ended cm rc env cr)
                body-SameReference,
            retry_report_stored cm rc env (ended_by cm rc env cr) (ended cm rc env cr),
            body_stored cm rc env cr,
          ))
  ]
