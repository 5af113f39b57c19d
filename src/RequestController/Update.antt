-- ===== src/RequestController/Update.antt =====
-- Runs whose update of the object fails, as on a conflict with another writer.
use cert_manager_essendi_xc.Base.{false, ◌≡◌, refl, arith, some, none, ◌∙◌}
use cert_manager_essendi_xc.Base.Errors.{Error}
use cert_manager_essendi_xc.Request.{CertificateRequest, CmUtil}
use cert_manager_essendi_xc.RequestController.{
  is_ignored, deferred, retry_report, reconcile_found, body, deny, initialise, sign, open_signer,
  route, submit, poll, await, fetch,
}
use cert_manager_essendi_xc.RequestController.Deferred.{
  ended, ended_by, empty, reconcile_kept, after,
}
use cert_manager_essendi_xc.RequestController.Settled.Body.{body_stored}
use cert_manager_essendi_xc.RequestController.Steps.{
  Reconciler, Env, Run, Exit, returned, panicked, report,
}

-- The same world, in which every update is taken.
abbrev pub taking : Env → Env
taking env = record env { update = λ c. none }

-- An exit whose error, or the lack of one, is joined with the error `u`.
abbrev pub joined : Env → Error → Exit → Exit
joined env u panicked = panicked
joined env u (returned n e) = returned empty (some (env.aggregate e u))

module _ (cm : CmUtil) (rc : Reconciler) (env : Env) (u : Error)
    (fails : (c : CertificateRequest) → env.update c ≡ some u) where
  retry_report_kept : (e : Exit) (r : Run) → (retry_report cm rc env e r).stored ≡ r.stored
  unfolding report
  retry_report_kept e r = ground arith

  deferred_failed :
      (e : Exit) (r : Run)
      → ((deferred cm rc env e r).0 ≡ joined env u e)
        × ((deferred cm rc env e r).1.stored ≡ (retry_report cm rc env e r).stored)
  unfolding deferred
  deferred_failed panicked r = rw (fails _) (refl, refl)
  deferred_failed (returned n x) r = rw (fails _) (refl, refl)

  deferred_taken : (e : Exit) (r : Run) → (deferred cm rc (taking env) e r).0 ≡ e
  unfolding deferred
  deferred_taken e r = refl

  -- The body of a run does not look at how updates are answered.
  ended_by-taking :
      (cr : CertificateRequest) → ended_by cm rc (taking env) cr ≡ ended_by cm rc env cr
  unfolding body deny initialise sign open_signer route submit poll await fetch report
  ended_by-taking cr = refl

  taken_exit :
      (cr : CertificateRequest)
      → is_ignored cm rc cr ≡ false
      → (reconcile_found cm rc (taking env) cr).0 ≡ ended_by cm rc env cr
  taken_exit cr live = rw (reconcile_kept cm rc (taking env) cr live) (
      deferred_taken (ended_by cm rc (taking env) cr) (ended cm rc (taking env) cr)
      ∙ ended_by-taking cr)

  -- Where the update fails, a run that passes the early returns changes nothing that is stored. It
  -- panics where the same run with an update that is taken panics, and otherwise returns the update's
  -- error joined with the error, or the lack of one, that the run with the taken update returns.
  pub update_failed :
      (cr : CertificateRequest)
      → is_ignored cm rc cr ≡ false
      → ((reconcile_found cm rc env cr).0 ≡ joined env u (reconcile_found cm rc (taking env) cr).0)
        × (after cm rc env cr ≡ cr)
  update_failed cr live =
      let (exit, same) = deferred_failed (ended_by cm rc env cr) (ended cm rc env cr) in
      let kept_old = retry_report_kept (ended_by cm rc env cr) (ended cm rc env cr) in
      rw (reconcile_kept cm rc env cr live, after, taken_exit cr live)
        (exit, same ∙ kept_old ∙ body_stored cm rc env cr)
