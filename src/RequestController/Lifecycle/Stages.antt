-- ===== src/RequestController/Lifecycle/Stages.antt =====
-- What each stage of `Reconcile` does to the phase of a request.
use cert_manager_essendi_xc.Base.{
  none, List, ◌≡◌, ◌≢◌, inl, inr, false, arith, refl, sym, subst, Bool-cases, Option-cases,
}
use cert_manager_essendi_xc.Base.Text.{Text, codes, is_empty}
use cert_manager_essendi_xc.Base.Errors.{Outcome-cases}
use cert_manager_essendi_xc.IssuerUtil.{get_submitted_condition}
use cert_manager_essendi_xc.Request.{Condition, CmUtil}
use cert_manager_essendi_xc.RequestController.{
  is_ignored, submit, poll, await, fetch, route, open_signer, url_of,
}
use cert_manager_essendi_xc.Signer.{Signer}
use cert_manager_essendi_xc.RequestController.Lifecycle.{
  Phase, IsSeen, IsUnderWay, phase, ready_of, IsWellFormed,
}
use cert_manager_essendi_xc.RequestController.Lifecycle.Moves.{
  Moves, stays, failed-Moves, issued-Moves, submitted-Moves, processing-Moves, approved-Moves,
  signed-Moves,
}
use cert_manager_essendi_xc.RequestController.Lifecycle.View.{
  signed_phase, IsUnderWay-phase, fresh-phase,
}
use cert_manager_essendi_xc.RequestController.Steps.{Reconciler, Env, Run, report}

under_way-IsSeen : (p : Phase) → IsUnderWay p → IsSeen p
under_way-IsSeen p h = ground arith

await-Moves :
    (cm : CmUtil) (rc : Reconciler) (env : Env) (r : Run) (url task : Text) (p : Phase)
    (cs : List Condition)
    → IsWellFormed r.request.status.conditions
    → IsUnderWay p
    → p ≡ phase r.request.status.conditions
    → Moves p (await cm rc env url task cs r).1.request.status.conditions
unfolding await report
await-Moves cm rc env r url task p cs w h e =
    let ds = r.request.status.conditions in
    let seen = under_way-IsSeen p h in
    let same = subst (λ (q : Phase). Moves q ds) (sym e) (stays ds w) in
    ground (
      arith,
      same,
      processing-Moves cm p ds w url h,
      approved-Moves cm p ds w url h,
      failed-Moves cm p ds w (codes "Request declined") seen,
      failed-Moves cm p ds w (codes "Request cancelled") seen,
      failed-Moves cm p ds w (codes "Failed in review") seen,
    )

module _ (cm : CmUtil) (rc : Reconciler) (env : Env) (r : Run)
    (w : IsWellFormed r.request.status.conditions) where
  abbrev now : Phase
  now = phase r.request.status.conditions

  fetch-Moves :
      (s : Signer) (t : Text)
      → now ≡ Phase.signed
      → Moves now (fetch cm rc env s t r.request.status.conditions r).1.request.status.conditions
  unfolding fetch report
  fetch-Moves s t h =
      let cs = r.request.status.conditions in
      ground (arith, stays cs w, issued-Moves cm now cs w (codes "Signed") h)

  submit-Moves :
      (s : Signer) (t : Text)
      → now ≡ Phase.fresh
      → Moves now (submit cm rc env s t r.request r).1.request.status.conditions
  unfolding submit report
  submit-Moves s t h =
      let cs = r.request.status.conditions in grind (arith, stays cs w, submitted-Moves cm now cs w)

  poll-Moves :
      (s : Signer) (t : Text)
      → IsUnderWay now
      → Moves now (poll cm rc env s t r.request.status.conditions r).1.request.status.conditions
  unfolding poll report
  poll-Moves s t h =
      let cs = r.request.status.conditions in
      elim (Option-cases (url_of (get_submitted_condition cs))) [
        | inl e ↦ rw e (stays cs w)
        | inr (url, e) ↦ rw e (elim (Outcome-cases (s.request_task_status t url)) [
          | inr (inl (x, q)) ↦ rw q (stays cs w)
          | inr (inr q) ↦ rw q (stays cs w)
          | inl ((resource, task), q) ↦ rw q (elim (Bool-cases (is_empty resource)) [
            | inl z ↦ rw z (await-Moves cm rc env _ url task now cs w h refl)
            | inr z ↦ rw z (signed-Moves cm now cs w resource h)
          ])
        ])
      ]

  pub open-Moves : IsSeen now → Moves now (open_signer cm rc env r).1.request.status.conditions
  unfolding open_signer report
  open-Moves seen =
      let cs = r.request.status.conditions in grind (arith, stays cs w, failed-Moves cm now cs w)

  pub route-Moves :
      (s : Signer) (t : Text)
      → is_ignored cm rc r.request ≡ false
      → ready_of r.request.status.conditions ≢ none
      → Moves now (route cm rc env s t r.request r).1.request.status.conditions
  unfolding route
  route-Moves s t live seen =
      let cr = r.request in
      ground (
        arith,
        fetch-Moves s t,
        poll-Moves s t,
        submit-Moves s t,
        signed_phase cm rc cr live w,
        IsUnderWay-phase cm rc cr live w,
        fresh-phase cm rc cr live w,
        seen,
      )
