-- ===== src/RequestController/Await.antt =====
-- Runs on a submitted request whose task is not done.
use cert_manager_essendi_xc.Base.{
  true, false, List, [], ◌∷◌, ◌≡◌, ◌≢◌, ◌⊎◌, inl, inr, refl, arith, none, Bool, ◌||◌, ◌&&◌, not,
  Bool-cases, ◌∙◌, ap, All,
}
use cert_manager_essendi_xc.Base.Errors.{ok}
use cert_manager_essendi_xc.Base.Text.{Text, codes, text_eq, trim_space}
use cert_manager_essendi_xc.Base.Text.Laws.{text_eq_iff}
use cert_manager_essendi_xc.Api.{
  task_status_processing, task_status_approved, task_status_failed, task_status_declined,
  task_status_canceled,
}
use cert_manager_essendi_xc.IssuerUtil
use cert_manager_essendi_xc.IssuerUtil.{says_submitted, is_processing}
use cert_manager_essendi_xc.Request
use cert_manager_essendi_xc.Request.{
  CertificateRequest, Condition, CmUtil, Any, HasReason, ready, is_false,
}
use cert_manager_essendi_xc.Request.Laws.{Any-Puts_new}
use cert_manager_essendi_xc.Signer.{Signer}
use cert_manager_essendi_xc.RequestController.{await, route, poll, reconcile_found}
use cert_manager_essendi_xc.RequestController.Deferred.{is_refused}
use cert_manager_essendi_xc.RequestController.Open.{IsOpen, put-IsOpen}
use cert_manager_essendi_xc.RequestController.Routes.{IsHealthy, under_way, reconcile_route}
use cert_manager_essendi_xc.RequestController.Stages.{
  IsPolling, processing_with, approved_with, processing_with-IsPolling, approved_with-IsPolling,
}
use cert_manager_essendi_xc.RequestController.Steps.{
  Flow, polled, refreshed, Reconciler, Env, Run, Exit, report, returned, stop,
}

-- The states of a task that the CA has given up.
abbrev pub is_given_up : Text → Bool
is_given_up task =
    text_eq task task_status_declined
    || text_eq task task_status_canceled
    || text_eq task task_status_failed

processing_not_given_up :
    (task : Text) → text_eq task task_status_processing ≡ true → is_given_up task ≡ false
unfolding text_eq codes
processing_not_given_up task h = rw ((text_eq_iff task task_status_processing).0 h) refl

approved_not_given_up :
    (task : Text) → text_eq task task_status_approved ≡ true → is_given_up task ≡ false
unfolding text_eq codes
approved_not_given_up task h = rw ((text_eq_iff task task_status_approved).0 h) refl

given_up_waits :
    (task : Text)
    → is_given_up task ≡ true
    → (text_eq task task_status_processing ≡ false) × (text_eq task task_status_approved ≡ false)
given_up_waits task h = ground (arith, processing_not_given_up task, approved_not_given_up task)

not_given_up_parts :
    (task : Text)
    → is_given_up task ≡ false
    → (text_eq task task_status_declined ≡ false)
      × (text_eq task task_status_canceled ≡ false)
      × (text_eq task task_status_failed ≡ false)
not_given_up_parts task h = ground arith

given_up_cases :
    (task : Text)
    → is_given_up task ≡ true
    → (text_eq task task_status_declined ≡ true)
      ⊎ (((text_eq task task_status_declined ≡ false) × (text_eq task task_status_canceled ≡ true))
          ⊎ ((text_eq task task_status_declined ≡ false)
              × (text_eq task task_status_canceled ≡ false)
              × (text_eq task task_status_failed ≡ true)))
given_up_cases task h = ground arith

module _ (cm : CmUtil) (rc : Reconciler) (env : Env) (url task : Text) (r : Run) where
  abbrev cs : List Condition
  cs = r.request.status.conditions

  await_end : Flow ⊥ × Run
  await_end = await cm rc env url task cs r

  failed_now :
      (message : Text)
      → Any (HasReason ready is_false Request.failed) (
          cm.set_condition
            (record { type = ready; status = is_false; reason = Request.failed; message = message })
            cs)
  failed_now message =
      Any-Puts_new (HasReason ready is_false Request.failed) (cm.set_condition-Puts _ cs)
        (refl, refl, refl)

  await_given_up :
      is_given_up task ≡ true
      → (await_end.0 ≡ stop (returned (record { requeue_after = 0 }) none))
        × Any (HasReason ready is_false Request.failed) await_end.1.request.status.conditions
  unfolding await_end await report
  await_given_up h =
      let (np, na) = given_up_waits task h in
      rw (np, na)
        (elim (given_up_cases task h) [
          | inl d ↦ rw d (refl, failed_now (codes "Request declined"))
          | inr (inl (nd, c)) ↦ rw (nd, c) (refl, failed_now (codes "Request cancelled"))
          | inr (inr (nd, nc, f)) ↦ rw (nd, nc, f) (refl, failed_now (codes "Failed in review"))
        ])

  -- The same URL will be polled, and the request stays open.
  await_goes_on :
      is_given_up task ≡ false
      → trim_space url ≡ url
      → All (λ d. d.type ≢ ready → says_submitted d ≡ false) cs
      → IsOpen cm rc r.request
      → IsPolling url cs
      → (await_end.0 ≡ stop (returned (record { requeue_after = 15 }) none))
        × IsPolling url await_end.1.request.status.conditions
        × IsOpen cm rc await_end.1.request
  unfolding await_end await report
  await_goes_on h trimmed quiet o p =
      elim (Bool-cases (text_eq task task_status_processing && not (is_processing cs))) [
        | inl a ↦ rw a (
          refl,
          processing_with-IsPolling url trimmed p.unsigned (cm.set_condition-Puts _ _) quiet,
          put-IsOpen cm rc (processing_with url).message r.request o,
        )
        | inr na ↦
            elim (Bool-cases
              (text_eq task task_status_approved && not (IssuerUtil.is_approved cs))) [
                | inl b ↦
                    rw (na, b)
                      (
                        refl,
                        approved_with-IsPolling url trimmed p.unsigned (cm.set_condition-Puts _ _)
                            quiet,
                        put-IsOpen cm rc (approved_with url).message r.request o,
                      )
                | inr nb ↦
                    let (nd, nc, nf) = not_given_up_parts task h in
                    rw (na, nb, nd, nc, nf) (refl, p, o)
              ]
      ]

module _ (cm : CmUtil) (rc : Reconciler) (s : Signer) (t : Text) (env : Env)
    (cr : CertificateRequest) (up : IsHealthy cm rc s t env cr) (o : IsOpen cm rc cr) where
  abbrev asked : Text → Run
  asked url = record (under_way cm rc s t env cr up o) { actions = refreshed ∷ polled url ∷ [] }

  route-await :
      (url task : Text)
      → IsPolling url cr.status.conditions
      → s.request_task_status t url ≡ ok ([], task)
      → route cm rc env s t cr (under_way cm rc s t env cr up o)
        ≡ await cm rc env url task cr.status.conditions (asked url)
  unfolding route poll
  route-await url task p e = rw (p.unsigned, p.submitted, p.url_read) (rw e refl)

  reconcile_await :
      (url task : Text) (e : Exit)
      → IsPolling url cr.status.conditions
      → s.request_task_status t url ≡ ok ([], task)
      → (await cm rc env url task cr.status.conditions (asked url)).0 ≡ stop e
      → is_refused e ≡ false
      → ((reconcile_found cm rc env cr).0 ≡ e)
        × ((reconcile_found cm rc env cr).1.stored
            ≡ (await cm rc env url task cr.status.conditions (asked url)).1.request)
  reconcile_await url task e p told h u =
      let whole =
        reconcile_route cm rc s t env cr up o e
          (await cm rc env url task cr.status.conditions (asked url)).1
          (route-await url task p told ∙ λ i.
            (h i, (await cm rc env url task cr.status.conditions (asked url)).1))
          u in
      (ap (λ (x : Exit × Run). x.0) whole, ap (λ (x : Exit × Run). x.1.stored) whole)

  pub await_by :
      (url task : Text)
      → trim_space url ≡ url
      → All (λ d. d.type ≢ ready → says_submitted d ≡ false) cr.status.conditions
      → IsPolling url cr.status.conditions
      → s.request_task_status t url ≡ ok ([], task)
      → let (e, r) = reconcile_found cm rc env cr in
        (is_given_up task ≡ true
          → (e ≡ returned (record { requeue_after = 0 }) none)
            × Any (HasReason ready is_false Request.failed) r.stored.status.conditions)
        × (is_given_up task ≡ false
            → (e ≡ returned (record { requeue_after = 15 }) none)
              × IsPolling url r.stored.status.conditions
              × IsOpen cm rc r.stored)
  unfolding await_end
  await_by url task trimmed quiet p told = (
    λ g.
        let (stopped, failed) = await_given_up cm rc env url task (asked url) g in
        let (by, stored) = reconcile_await url task _ p told stopped refl in (by, rw stored failed),
    λ g.
        let (stopped, polling, open_still) =
          await_goes_on cm rc env url task (asked url) g trimmed quiet o p in
        let (by, stored) = reconcile_await url task _ p told stopped refl in
        (by, rw stored polling, rw stored open_still),
  )

  -- A run on a submitted request whose task has no resource yet: if the CA has given the task up, the
  -- request becomes Ready=False as Failed and is not queued again; otherwise the run is repeated
  -- after 15 seconds, and will poll the same URL, in whatever state the task is.
  pub await_run :
      (url task : Text)
      → trim_space url ≡ url
      → All (λ d. d.type ≢ ready → says_submitted d ≡ false) cr.status.conditions
      → IsPolling url cr.status.conditions
      → s.request_task_status t url ≡ ok ([], task)
      → let (e, r) = reconcile_found cm rc env cr in
        ((is_given_up task ≡ true)
          × (e ≡ returned (record { requeue_after = 0 }) none)
          × Any (HasReason ready is_false Request.failed) r.stored.status.conditions)
        ⊎ ((is_given_up task ≡ false)
            × (e ≡ returned (record { requeue_after = 15 }) none)
            × IsPolling url r.stored.status.conditions)
  await_run url task trimmed quiet p told =
      let (given_up, waits) = await_by url task trimmed quiet p told in
      elim (Bool-cases (is_given_up task)) [
        | inl g ↦ inl (g, (given_up g).0, (given_up g).1)
        | inr g ↦ let (by, polling, _) = waits g in inr (g, by, polling)
      ]
