-- ===== src/IssuerController/Health.antt =====
-- When a run makes an issuer ready.
use cert_manager_essendi_xc.Base.{ℕ, true, false, ◌≡◌, refl, sym, none, some, [], ◌∙◌, ap}
use cert_manager_essendi_xc.Base.Text.{codes}
use cert_manager_essendi_xc.Base.Errors.{Error, Outcome, ok, err, panic}
use cert_manager_essendi_xc.Api
use cert_manager_essendi_xc.Api.{
  IssuerSpec, IssuerStatus, IssuerCondition, Object, status_eq, event_reason_issuer_reconciler,
}
use cert_manager_essendi_xc.IssuerUtil.{get_ready_condition, set_ready_condition, is_ready}
use cert_manager_essendi_xc.IssuerUtil.Ready.{
  set_ready_condition_lem, is_ready-set_ready_condition, set_ready_condition_idempotent,
}
use cert_manager_essendi_xc.IssuerController.Checks.{IsPassed, check_health-IsPassed}
use cert_manager_essendi_xc.IssuerController.{
  Env, Run, report, secret_namespace, check_health, end_check, body, deferred, retry_report,
  reconcile_object,
}
use cert_manager_essendi_xc.RequestController.Steps.{NamespacedName, Exit, returned, panicked, wrap}

module _ (env : Env) (req : NamespacedName) (object : Object) (spec : IssuerSpec)
    (status : IssuerStatus) (updates : (s : IssuerStatus) → env.update s ≡ none) where
  abbrev pub health : Outcome (Unit {0})
  health =
      check_health env req spec
        (record { namespace = secret_namespace env req object; name = spec.auth_secret_name })

  abbrev pub after : IssuerStatus
  after = (reconcile_object env req object spec status).1.stored

  abbrev start : Run
  start = record { status = status; stored = status; actions = [] }

  deferred_stored :
      (e : Exit) (r : Run)
      → ((deferred env req e r).0 ≡ e)
        × ((deferred env req e r).1.stored ≡ (retry_report env req e r).status)
  unfolding deferred
  deferred_stored e r = rw (updates _) (refl, refl)

  reconcile_by :
      (e : Exit) (r : Run)
      → body env req object spec start ≡ (e, r)
      → ((reconcile_object env req object spec status).0 ≡ e)
        × (after ≡ (retry_report env req e r).status)
  unfolding reconcile_object
  reconcile_by e r h =
      let same = ap (λ (x : Exit × Run). deferred env req x.0 x.1) h in
      let (by, kept) = deferred_stored e r in
      (ap (λ (x : Exit × Run). x.0) same ∙ by, ap (λ (x : Exit × Run). x.1.stored) same ∙ kept)

  body_new :
      get_ready_condition status ≡ none
      → body env req object spec start ≡ (
        returned (record { requeue_after = 0 }) none,
        report env req Api.unknown (codes "First seen") none start,
      )
  unfolding body
  body_new h = rw (h, body) refl

  body_seen :
      (c : IssuerCondition)
      → get_ready_condition status ≡ some c
      → body env req object spec start ≡ end_check env req health start
  unfolding body
  body_seen c h = rw (h, body) refl

  -- A run on an issuer that has no Ready condition gives it one with the status Unknown, and looks at
  -- no secret.
  pub first_seen :
      get_ready_condition status ≡ none
      → ((reconcile_object env req object spec status).0
          ≡ returned (record { requeue_after = 0 }) none)
        × (after
            ≡ set_ready_condition env.now status Api.unknown event_reason_issuer_reconciler
                (codes "First seen"))
  unfolding report
  first_seen h = reconcile_by _ _ (body_new h)

  module _ (c : IssuerCondition) (seen : get_ready_condition status ≡ some c) where
    pub healthy_run :
        health ≡ ok tt
        → ((reconcile_object env req object spec status).0
            ≡ returned (record { requeue_after = 60 }) none)
          × (after
              ≡ set_ready_condition env.now status Api.is_true event_reason_issuer_reconciler
                  (codes "Success"))
    unfolding report
    healthy_run h =
        reconcile_by _ _
          (body_seen c seen ∙ ap (λ (x : Outcome (Unit {0})). end_check env req x start) h)

    pub failed_run :
        (e : Error)
        → health ≡ err e
        → ((reconcile_object env req object spec status).0
            ≡ returned (record { requeue_after = 0 }) (some e))
          × (after
              ≡ set_ready_condition env.now status Api.is_false event_reason_issuer_reconciler
                  (wrap (codes "Temporary error. Retrying") e.text))
    unfolding report
    failed_run e h =
        reconcile_by _ _
          (body_seen c seen ∙ ap (λ (x : Outcome (Unit {0})). end_check env req x start) h)

    pub panicked_run :
        health ≡ panic
        → ((reconcile_object env req object spec status).0 ≡ panicked) × (after ≡ status)
    panicked_run h =
        reconcile_by _ _
          (body_seen c seen ∙ ap (λ (x : Outcome (Unit {0})). end_check env req x start) h)

    pub health_by :
        ((health ≡ ok tt)
          → ((reconcile_object env req object spec status).0
              ≡ returned (record { requeue_after = 60 }) none)
            × (is_ready after ≡ true))
        × ((e : Error)
            → health ≡ err e
            → ((reconcile_object env req object spec status).0
                ≡ returned (record { requeue_after = 0 }) (some e))
              × (is_ready after ≡ false))
        × (health ≡ panic
            → ((reconcile_object env req object spec status).0 ≡ panicked) × (after ≡ status))
    health_by = (
      (λ h.
          let (by, kept) = healthy_run h in
          (by, rw kept (is_ready-set_ready_condition env.now status _ _ _))),
      (λ e h.
          let (by, kept) = failed_run e h in
          (by, rw kept (is_ready-set_ready_condition env.now status _ _ _))),
      panicked_run,
    )

-- What a run leaves in the API server.
abbrev pub after_run : Env → NamespacedName → Object → IssuerSpec → IssuerStatus → IssuerStatus
after_run env req object spec status = (reconcile_object env req object spec status).1.stored

-- The health check passes on the issuer's secret, and the update of the status is taken.
abbrev pub IsHealthy : Env → NamespacedName → Object → IssuerSpec → Type 0
IsHealthy env req object spec =
    IsPassed env spec
      (record { namespace = secret_namespace env req object; name = spec.auth_secret_name })
    × ((s : IssuerStatus) → env.update s ≡ none)

abbrev succeeded : ℕ → IssuerStatus → IssuerStatus
succeeded now status =
    set_ready_condition now status Api.is_true event_reason_issuer_reconciler (codes "Success")

healthy_after :
    (env : Env) (req : NamespacedName) (object : Object) (spec : IssuerSpec)
    (status old : IssuerStatus) (c : IssuerCondition)
    → IsHealthy env req object spec
    → status ≡ old
    → get_ready_condition old ≡ some c
    → after_run env req object spec status ≡ succeeded env.now old
healthy_after env req object spec status old c (h, u) same seen =
    rw same
      ((healthy_run env req object spec old u c seen (check_health-IsPassed env req spec _ h)).1)

-- Two runs make a new issuer ready, the second of them healthy, and every healthy run after them, at
-- whatever time, leaves its status as it is.
pub new_issuer_ready :
    (env1 env2 env3 : Env) (req : NamespacedName) (object : Object) (spec : IssuerSpec)
    (status : IssuerStatus)
    → get_ready_condition status ≡ none
    → ((s : IssuerStatus) → env1.update s ≡ none)
    → IsHealthy env2 req object spec
    → IsHealthy env3 req object spec
    → let second = after_run env2 req object spec (after_run env1 req object spec status) in
      (is_ready second ≡ true) × (after_run env3 req object spec second ≡ second)
new_issuer_ready env1 env2 env3 req object spec status new u1 h2 h3 =
    let first =
      set_ready_condition env1.now status Api.unknown event_reason_issuer_reconciler
        (codes "First seen") in
    let seen =
      (set_ready_condition_lem env1.now status Api.unknown event_reason_issuer_reconciler
        (codes "First seen")).0 in
    let e2 =
      healthy_after env2 req object spec (after_run env1 req object spec status) first _ h2
        (first_seen env1 req object spec status u1 new).1 seen in
    let seen2 =
      (set_ready_condition_lem env2.now first Api.is_true event_reason_issuer_reconciler
        (codes "Success")).0 in
    let e3 = healthy_after env3 req object spec _ (succeeded env2.now first) _ h3 e2 seen2 in
    (
      rw e2 (is_ready-set_ready_condition env2.now first _ _ _),
      e3
          ∙ set_ready_condition_idempotent env2.now env3.now first Api.is_true
              event_reason_issuer_reconciler (codes "Success")
          ∙ sym e2,
    )
