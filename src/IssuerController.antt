-- ===== src/IssuerController.antt =====
-- internal/controllers/issuer_controller.go: the reconciler of Issuers and ClusterIssuers.
pub mod Checks
pub mod Health
pub mod Decides
pub mod Secret
pub mod Verdict
mod Tests
use cert_manager_essendi_xc.Base.{ℕ, Option, none, some, List, [], ◌∷◌, ◌++◌}
use cert_manager_essendi_xc.Base.Text.{Text, codes}
use cert_manager_essendi_xc.Base.Errors.{Error, Outcome, ok, err, panic, ◌>>=◌, ◌>>◌}
use cert_manager_essendi_xc.Api
use cert_manager_essendi_xc.Api.{
  IssuerSpec, IssuerStatus, ConditionStatus, Object, event_reason_issuer_reconciler,
}
use cert_manager_essendi_xc.IssuerUtil.{
  get_spec_and_status, get_ready_condition, set_ready_condition,
}
use cert_manager_essendi_xc.Signer.{HealthChecker, SecretData}
use cert_manager_essendi_xc.RequestController.Steps.{err_get_auth_secret}
use cert_manager_essendi_xc.RequestController.Steps.{
  Kind, RuntimeObject, as_client_object, Lookup, found, not_found, NamespacedName, EventType,
  normal, warning, Result, Exit, returned, panicked, wrap,
}

-- `defaultHealthCheckInterval`, in seconds
abbrev pub default_health_check_interval : ℕ
default_health_check_interval = 60

abbrev pub err_health_checker_builder : Text
err_health_checker_builder = codes "failed to build the healthchecker"

abbrev pub err_health_checker_check : Text
err_health_checker_check = codes "healthcheck failed"

-- The fields of `IssuerReconciler` that are plain data.
pub record IssuerReconciler : Type 0 where
  pub kind : Text
  pub cluster_resource_namespace : Text

-- The reconciler of one run, and what the run is answered. `scheme_new` is `Scheme.New`, of a kind of
-- the program's group; `get_object` fills an object of the new kind; `update` is `Status().Update`,
-- with `none` for success.
pub record Env : Type 0 where
  pub reconciler : IssuerReconciler
  pub scheme_new : Text → Outcome RuntimeObject
  pub get_object : Kind → NamespacedName → Lookup Object
  pub get_secret : NamespacedName → Outcome SecretData
  pub health_checker_builder : IssuerSpec → SecretData → Outcome HealthChecker
  pub now : ℕ
  pub update : IssuerStatus → Option Error
  pub aggregate : Option Error → Error → Error

pub data Action : Type 0 where
  event : EventType → Text → Action
  updated : IssuerStatus → Action

-- `status` is what `issuerStatus` points to, `stored` the API server's copy.
pub record Run : Type 0 where
  pub status : IssuerStatus
  pub stored : IssuerStatus
  pub actions : List Action

abbrev with_error : Text → Option Error → Text
with_error message none = message
with_error message (some e) = wrap message e.text

abbrev event_type : Option Error → EventType
event_type none = normal
event_type (some _) = warning

abbrev asserted : Option Kind → Outcome Kind
asserted none = panic
asserted (some k) = ok k

-- `newIssuer`, by `Scheme.New`
unfoldable pub new_issuer : (Text → Outcome RuntimeObject) → IssuerReconciler → Outcome Kind
new_issuer scheme_new r = scheme_new r.kind >>= λ made. asserted (as_client_object made)

-- `if err != nil { return fmt.Errorf(…, err) }`
abbrev mapped : {A : Type 0} → (Text → Text) → Outcome A → Outcome A
mapped f (ok a) = ok a
mapped f (err e) = err (record { text = f e.text })
mapped f panic = panic

abbrev checked : Option Error → Outcome (Unit {0})
checked none = ok tt
checked (some e) = err e

module _ (env : Env) (req : NamespacedName) where
  -- The closure `report`.
  unfoldable pub report : ConditionStatus → Text → Option Error → Run → Run
  report condition_status message e r = record r {
    status =
        set_ready_condition env.now r.status condition_status event_reason_issuer_reconciler
          (with_error message e);
    actions = r.actions ++ event (event_type e) (with_error message e) ∷ [];
  }

  -- The namespace of the issuer's secret. A foreign object does not come here.
  abbrev secret_namespace : Object → Text
  secret_namespace (Object.issuer _) = req.namespace
  secret_namespace (Object.cluster_issuer _) = env.reconciler.cluster_resource_namespace
  secret_namespace (Object.foreign _) = []

  abbrev secret_error : NamespacedName → Text → Text
  secret_error n reason =
      err_get_auth_secret
      ++ (codes ", secret name: "
          ++ (n.namespace ++ (codes "/" ++ (n.name ++ (codes ", reason: " ++ reason)))))

  -- From the secret to the health check.
  unfoldable pub check_health : IssuerSpec → NamespacedName → Outcome (Unit {0})
  check_health spec name = do
    secret ← mapped (secret_error name) (env.get_secret name)
    checker ← mapped (wrap err_health_checker_builder) (env.health_checker_builder spec secret)
    mapped (wrap err_health_checker_check) (checked checker.check)

  abbrev end_check : Outcome (Unit {0}) → Run → Exit × Run
  end_check (ok _) r = (
    returned (record { requeue_after = default_health_check_interval }) none,
    report Api.is_true (codes "Success") none r,
  )
  end_check (err e) r = (returned (record { requeue_after = 0 }) (some e), r)
  end_check panic r = (panicked, r)

  -- What follows the `defer` statement.
  unfoldable pub body : Object → IssuerSpec → Run → Exit × Run
  body object spec r = elim (get_ready_condition r.status) [
    | none ↦ (
      returned (record { requeue_after = 0 }) none,
      report Api.unknown (codes "First seen") none r,
    )
    | some _ ↦
        end_check
          (check_health spec
            (record { namespace = secret_namespace object; name = spec.auth_secret_name }))
          r
  ]

  -- The deferred function: every error is reported, then the status is updated.
  abbrev retry_report : Exit → Run → Run
  retry_report (returned _ (some e)) r =
      report Api.is_false (codes "Temporary error. Retrying") (some e) r
  retry_report _ r = r

  abbrev after_update : Option Error → Exit → Exit
  after_update none e = e
  after_update (some u) panicked = panicked
  after_update (some u) (returned _ e) =
      returned (record { requeue_after = 0 }) (some (env.aggregate e u))

  abbrev store : Option Error → Run → Run
  store none r = record r { stored = r.status }
  store (some _) r = r

  unfoldable pub deferred : Exit → Run → Exit × Run
  deferred e r =
      let r' = retry_report e r in
      let u = env.update r'.status in
      (after_update u e, store u (record r' { actions = r'.actions ++ updated r'.status ∷ [] }))

  -- The run on an object that was found.
  unfoldable pub reconcile_object : Object → IssuerSpec → IssuerStatus → Exit × Run
  unfolding deferred
  reconcile_object object spec status =
      let (e, r) = body object spec (record { status = status; stored = status; actions = [] }) in
      deferred e r

  abbrev end_get : Object → Outcome (IssuerSpec × IssuerStatus) → Exit × List Action
  end_get object (ok (spec, status)) =
      let (e, r) = reconcile_object object spec status in (e, r.actions)
  end_get object (err _) = (returned (record { requeue_after = 0 }) none, [])
  end_get object panic = (panicked, [])

  abbrev end_lookup : Lookup Object → Exit × List Action
  end_lookup (found object) = end_get object (get_spec_and_status object)
  end_lookup not_found = (returned (record { requeue_after = 0 }) none, [])
  end_lookup (Lookup.failed e) = (
    returned (record { requeue_after = 0 })
        (some (record { text = codes "unexpected get error: " ++ e.text })),
    [],
  )

  abbrev end_new : Outcome Kind → Exit × List Action
  end_new (ok kind) = end_lookup (env.get_object kind req)
  end_new (err _) = (returned (record { requeue_after = 0 }) none, [])
  end_new panic = (panicked, [])

  -- `Reconcile`
  unfoldable reconcile : Exit × List Action
  unfolding new_issuer
  reconcile = end_new (new_issuer env.scheme_new env.reconciler)
