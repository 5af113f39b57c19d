-- ===== src/IssuerController/Verdict.antt =====
-- What a run on an issuer establishes about its health, and what the stored status says of it.
use cert_manager_essendi_xc.Base.{Bool, true, false, ◌≡◌, Option, none, some, [], arith}
use cert_manager_essendi_xc.Base.Errors.{Error, Outcome, ok, err}
use cert_manager_essendi_xc.Api
use cert_manager_essendi_xc.Api.{IssuerSpec, IssuerStatus, Object}
use cert_manager_essendi_xc.IssuerUtil.{get_ready_condition, is_ready}
use cert_manager_essendi_xc.IssuerUtil.Ready.{is_ready-set_ready_condition}
use cert_manager_essendi_xc.IssuerController.{
  Env, Run, report, secret_namespace, check_health, body, deferred, retry_report, reconcile_object,
}
use cert_manager_essendi_xc.RequestController.Steps.{NamespacedName}

module _ (env : Env) (req : NamespacedName) (object : Object) (spec : IssuerSpec)
    (status : IssuerStatus) where
  abbrev checked : Outcome (Unit {0})
  checked =
      check_health env req spec
        (record { namespace = secret_namespace env req object; name = spec.auth_secret_name })

  abbrev at_start : Run
  at_start = record { status = status; stored = status; actions = [] }

  -- The answer to the run's update.
  abbrev answer : Option Error
  answer =
      let (e, r) = body env req object spec at_start in env.update (retry_report env req e r).status

  -- The outcome of a health check is known once the update that tells it has succeeded.
  abbrev told : Outcome (Unit {0}) → Option Error → Option Bool → Option Bool
  told (ok _) none old = some true
  told (err _) none old = some false
  told _ _ old = old

  abbrev judged : Option Api.IssuerCondition → Option Bool → Option Bool
  judged none old = old
  judged (some _) old = told checked answer old

  -- The last stored outcome of a health check, after a run behind which it was `old`: an issuer that
  -- is first seen is not checked.
  abbrev pub verdict : Option Bool → Option Bool
  verdict old = judged (get_ready_condition status) old

  -- Where the status that a run finds says no more than the last verdict, so does the one it leaves.
  pub stored-is_ready :
      (old : Option Bool)
      → (is_ready status ≡ true → old ≡ some true)
      → is_ready (reconcile_object env req object spec status).1.stored ≡ true
      → verdict old ≡ some true
  unfolding reconcile_object body deferred report
  stored-is_ready old before now = grind (arith, is_ready-set_ready_condition)
