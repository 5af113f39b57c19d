-- ===== src/IssuerController/Tests.antt =====
-- Runs of the issuer controller in a small world.
use cert_manager_essendi_xc.Base.{ℕ, ◌≡◌, ◌≢◌, refl, true, none, some, [], ◌⊎◌}
use cert_manager_essendi_xc.Base.Errors.{ok}
use cert_manager_essendi_xc.Base.Text.{codes}
use cert_manager_essendi_xc.Api
use cert_manager_essendi_xc.Api.{IssuerStatus, IssuerCondition, Issuer, Object}
use cert_manager_essendi_xc.IssuerUtil.{get_ready_condition, is_ready}
use cert_manager_essendi_xc.IssuerController.{new_issuer, Env, reconcile_object, reconcile}
use cert_manager_essendi_xc.IssuerController.Health.{after}
use cert_manager_essendi_xc.IssuerController.Checks.{own}
use cert_manager_essendi_xc.IssuerController.Decides.{IsFirstSeen, IsByCheck, health_decides}
use cert_manager_essendi_xc.IssuerController.Secret.{any_secret_ready}
use cert_manager_essendi_xc.Signer.{SecretData}
use cert_manager_essendi_xc.Signer.Essendi.{
  EssendiSigner, health_checker_from_issuer_and_secret_data, signer_from_issuer_and_secret_data,
}
use cert_manager_essendi_xc.RequestController.Sample.{spec, ready_status}
use cert_manager_essendi_xc.RequestController.Steps.{
  client_object, Kind, NamespacedName, found, not_found, returned,
}

abbrev object_with : IssuerStatus → Object
object_with status = Object.issuer (record {
  metadata = record { name = codes "ca"; namespace = codes "ns" };
  spec = spec;
  status = status;
})

abbrev no_keys : SecretData
no_keys key = none

abbrev env : ℕ → Env
env now = record {
  reconciler = record { kind = codes "Issuer"; cluster_resource_namespace = codes "cert-manager" };
  scheme_new = λ kind. ok (client_object Kind.issuer);
  get_object = λ kind n. found (object_with ready_status);
  get_secret = λ n. ok no_keys;
  health_checker_builder = health_checker_from_issuer_and_secret_data;
  now = now;
  update = λ s. none;
  aggregate = λ e u. u;
}

abbrev req : NamespacedName
req = record { namespace = codes "ns"; name = codes "ca" }

abbrev ready_condition : IssuerCondition
ready_condition = record {
  type = Api.ready;
  status = Api.is_true;
  last_transition_time = some 3;
  reason = codes "IssuerReconciler";
  message = codes "Success";
}

ready_seen : get_ready_condition ready_status ≡ some ready_condition
unfolding get_ready_condition
ready_seen = refl

abbrev place : NamespacedName
place = record { namespace = req.namespace; name = spec.auth_secret_name }

health_decides_example :
    let (e, r) = reconcile_object (env 9) req (object_with ready_status) spec ready_status in
    ((get_ready_condition ready_status ≡ none)
      × IsFirstSeen (env 9) req (object_with ready_status) spec ready_status place e r.stored)
    ⊎ ((get_ready_condition ready_status ≢ none)
        × IsByCheck (env 9) req (object_with ready_status) spec ready_status place e r.stored)
health_decides_example =
    health_decides (env 9) req (object_with ready_status) spec ready_status place (λ s. refl)
      (own _)

any_secret_ready_example :
    (is_ready (after (env 9) req (object_with ready_status) spec ready_status (λ s. refl)) ≡ true)
    × (¬ (
        (o : EssendiSigner) × (signer_from_issuer_and_secret_data spec (codes "xc") no_keys
          ≡ ok o)))
any_secret_ready_example =
    any_secret_ready (env 9) req (object_with ready_status) spec ready_status (λ s. refl)
      ready_condition no_keys (codes "xc") ready_seen refl refl refl

-- For an issuer that is gone there is nothing to do.
missing :
    reconcile (record (env 9) { get_object = λ kind n. not_found }) req
    ≡ (returned (record { requeue_after = 0 }) none, [])
unfolding reconcile new_issuer
missing = refl
