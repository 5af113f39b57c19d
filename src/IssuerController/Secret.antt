-- ===== src/IssuerController/Secret.antt =====
-- What a ready issuer says of its secret.
use cert_manager_essendi_xc.Base.{◌≡◌, refl, none, some, true, true}
use cert_manager_essendi_xc.Base.Text.{Text, codes}
use cert_manager_essendi_xc.Base.Errors.{ok}
use cert_manager_essendi_xc.Api.{IssuerSpec, IssuerStatus, IssuerCondition, Object}
use cert_manager_essendi_xc.IssuerUtil.{get_ready_condition, is_ready}
use cert_manager_essendi_xc.Signer.{SecretData}
use cert_manager_essendi_xc.Signer.Essendi.{
  EssendiSigner, health_checker_from_issuer_and_secret_data, signer_from_issuer_and_secret_data,
}
use cert_manager_essendi_xc.Signer.Keys.{signer_keys}
use cert_manager_essendi_xc.IssuerController.{Env, check_health, secret_namespace}
use cert_manager_essendi_xc.IssuerController.Health.{health, health_by, after}
use cert_manager_essendi_xc.RequestController.Steps.{NamespacedName}

healthy_secret :
    (env : Env) (req : NamespacedName) (object : Object) (spec : IssuerSpec) (secret : SecretData)
    → env.health_checker_builder ≡ health_checker_from_issuer_and_secret_data
    → env.get_secret
        (record { namespace = secret_namespace env req object; name = spec.auth_secret_name })
      ≡ ok secret
    → check_health env req spec
        (record { namespace = secret_namespace env req object; name = spec.auth_secret_name })
      ≡ ok tt
unfolding check_health health_checker_from_issuer_and_secret_data
healthy_secret env req object spec secret own read = rw (own, read, check_health) refl

-- With the program's own health checker, a run on an issuer that has a Ready condition and a secret
-- that can be read makes the issuer ready, although no signer can be built from that secret, whose key
-- `token` is missing.
pub any_secret_ready :
    (env : Env) (req : NamespacedName) (object : Object) (spec : IssuerSpec) (status : IssuerStatus)
    (updates : (s : IssuerStatus) → env.update s ≡ none) (c : IssuerCondition) (secret : SecretData)
    (realm : Text)
    → get_ready_condition status ≡ some c
    → env.health_checker_builder ≡ health_checker_from_issuer_and_secret_data
    → env.get_secret
        (record { namespace = secret_namespace env req object; name = spec.auth_secret_name })
      ≡ ok secret
    → secret (codes "token") ≡ none
    → (is_ready (after env req object spec status updates) ≡ true)
      × (¬ ((o : EssendiSigner) × (signer_from_issuer_and_secret_data spec realm secret ≡ ok o)))
any_secret_ready env req object spec status updates c secret realm seen own read missing =
    let healthy : health env req object spec status updates ≡ ok tt =
      healthy_secret env req object spec secret own read in
    (
      ((health_by env req object spec status updates c seen).0 healthy).1,
      λ (o, built). cc (missing, ((signer_keys spec realm secret o).0 built).token),
    )
