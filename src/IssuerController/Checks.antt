-- ===== src/IssuerController/Checks.antt =====
-- What the health check of an issuer comes to, in terms of the secret that the API server gives, of
-- the health checker that is built from it, and of its answer.
use cert_manager_essendi_xc.Base.{Option, none, some, ◌++◌, ◌≡◌, ◌⊎◌, inl, inr, refl}
use cert_manager_essendi_xc.Base.Text.{codes}
use cert_manager_essendi_xc.Base.Errors.{Error, Outcome, ok, err, panic}
use cert_manager_essendi_xc.Api.{Issuer, ClusterIssuer, IssuerSpec, Object}
use cert_manager_essendi_xc.Signer.{HealthChecker, SecretData}
use cert_manager_essendi_xc.IssuerController.{Env, check_health, secret_namespace}
use cert_manager_essendi_xc.RequestController.Steps.{NamespacedName}

-- The secret of an Issuer is in the namespace of its own, that of a ClusterIssuer in the namespace
-- that the controller is configured with.
pub data IsSecretOf (env : Env) (req : NamespacedName) (spec : IssuerSpec)
    : Object → NamespacedName → Type 0 where
  own :
      (i : Issuer)
      → IsSecretOf env req spec
          (Object.issuer i)
          (record { namespace = req.namespace; name = spec.auth_secret_name })
  shared :
      (i : ClusterIssuer)
      → IsSecretOf env req spec (Object.cluster_issuer i) (record {
        namespace = env.reconciler.cluster_resource_namespace;
        name = spec.auth_secret_name;
      })

pub IsSecretOf-name :
    (env : Env) (req : NamespacedName) (spec : IssuerSpec) (object : Object) (name : NamespacedName)
    → IsSecretOf env req spec object name
    → name ≡ record { namespace = secret_namespace env req object; name = spec.auth_secret_name }
IsSecretOf-name env req spec object name (own i) = refl
IsSecretOf-name env req spec object name (shared i) = refl

module _ (env : Env) (spec : IssuerSpec) (name : NamespacedName) where
  -- The secret is read, a health checker is built from it, and the checker finds no error.
  pub record IsPassed : Type 0 where
    pub secret : SecretData
    pub checker : HealthChecker
    pub read : env.get_secret name ≡ ok secret
    pub built : env.health_checker_builder spec secret ≡ ok checker
    pub passed : checker.check ≡ none

  -- One of the three ends in an error, which the controller's error tells.
  pub data FailsWith : Error → Type 0 where
    unread :
        (e : Error)
        → env.get_secret name ≡ err e
        → FailsWith (record {
          text =
              codes "failed to get Secret containing Issuer credentials, secret name: "
              ++ (name.namespace ++ (codes "/" ++ (name.name ++ (codes ", reason: " ++ e.text))));
        })
    unbuilt :
        (secret : SecretData) (e : Error)
        → env.get_secret name ≡ ok secret
        → env.health_checker_builder spec secret ≡ err e
        → FailsWith (record { text = codes "failed to build the healthchecker: " ++ e.text })
    unhealthy :
        (secret : SecretData) (checker : HealthChecker) (e : Error)
        → env.get_secret name ≡ ok secret
        → env.health_checker_builder spec secret ≡ ok checker
        → checker.check ≡ some e
        → FailsWith (record { text = codes "healthcheck failed: " ++ e.text })

  -- The lookup of the secret or the builder of the health checker panics.
  pub data Crashes : Type 0 where
    lookup_panics : env.get_secret name ≡ panic → Crashes
    builder_panics :
        (secret : SecretData)
        → env.get_secret name ≡ ok secret
        → env.health_checker_builder spec secret ≡ panic
        → Crashes

module _ (env : Env) (req : NamespacedName) (spec : IssuerSpec) (name : NamespacedName) where
  pub check_health-IsPassed : IsPassed env spec name → check_health env req spec name ≡ ok tt
  unfolding check_health
  check_health-IsPassed p = rw (p.read, p.built, p.passed) refl

  abbrev Decided : Type 0
  Decided =
      (IsPassed env spec name × (check_health env req spec name ≡ ok tt))
      ⊎ (((x : Error) × FailsWith env spec name x × (check_health env req spec name ≡ err x))
          ⊎ (Crashes env spec name × (check_health env req spec name ≡ panic)))

  checker_decides :
      (secret : SecretData) (checker : HealthChecker) (answer : Option Error)
      → env.get_secret name ≡ ok secret
      → env.health_checker_builder spec secret ≡ ok checker
      → checker.check ≡ answer
      → Decided
  unfolding check_health codes
  checker_decides secret checker none read built k =
      let p : IsPassed env spec name = record {
        secret = secret;
        checker = checker;
        read = read;
        built = built;
        passed = k;
      } in
      inl (p, check_health-IsPassed p)
  checker_decides secret checker (some e) read built k =
      inr (inl (_, unhealthy secret checker e read built k, rw (read, built, k) refl))

  builder_decides :
      (secret : SecretData) (o : Outcome HealthChecker)
      → env.get_secret name ≡ ok secret
      → env.health_checker_builder spec secret ≡ o
      → Decided
  unfolding check_health codes
  builder_decides secret (ok checker) read built =
      checker_decides secret checker checker.check read built refl
  builder_decides secret (err e) read built =
      inr (inl (_, unbuilt secret e read built, rw (read, built) refl))
  builder_decides secret panic read built =
      inr (inr (builder_panics secret read built, rw (read, built) refl))

  lookup_decides : (o : Outcome SecretData) → env.get_secret name ≡ o → Decided
  unfolding check_health codes
  lookup_decides (ok secret) read = builder_decides secret _ read refl
  lookup_decides (err e) read = inr (inl (_, unread e read, rw read refl))
  lookup_decides panic read = inr (inr (lookup_panics read, rw read refl))

  pub check_health_decided : Decided
  check_health_decided = lookup_decides (env.get_secret name) refl
