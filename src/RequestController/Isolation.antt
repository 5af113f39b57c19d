-- ===== src/RequestController/Isolation.antt =====
-- Which secrets a run can depend on.
use cert_manager_essendi_xc.Base.{◌≡◌, arith, none, ap, if◌then◌else◌}
use cert_manager_essendi_xc.Base.Errors.{Outcome, ok}
use cert_manager_essendi_xc.Base.Text.{Text}
use cert_manager_essendi_xc.IssuerUtil.{get_spec_and_status}
use cert_manager_essendi_xc.Request.{CertificateRequest, CmUtil}
use cert_manager_essendi_xc.Signer.{SecretData}
use cert_manager_essendi_xc.RequestController.{
  is_ignored, body, deny, initialise, sign, open_signer, route, submit, poll, await, fetch,
  deferred, reconcile_found, exit_of,
}
use cert_manager_essendi_xc.RequestController.Deferred.{start, empty}
use cert_manager_essendi_xc.RequestController.Steps.{
  client_object, NamespacedName, Kind, Reconciler, Env, Run, Flow, report, returned,
}

module _ (cm : CmUtil) (rc : Reconciler) (env : Env) (secrets : NamespacedName → Outcome SecretData)
    (cr : CertificateRequest) where
  -- The same world with other secrets.
  abbrev pub with_secrets : Env
  with_secrets = record env { get_secret = secrets }

  -- The secrets of a namespace are the same.
  abbrev pub AgreeIn : Text → Type 0
  AgreeIn namespace =
      (name : Text)
      → secrets (record { namespace = namespace; name = name })
        ≡ env.get_secret (record { namespace = namespace; name = name })

  open_signer_issuer :
      env.scheme_new cr.spec.issuer_ref.kind ≡ ok (client_object Kind.issuer)
      → AgreeIn cr.namespace
      → open_signer cm rc with_secrets (start cr) ≡ open_signer cm rc env (start cr)
  unfolding open_signer report get_spec_and_status
  open_signer_issuer k h = grind (arith, h)

  open_signer_cluster_issuer :
      env.scheme_new cr.spec.issuer_ref.kind ≡ ok (client_object Kind.cluster_issuer)
      → AgreeIn rc.cluster_resource_namespace
      → open_signer cm rc with_secrets (start cr) ≡ open_signer cm rc env (start cr)
  unfolding open_signer report get_spec_and_status
  open_signer_cluster_issuer k h = grind (arith, h)

  open_signer_foreign :
      (shown : Text)
      → env.scheme_new cr.spec.issuer_ref.kind ≡ ok (client_object (Kind.foreign shown))
      → open_signer cm rc with_secrets (start cr) ≡ open_signer cm rc env (start cr)
  unfolding open_signer report
  open_signer_foreign shown k = ground (arith, k)

  body_same :
      open_signer cm rc with_secrets (start cr) ≡ open_signer cm rc env (start cr)
      → body cm rc with_secrets (start cr) ≡ body cm rc env (start cr)
  unfolding body deny initialise sign route submit poll await fetch
  body_same h = ground (arith, h)

  reconcile_same :
      body cm rc with_secrets (start cr) ≡ body cm rc env (start cr)
      → reconcile_found cm rc with_secrets cr ≡ reconcile_found cm rc env cr
  unfolding reconcile_found deferred
  reconcile_same h =
      ap
        (λ (x : Flow ⊥ × Run).
          if is_ignored cm rc cr
          then (returned empty none, start cr)
          else deferred cm rc env (exit_of cm rc env x.0) x.1)
        h

  -- The secrets that a run can use: those of the request's own namespace for an Issuer, and those of
  -- the cluster resource namespace for a ClusterIssuer.
  abbrev pub AgreeOn : Kind → Type 0
  AgreeOn Kind.issuer = AgreeIn cr.namespace
  AgreeOn Kind.cluster_issuer = AgreeIn rc.cluster_resource_namespace
  AgreeOn (Kind.foreign _) = Unit

  -- A run that refers to an Issuer depends on no secret of another namespace than the request's, and
  -- one that refers to a ClusterIssuer on no secret outside of the cluster resource namespace: with
  -- other secrets elsewhere, exit, actions and stored object are the same.
  pub secrets_isolated :
      (kind : Kind)
      → env.scheme_new cr.spec.issuer_ref.kind ≡ ok (client_object kind)
      → AgreeOn kind
      → reconcile_found cm rc with_secrets cr ≡ reconcile_found cm rc env cr
  secrets_isolated Kind.issuer k h = reconcile_same (body_same (open_signer_issuer k h))
  secrets_isolated Kind.cluster_issuer k h =
      reconcile_same (body_same (open_signer_cluster_issuer k h))
  secrets_isolated (Kind.foreign shown) k h =
      reconcile_same (body_same (open_signer_foreign shown k))
