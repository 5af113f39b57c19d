-- ===== src/RequestController/Resolve.antt =====
-- certificaterequest_controller.go: from a request's reference to its issuer, the issuer's secret and
-- the signer.
use cert_manager_essendi_xc.Base.{false, none, some, [], ◌++◌, if◌then◌else◌}
use cert_manager_essendi_xc.Base.Text.{Text, codes}
use cert_manager_essendi_xc.Base.Errors.{Outcome, ok, err, panic}
use cert_manager_essendi_xc.Api.{Object, IssuerSpec, IssuerStatus}
use cert_manager_essendi_xc.IssuerUtil.{get_spec_and_status, is_ready}
use cert_manager_essendi_xc.Request.{
  CertificateRequest, RequestStatus, Condition, Reason, ready, is_true, is_false, pending, denied,
  issued, CmUtil,
}
use cert_manager_essendi_xc.Request
use cert_manager_essendi_xc.Signer.{Signer, SecretData}
use cert_manager_essendi_xc.RequestController.Steps.{
  Kind, RuntimeObject, as_client_object, Reconciler, Env, NamespacedName, Step, pass, crash,
  return_with, or_return, or_panic, ◌>>=◌, ◌>>◌, gets, wrap, report, err_issuer_ref, err_get_issuer,
  err_issuer_not_ready, err_signer_builder, err_get_auth_secret,
}

module _ (cm : CmUtil) (rc : Reconciler) (env : Env) where
  -- A report of a failure that is not retried.
  abbrev pub give_up : {A : Type 0} → Text → Text → Step A
  give_up message e = do
    report cm Request.failed message false (some (record { text = e }))
    return_with 0 none

  unfoldable pub known_kind : Outcome RuntimeObject → Step Kind
  known_kind (ok made) = or_panic (as_client_object made)
  known_kind (err e) =
      give_up (codes "Unrecognised kind. Ignoring") (wrap err_issuer_ref (codes "false"))
  known_kind panic = crash

  -- The object of `Get`, and the namespace of the issuer's secret.
  unfoldable pub get_object : Kind → CertificateRequest → Step (Object × Text)
  get_object Kind.issuer cr = do
    i ←
        or_return (wrap err_get_issuer)
          (env.get_issuer (record { namespace = cr.namespace; name = cr.spec.issuer_ref.name }))
    pass (Object.issuer i, cr.namespace)
  get_object Kind.cluster_issuer cr = do
    i ←
        or_return (wrap err_get_issuer)
          (env.get_cluster_issuer (record { namespace = []; name = cr.spec.issuer_ref.name }))
    pass (Object.cluster_issuer i, rc.cluster_resource_namespace)
  get_object (Kind.foreign shown) cr =
      give_up
        (codes "The issuerRef referred to a registered Kind which is not yet handled. Ignoring")
        (codes "unexpected issuer type: " ++ shown)

  unfoldable pub known_spec : Outcome (IssuerSpec × IssuerStatus) → Step (IssuerSpec × IssuerStatus)
  known_spec (ok x) = pass x
  known_spec (err e) = give_up (codes "Unable to get the IssuerStatus. Ignoring") e.text
  known_spec panic = crash

  unfoldable pub require_ready : IssuerStatus → Step (Unit {0})
  require_ready status =
      if is_ready status
      then pass tt
      else return_with 0 (some (record { text = err_issuer_not_ready }))

  -- `"%w, secret name: %s, reason: %v"`
  abbrev pub secret_error : NamespacedName → Text → Text
  secret_error n reason =
      err_get_auth_secret
      ++ (codes ", secret name: "
          ++ (n.namespace ++ (codes "/" ++ (n.name ++ (codes ", reason: " ++ reason)))))

  abbrev pub get_secret : NamespacedName → Step SecretData
  get_secret n = or_return (secret_error n) (env.get_secret n)

  -- From the issuer to the signer that its spec and secret make.
  unfoldable pub open_signer : Step Signer
  unfolding known_kind get_object known_spec require_ready
  open_signer = do
    cr ← gets (λ cr. cr)
    kind ← known_kind (env.scheme_new cr.spec.issuer_ref.kind)
    (object, secret_namespace) ← get_object kind cr
    (spec, status) ← known_spec (get_spec_and_status object)
    require_ready status
    secret ← get_secret (record { namespace = secret_namespace; name = spec.auth_secret_name })
    or_return (wrap err_signer_builder) (env.signer_builder spec rc.auth_realm secret)
