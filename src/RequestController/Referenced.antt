-- ===== src/RequestController/Referenced.antt =====
-- The issuer that a request refers to, and what a run that turns to the CA has seen of it.
use cert_manager_essendi_xc.Base.{◌⊎◌, inl, inr, true, ◌≡◌, [], arith, Bool-cases}
use cert_manager_essendi_xc.Base.Errors.{ok, Outcome-cases}
use cert_manager_essendi_xc.Api.{Issuer, ClusterIssuer}
use cert_manager_essendi_xc.IssuerUtil.{get_spec_and_status, is_ready}
use cert_manager_essendi_xc.Request.{CertificateRequest, CmUtil, Any}
use cert_manager_essendi_xc.RequestController.{
  is_ignored, deny, initialise, sign, body, open_signer, known_kind, get_object, known_spec,
  require_ready, reconcile_found,
}
use cert_manager_essendi_xc.RequestController.Deferred.{
  start, ended, ended_by, reconcile_ignored, reconcile_kept, deferred-Any,
}
use cert_manager_essendi_xc.RequestController.Frame.{SameReference}
use cert_manager_essendi_xc.RequestController.Safety.{IsContact}
use cert_manager_essendi_xc.RequestController.Steps.{
  client_object, issuer_list, cluster_issuer_list, machinery, Kind, NamespacedName, Reconciler, Env,
  Run, report, go, Flow-cases,
}
use cert_manager_essendi_xc.Signer.{Signer, SecretData}

-- Where an issuer of either kind stands.
pub data Ref : Type 0 where
  issuer : NamespacedName → Ref
  cluster_issuer : NamespacedName → Ref

module _ (cm : CmUtil) (rc : Reconciler) (env : Env) (cr : CertificateRequest) where
  abbrev pub issuer_name : NamespacedName
  issuer_name = record { namespace = cr.namespace; name = cr.spec.issuer_ref.name }

  abbrev pub cluster_issuer_name : NamespacedName
  cluster_issuer_name = record { namespace = []; name = cr.spec.issuer_ref.name }

  -- The run was given the ready issuer that the request refers to.
  abbrev pub SawReady : Type 0
  SawReady =
      ((i : Issuer) × (env.scheme_new cr.spec.issuer_ref.kind ≡ ok (client_object Kind.issuer))
        × (env.get_issuer issuer_name ≡ ok i)
        × (is_ready i.status ≡ true))
      ⊎ ((i : ClusterIssuer) × (env.scheme_new cr.spec.issuer_ref.kind
            ≡ ok (client_object Kind.cluster_issuer))
          × (env.get_cluster_issuer cluster_issuer_name ≡ ok i)
          × (is_ready i.status ≡ true))

  unopened_quiet : ¬ Any IsContact (open_signer cm rc env (start cr)).1.actions
  unfolding open_signer report
  unopened_quiet h = absurd (ground arith)

  body_opened :
      Any IsContact (ended cm rc env cr).actions
      → (s : Signer) × ((open_signer cm rc env (start cr)).0 ≡ go s)
  unfolding body deny initialise report sign
  body_opened h = elim (Flow-cases (open_signer cm rc env (start cr)).0) [
    | inl opened ↦ opened
    | inr (e, q) ↦ absurd (ground (arith, unopened_quiet))
  ]

  opened_ready : (s : Signer) → (open_signer cm rc env (start cr)).0 ≡ go s → SawReady
  unfolding open_signer known_kind get_object known_spec require_ready report get_spec_and_status
  opened_ready s h = elim (Outcome-cases (env.scheme_new cr.spec.issuer_ref.kind)) [
    | inl (client_object kind, k) ↦ of_kind kind k
    | inl (issuer_list, k) ↦ absurd (ground arith)
    | inl (cluster_issuer_list, k) ↦ absurd (ground arith)
    | inl (machinery name, k) ↦ absurd (ground arith)
    | inr other ↦ absurd (ground arith)
  ]
    where
      of_kind :
          (kind : Kind)
          → env.scheme_new cr.spec.issuer_ref.kind ≡ ok (client_object kind)
          → SawReady
      of_kind Kind.issuer k = elim (Outcome-cases (env.get_issuer issuer_name)) [
        | inl (i, g) ↦ inl (i, k, g, ground arith)
        | inr other ↦ absurd (ground arith)
      ]
      of_kind Kind.cluster_issuer k =
          elim (Outcome-cases (env.get_cluster_issuer cluster_issuer_name)) [
            | inl (i, g) ↦ inr (i, k, g, ground arith)
            | inr other ↦ absurd (ground arith)
          ]
      of_kind (Kind.foreign shown) k = absurd (ground arith)

  -- A run that turns to the CA was given the issuer that the request refers to, and it was ready.
  pub contact-SawReady : Any IsContact (reconcile_found cm rc env cr).1.actions → SawReady
  contact-SawReady h = elim (Bool-cases (is_ignored cm rc cr)) [
    | inl ignored ↦ absurd (rw (reconcile_ignored cm rc env cr ignored) at h)
    | inr kept ↦
        let asked =
          deferred-Any cm rc env IsContact (λ k m x. x) (λ c x. x) (ended_by cm rc env cr)
            (ended cm rc env cr) (rw (reconcile_kept cm rc env cr kept) at h) in
        let (s, opened) = body_opened asked in opened_ready s opened
  ]

module _ (cm : CmUtil) (rc : Reconciler) (env : Env) (cr : CertificateRequest) (s : Signer) where
  -- The answers from which a run on the request gets the signer `s` of an Issuer.
  pub record IsResolved (i : Issuer) : Type 0 where
    pub kind : env.scheme_new cr.spec.issuer_ref.kind ≡ ok (client_object Kind.issuer)
    pub given : env.get_issuer (issuer_name cm rc env cr) ≡ ok i
    pub ready_now : is_ready i.status ≡ true
    pub secret : SecretData
    pub read :
        env.get_secret (record { namespace = cr.namespace; name = i.spec.auth_secret_name })
        ≡ ok secret
    pub built : env.signer_builder i.spec rc.auth_realm secret ≡ ok s

  pub resolved_opened :
      (i : Issuer)
      → IsResolved i
      → (r : Run) → SameReference r.request cr
      → open_signer cm rc env r ≡ (go s, r)
  unfolding open_signer get_spec_and_status
  resolved_opened i h r (n, e) = ground (arith, h.kind, h.given, h.ready_now, h.read, h.built, n, e)
