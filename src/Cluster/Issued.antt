-- ===== src/Cluster/Issued.antt =====
-- Both controllers together: from a new issuer and a new request to the certificate.
use cert_manager_essendi_xc.Base.{false, true, none, some, ◌≡◌, refl, sym, ap, ◌∙◌, subst, Option}
use cert_manager_essendi_xc.Base.Errors.{ok}
use cert_manager_essendi_xc.Base.Text.{Text, is_empty, trim_space}
use cert_manager_essendi_xc.Base.Text.Laws.{text_eq_refl}
use cert_manager_essendi_xc.Api.{Issuer, IssuerSpec, IssuerStatus}
use cert_manager_essendi_xc.Cluster.{
  IssuerObject, Cluster, object_of, name_eq, check_issuer, Answers,
}
use cert_manager_essendi_xc.IssuerController
use cert_manager_essendi_xc.IssuerController.{reconcile_object, body}
use cert_manager_essendi_xc.IssuerController.Checks.{IsPassed}
use cert_manager_essendi_xc.IssuerController.Health.{after_run, new_issuer_ready}
use cert_manager_essendi_xc.IssuerUtil.{get_ready_condition, is_ready, is_signed, is_submitted}
use cert_manager_essendi_xc.Request.{
  RequestSpec, CertificateRequest, CmUtil, Any, HasReason, ready, is_true, issued,
}
use cert_manager_essendi_xc.RequestController.{is_ignored}
use cert_manager_essendi_xc.RequestController.Deferred.{after}
use cert_manager_essendi_xc.RequestController.Frame.{after-SameReference}
use cert_manager_essendi_xc.RequestController.Journey.{journey, first_run}
use cert_manager_essendi_xc.RequestController.Referenced.{issuer, resolved_opened}
use cert_manager_essendi_xc.RequestController.Routes.{still-IsHealthy}
use cert_manager_essendi_xc.RequestController.Routes
use cert_manager_essendi_xc.RequestController.Steps.{
  client_object, Kind, NamespacedName, Reconciler, Env,
}
use cert_manager_essendi_xc.Signer.{Signer, SecretData}

name_eq_refl : (n : NamespacedName) → name_eq n n ≡ true
name_eq_refl n = rw (text_eq_refl n.namespace, text_eq_refl n.name) refl

-- The Issuer that the request refers to.
abbrev pub issuer_ref_of : CertificateRequest → NamespacedName
issuer_ref_of cr = record { namespace = cr.namespace; name = cr.spec.issuer_ref.name }

-- A run of the request controller in the store `c` is given the issuer, the issuer's secret and the
-- signer `s`, and its update succeeds.
pub record IsServing (rc : Reconciler) (s : Signer) (cr : CertificateRequest) (c : Cluster)
    (env : Env) : Type 0 where
  pub answers : Answers c env
  pub found : Issuer
  pub given : env.get_issuer (issuer_ref_of cr) ≡ ok found
  pub kind : env.scheme_new cr.spec.issuer_ref.kind ≡ ok (client_object Kind.issuer)
  pub secret : SecretData
  pub read :
      env.get_secret (record { namespace = cr.namespace; name = found.spec.auth_secret_name })
      ≡ ok secret
  pub built : env.signer_builder found.spec rc.auth_realm secret ≡ ok s
  pub stores : (x : CertificateRequest) → env.update x ≡ none

some_status : (o p : IssuerObject) → some o ≡ some p → p.status ≡ o.status
some_status o p h =
    sym (ap (λ (x : Option IssuerObject). elim x [ none ↦ o.status | some y ↦ y.status ]) h)

serving-IsHealthy :
    (cm : CmUtil) (rc : Reconciler) (s : Signer) (t : Text) (cr : CertificateRequest) (c : Cluster)
    (env : Env) (o : IssuerObject)
    → c.issuers (issuer (issuer_ref_of cr)) ≡ some o
    → is_ready o.status ≡ true
    → s.get_refresh_token ≡ ok t
    → IsServing rc s cr c env
    → Routes.IsHealthy cm rc s t env cr
serving-IsHealthy cm rc s t cr c env o there up token h = record {
  opened = resolved_opened cm rc env cr s h.found (record {
    kind = h.kind;
    given = h.given;
    ready_now =
        ap is_ready (some_status o _ (sym there ∙ h.answers.issuers _ h.found h.given)) ∙ up;
    secret = h.secret;
    read = h.read;
    built = h.built;
  });
  token = token;
  stores = h.stores;
}

-- The request passes the early returns, is not denied, has no Ready condition, and counts neither as
-- submitted nor as signed.
pub record IsNew (cm : CmUtil) (rc : Reconciler) (cr : CertificateRequest) : Type 0 where
  pub live : is_ignored cm rc cr ≡ false
  pub free : cm.is_denied cr.status.conditions ≡ false
  pub unseen : cm.get_condition cr.status.conditions ready ≡ none
  pub unsigned : is_signed cr.status.conditions ≡ false
  pub unsubmitted : is_submitted cr.status.conditions ≡ false

-- The signer gets a token, submits the request, is told where the certificate is, and fetches it.
pub record Gives (s : Signer) (t request url resource task certificate : Text) : Type 0 where
  pub token : s.get_refresh_token ≡ ok t
  pub sent : s.submit_certificate_request t request ≡ ok url
  pub told : s.request_task_status t url ≡ ok (resource, task)
  pub given : s.fetch_certificate t resource ≡ ok certificate
  pub url_trimmed : trim_space url ≡ url
  pub resource_trimmed : trim_space resource ≡ resource
  pub resource_full : is_empty resource ≡ false

module _ (cm : CmUtil) (rc : Reconciler) (cr : CertificateRequest) (s : Signer)
    (t url resource task certificate : Text) where
  request_runs :
      (c : Cluster) (o : IssuerObject) (e0 e1 e2 e3 : Env)
      → c.issuers (issuer (issuer_ref_of cr)) ≡ some o
      → is_ready o.status ≡ true
      → IsNew cm rc cr
      → Gives s t cr.spec.request url resource task certificate
      → IsServing rc s cr c e0
      → IsServing rc s cr c e1
      → IsServing rc s cr c e2
      → IsServing rc s cr c e3
      → let last = after cm rc e3 (after cm rc e2 (after cm rc e1 (after cm rc e0 cr))) in
        (last.status.certificate ≡ certificate)
        × Any (HasReason ready is_true issued) last.status.conditions
  request_runs c o e0 e1 e2 e3 there up new g v0 v1 v2 v3 =
      let cr1 = after cm rc e0 cr in
      let same = after-SameReference cm rc e0 cr in
      let healthy = λ (e : Env) (v : IsServing rc s cr c e).
        still-IsHealthy cm rc s t e cr1 cr same
          (serving-IsHealthy cm rc s t cr c e o there up g.token v) in
      let (_, opened, unsigned, unsubmitted) =
        first_run cm rc e0 cr v0.stores new.live new.free new.unseen new.unsigned new.unsubmitted in
      journey cm rc s t e1 e2 e3 cr1 url resource task certificate (healthy e1 v1) (healthy e2 v2)
        (healthy e3 v3) opened unsigned unsubmitted g.url_trimmed g.resource_trimmed g.resource_full
        (subst (λ (x : Text). s.submit_certificate_request t x ≡ ok url)
          (sym (ap (λ (x : RequestSpec). x.request) same.1)) g.sent)
        g.told g.given

-- A run on an Issuer looks at nothing of the object but its name, its spec and its status.
same_run :
    (env : IssuerController.Env) (n : NamespacedName) (o p : IssuerObject) (spec : IssuerSpec)
    (status : IssuerStatus)
    → after_run env n (object_of (issuer n) o) spec status
      ≡ after_run env n (object_of (issuer n) p) spec status
unfolding reconcile_object body
same_run env n o p spec status = refl

-- The object and the store behind a run of the issuer controller.
abbrev pub checked_object : NamespacedName → IssuerObject → IssuerController.Env → IssuerObject
checked_object n o env = record o {
  status = after_run env n (object_of (issuer n) o) o.spec o.status;
}

checked_there :
    (n : NamespacedName) (o : IssuerObject) (env : IssuerController.Env) (c : Cluster)
    → (check_issuer (issuer n) o env c).issuers (issuer n) ≡ some (checked_object n o env)
checked_there n o env c = rw (name_eq_refl n) refl

-- The store behind two runs of the issuer controller.
abbrev pub checked_twice :
    NamespacedName → IssuerObject → IssuerController.Env → IssuerController.Env → Cluster → Cluster
checked_twice n o h1 h2 c =
    check_issuer (issuer n) (checked_object n o h1) h2 (check_issuer (issuer n) o h1 c)

module _ (cm : CmUtil) (rc : Reconciler) (cr : CertificateRequest) (s : Signer)
    (t url resource task certificate : Text) where
  -- A store has the Issuer, without a Ready condition, that a new request refers to. The issuer
  -- controller runs on it with `h1`, which takes the update, and again with `h2`, where the secret is
  -- read, the health checker is built and passes, and the update is taken. Then the issuer that the
  -- store has is ready. Where the request controller runs on the request four times, with `e0` to `e3`,
  -- each of which is given the issuer as that store has it and a signer that serves the request, the
  -- request then has the signer's certificate and is Ready as Issued.
  pub new_request_issued :
      (c : Cluster) (o : IssuerObject) (h1 h2 : IssuerController.Env) (e0 e1 e2 e3 : Env)
      → c.issuers (issuer (issuer_ref_of cr)) ≡ some o
      → get_ready_condition o.status ≡ none
      → ((x : IssuerStatus) → h1.update x ≡ none)
      → IsPassed h2 o.spec (record { namespace = cr.namespace; name = o.spec.auth_secret_name })
      → ((x : IssuerStatus) → h2.update x ≡ none)
      → IsNew cm rc cr
      → Gives s t cr.spec.request url resource task certificate
      → IsServing rc s cr (checked_twice (issuer_ref_of cr) o h1 h2 c) e0
      → IsServing rc s cr (checked_twice (issuer_ref_of cr) o h1 h2 c) e1
      → IsServing rc s cr (checked_twice (issuer_ref_of cr) o h1 h2 c) e2
      → IsServing rc s cr (checked_twice (issuer_ref_of cr) o h1 h2 c) e3
      → let there = (checked_twice (issuer_ref_of cr) o h1 h2 c).issuers in
        let last = after cm rc e3 (after cm rc e2 (after cm rc e1 (after cm rc e0 cr))) in
        ((o2 : IssuerObject) × (there (issuer (issuer_ref_of cr)) ≡ some o2)
          × (is_ready o2.status ≡ true))
        × (last.status.certificate ≡ certificate)
        × Any (HasReason ready is_true issued) last.status.conditions
  new_request_issued c o h1 h2 e0 e1 e2 e3 there unseen stores passed stores2 new g v0 v1 v2 v3 =
      let name = issuer_ref_of cr in
      let o1 = checked_object name o h1 in
      let o2 = checked_object name o1 h2 in
      let c1 = check_issuer (issuer name) o h1 c in
      let c2 = check_issuer (issuer name) o1 h2 c1 in
      let second = checked_there name o1 h2 c1 in
      let up =
        ap is_ready (same_run h2 name o1 o o.spec o1.status)
        ∙ (new_issuer_ready h1 h2 h2 name (object_of (issuer name) o) o.spec o.status unseen stores
            (passed, stores2) (passed, stores2)).0 in
      let (done_with, ready_now) =
        request_runs cm rc cr s t url resource task certificate c2 o2 e0 e1 e2 e3 second up new g v0
          v1 v2 v3 in
      ((o2, second, up), done_with, ready_now)
