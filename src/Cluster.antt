-- ===== src/Cluster.antt =====
-- The two controllers at work on one API server, with the users and approvers that write there too:
-- runs of internal/controllers/issuer_controller.go and certificaterequest_controller.go in any order.
pub mod Store
pub mod Kept
pub mod Checked
pub mod Once
pub mod Issued
pub mod Concurrent
mod Tests
use cert_manager_essendi_xc.Base.{
  Bool, false, true, ◌&&◌, Option, none, some, ◌≡◌, ◌≢◌, if◌then◌else◌, ◌⊎◌,
}
use cert_manager_essendi_xc.Base.Text.{text_eq}
use cert_manager_essendi_xc.Base.Errors.{ok}
use cert_manager_essendi_xc.Api.{Object, Issuer, ClusterIssuer, IssuerSpec, IssuerStatus}
use cert_manager_essendi_xc.IssuerController
use cert_manager_essendi_xc.IssuerController.{reconcile_object}
use cert_manager_essendi_xc.IssuerController.Verdict.{verdict}
use cert_manager_essendi_xc.IssuerUtil.{is_ready}
use cert_manager_essendi_xc.Request.{CertificateRequest, Condition, CmUtil}
use cert_manager_essendi_xc.RequestController.Deferred.{after, ended_by, is_refused}
use cert_manager_essendi_xc.RequestController.Lifecycle.{IsForeign}
use cert_manager_essendi_xc.RequestController.Referenced.{Ref, issuer, cluster_issuer}
use cert_manager_essendi_xc.RequestController.Steps.{NamespacedName, Reconciler, Env, put}

-- An Issuer or ClusterIssuer as the API server has it, at its reference.
pub record IssuerObject : Type 0 where
  pub spec : IssuerSpec
  pub status : IssuerStatus

abbrev pub name_of : Ref → NamespacedName
name_of (issuer n) = n
name_of (cluster_issuer n) = n

abbrev pub object_of : Ref → IssuerObject → Object
object_of (issuer n) o = Object.issuer (record {
  metadata = record { name = n.name; namespace = n.namespace };
  spec = o.spec;
  status = o.status;
})
object_of (cluster_issuer n) o = Object.cluster_issuer (record {
  metadata = record { name = n.name; namespace = n.namespace };
  spec = o.spec;
  status = o.status;
})

-- The API server's objects. `verdicts` is history: the last outcome of an issuer's health check that
-- a run has stored.
pub record Cluster : Type 0 where
  pub issuers : Ref → Option IssuerObject
  pub requests : NamespacedName → Option CertificateRequest
  pub verdicts : Ref → Option Bool

abbrev pub name_eq : NamespacedName → NamespacedName → Bool
name_eq m n = text_eq m.namespace n.namespace && text_eq m.name n.name

abbrev pub ref_eq : Ref → Ref → Bool
ref_eq (issuer m) (issuer n) = name_eq m n
ref_eq (cluster_issuer m) (cluster_issuer n) = name_eq m n
ref_eq _ _ = false

abbrev pub put_issuer : Ref → Option IssuerObject → Cluster → Cluster
put_issuer r o c = record c { issuers = λ q. if ref_eq q r then o else c.issuers q }

abbrev pub put_request : NamespacedName → CertificateRequest → Cluster → Cluster
put_request n cr c = record c { requests = λ m. if name_eq m n then some cr else c.requests m }

abbrev pub drop_request : NamespacedName → Cluster → Cluster
drop_request n c = record c { requests = λ m. if name_eq m n then none else c.requests m }

-- A run of the issuer controller on the object at `r`.
abbrev pub check_issuer : Ref → IssuerObject → IssuerController.Env → Cluster → Cluster
check_issuer r o env c =
    let object = object_of r o in
    let (_, run) = reconcile_object env (name_of r) object o.spec o.status in
    let new = verdict env (name_of r) object o.spec o.status (c.verdicts r) in
    record (put_issuer r (some (record o { status = run.stored })) c) {
      verdicts = λ q. if ref_eq q r then new else c.verdicts q;
    }

-- The issuers that a run of the request controller is given are those of the store.
pub record Answers (c : Cluster) (env : Env) : Type 0 where
  pub issuers :
      (n : NamespacedName) (i : Issuer)
      → env.get_issuer n ≡ ok i
      → c.issuers (issuer n) ≡ some (record { spec = i.spec; status = i.status })
  pub cluster_issuers :
      (n : NamespacedName) (i : ClusterIssuer)
      → env.get_cluster_issuer n ≡ ok i
      → c.issuers (cluster_issuer n) ≡ some (record { spec = i.spec; status = i.status })

-- What a user may make of an issuer: remove it, or write one that is not ready or has the status of
-- the old one.
abbrev pub IsUserEdit : Option IssuerObject → Option IssuerObject → Type 0
IsUserEdit old none = Unit
IsUserEdit old (some o) =
    (is_ready o.status ≡ false) ⊎ ((p : IssuerObject) × (old ≡ some p) × (p.status ≡ o.status))

module _ (cm : CmUtil) (rc : Reconciler) where
  -- One step of the system: a run of a controller on what the store has, or another writer's. A run of
  -- the request controller may be given any issuer. Other writers create and remove requests, and set
  -- conditions that are not the controller's.
  pub data Step : Cluster → Cluster → Type 0 where
    issuer_run :
        {c : Cluster} (r : Ref) (o : IssuerObject) (env : IssuerController.Env)
        → c.issuers r ≡ some o
        → Step c (check_issuer r o env c)
    request_run :
        {c : Cluster} (n : NamespacedName) (cr : CertificateRequest) (env : Env)
        → c.requests n ≡ some cr
        → Step c (put_request n (after cm rc env cr) c)
    issuer_written :
        {c : Cluster} (r : Ref) (o : Option IssuerObject)
        → IsUserEdit (c.issuers r) o
        → Step c (put_issuer r o c)
    request_created :
        {c : Cluster} (n : NamespacedName) (cr : CertificateRequest)
        → c.requests n ≡ none
        → Step c (put_request n cr c)
    condition_written :
        {c : Cluster} (n : NamespacedName) (cr : CertificateRequest) (d : Condition)
        → c.requests n ≡ some cr
        → IsForeign d
        → Step c (put_request n (put cm d cr) c)
    request_removed : {c : Cluster} (n : NamespacedName) → Step c (drop_request n c)

  pub data Steps : Cluster → Cluster → Type 0 where
    done : {c : Cluster} → Steps c c
    next : {c d e : Cluster} → Step c d → Steps d e → Steps c e

  -- Every run on the request at `n` is fine, and the request is not removed.
  abbrev pub IsCalm :
      (Env → CertificateRequest → Type 0) → NamespacedName → {c d : Cluster} → Step c d → Type 0
  IsCalm Fine n (request_run m cr env found) = m ≡ n → Fine env cr
  IsCalm Fine n (request_removed m) = m ≢ n
  IsCalm Fine n _ = Unit

  abbrev pub AreCalm :
      (Env → CertificateRequest → Type 0) → NamespacedName → {c d : Cluster} → Steps c d → Type 0
  AreCalm Fine n done = Unit
  AreCalm Fine n (next s rest) = IsCalm Fine n s × AreCalm Fine n rest

  -- The run does not end in an error that speaks of a refusal.
  abbrev pub IsUnrefused : Env → CertificateRequest → Type 0
  IsUnrefused env cr = is_refused (ended_by cm rc env cr) ≡ false

  -- Every step is a run of a controller.
  abbrev IsRun : {c d : Cluster} → Step c d → Type 0
  IsRun (issuer_run r o env found) = Unit
  IsRun (request_run n cr env found) = Unit
  IsRun _ = ⊥

  abbrev pub AreRuns : {c d : Cluster} → Steps c d → Type 0
  AreRuns done = Unit
  AreRuns (next s rest) = IsRun s × AreRuns rest
