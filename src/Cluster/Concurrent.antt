-- ===== src/Cluster/Concurrent.antt =====
-- Runs of the two controllers that are under way while others write: what a run has read may be old, and
-- the API server takes an update only if it was made from the version that it has.
pub mod Refines
pub mod Versions
pub mod Once
pub mod Final
use cert_manager_essendi_xc.Base.{
  ℕ, ◌+◌, ◌<◌, ◌==◌, ◌&&◌, Option, none, some, ◌≡◌, ◌≢◌, if◌then◌else◌, false,
}
use cert_manager_essendi_xc.Cluster.{
  IssuerObject, Cluster, name_of, object_of, name_eq, ref_eq, put_issuer, put_request, drop_request,
  check_issuer, IsUserEdit,
}
use cert_manager_essendi_xc.IssuerController
use cert_manager_essendi_xc.IssuerController.{reconcile_object}
use cert_manager_essendi_xc.Request.{CertificateRequest, Condition, CmUtil}
use cert_manager_essendi_xc.RequestController.Deferred.{after}
use cert_manager_essendi_xc.RequestController.Lifecycle.{IsForeign}
use cert_manager_essendi_xc.RequestController.Referenced.{Ref}
use cert_manager_essendi_xc.RequestController.Steps.{NamespacedName, Reconciler, Env, put}

-- The API server with its objects' versions: the version of the object that it has now, and what the
-- object was at every version.
pub record Server : Type 0 where
  pub cluster : Cluster
  pub issuer_version : Ref → ℕ
  pub issuer_at : Ref → ℕ → Option IssuerObject
  pub request_version : NamespacedName → ℕ
  pub request_at : NamespacedName → ℕ → Option CertificateRequest

-- The store after a write of the issuer at `r`, or of the request at `n`, which gets a new version.
abbrev pub note_issuer : Ref → Cluster → Server → Server
note_issuer r c s = record s {
  cluster = c;
  issuer_version = λ q. if ref_eq q r then s.issuer_version q + 1 else s.issuer_version q;
  issuer_at =
      λ q v. if ref_eq q r && (v == (s.issuer_version q + 1)) then c.issuers q else s.issuer_at q v;
}

abbrev pub note_request : NamespacedName → Cluster → Server → Server
note_request n c s = record s {
  cluster = c;
  request_version = λ m. if name_eq m n then s.request_version m + 1 else s.request_version m;
  request_at = λ m v.
      if name_eq m n && (v == (s.request_version m + 1)) then c.requests m else s.request_at m v;
}

-- What the server has is what it has at the current version, and no version is newer.
pub record IsConsistent (s : Server) : Type 0 where
  pub issuers : (r : Ref) → s.issuer_at r (s.issuer_version r) ≡ s.cluster.issuers r
  pub requests : (n : NamespacedName) → s.request_at n (s.request_version n) ≡ s.cluster.requests n
  pub newest : (n : NamespacedName) (v : ℕ) → s.request_version n < v → s.request_at n v ≡ none

module _ (cm : CmUtil) (rc : Reconciler) where
  -- One step: the end of a run, which has read its object at any version, or another writer's. A run
  -- is `committed` where its update is taken, and `kept` where the update was refused or changed
  -- nothing.
  pub data FineStep : Server → Server → Type 0 where
    issuer_committed :
        {s : Server} (r : Ref) (v : ℕ) (o : IssuerObject) (env : IssuerController.Env)
        → s.issuer_at r v ≡ some o
        → v ≡ s.issuer_version r
        → FineStep s (note_issuer r (check_issuer r o env s.cluster) s)
    issuer_kept :
        {s : Server} (r : Ref) (v : ℕ) (o : IssuerObject) (env : IssuerController.Env)
        → s.issuer_at r v ≡ some o
        → (reconcile_object env (name_of r) (object_of r o) o.spec o.status).1.stored ≡ o.status
        → FineStep s s
    request_committed :
        {s : Server} (n : NamespacedName) (v : ℕ) (cr : CertificateRequest) (env : Env)
        → s.request_at n v ≡ some cr
        → v ≡ s.request_version n
        → FineStep s (note_request n (put_request n (after cm rc env cr) s.cluster) s)
    request_kept :
        {s : Server} (n : NamespacedName) (v : ℕ) (cr : CertificateRequest) (env : Env)
        → s.request_at n v ≡ some cr
        → after cm rc env cr ≡ cr
        → FineStep s s
    issuer_edited :
        {s : Server} (r : Ref) (o : Option IssuerObject)
        → IsUserEdit (s.cluster.issuers r) o
        → FineStep s (note_issuer r (put_issuer r o s.cluster) s)
    request_added :
        {s : Server} (n : NamespacedName) (cr : CertificateRequest)
        → s.cluster.requests n ≡ none
        → FineStep s (note_request n (put_request n cr s.cluster) s)
    condition_set :
        {s : Server} (n : NamespacedName) (cr : CertificateRequest) (d : Condition)
        → s.cluster.requests n ≡ some cr
        → IsForeign d
        → FineStep s (note_request n (put_request n (put cm d cr) s.cluster) s)
    request_dropped :
        {s : Server} (n : NamespacedName) → FineStep s (note_request n (drop_request n s.cluster) s)

  pub data FineSteps : Server → Server → Type 0 where
    none_left : {s : Server} → FineSteps s s
    first : {s t u : Server} → FineStep s t → FineSteps t u → FineSteps s u

  -- Every run on the request at `n` whose update is taken is fine, and the request is not removed.
  abbrev pub IsCalmStep :
      (Env → CertificateRequest → Type 0) → NamespacedName → {s t : Server} → FineStep s t → Type 0
  IsCalmStep Fine n (request_committed m v cr env read now) = m ≡ n → Fine env cr
  IsCalmStep Fine n (request_dropped m) = m ≢ n
  IsCalmStep Fine n _ = Unit

  abbrev pub AreCalmSteps :
      (Env → CertificateRequest → Type 0) → NamespacedName → {s t : Server} → FineSteps s t → Type 0
  AreCalmSteps Fine n none_left = Unit
  AreCalmSteps Fine n (first step rest) = IsCalmStep Fine n step × AreCalmSteps Fine n rest
