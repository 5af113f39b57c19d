-- ===== src/Cluster/Concurrent/Versions.antt =====
-- What concurrent runs and writes keep of the copies of a request, from a version on.
use cert_manager_essendi_xc.Base.{
  ℕ, ◌+◌, ◌≤◌, ◌==◌, ==_iff, ◌&&◌, some, ◌≡◌, inl, inr, sym, ap, ◌∙◌, arith, Bool-cases,
}
use cert_manager_essendi_xc.Cluster.{Cluster, name_eq}
use cert_manager_essendi_xc.Cluster.Concurrent.{
  Server, note_request, IsConsistent, FineStep, issuer_committed, issuer_kept, request_committed,
  request_kept, issuer_edited, request_added, condition_set, request_dropped, FineSteps, none_left,
  first, IsCalmStep, AreCalmSteps,
}
use cert_manager_essendi_xc.Cluster.Concurrent.Refines.{step-IsConsistent, step-Refined}
use cert_manager_essendi_xc.Cluster.Kept.{IsInvariant, IsKept, kept_there, steps-IsKept}
use cert_manager_essendi_xc.Request.{CertificateRequest, CmUtil}
use cert_manager_essendi_xc.RequestController.Steps.{NamespacedName, Reconciler, Env}

-- Every copy of the request at `n` from this version on has the property, the store's too.
record IsKeptSince (P : CertificateRequest → Type 0) (n : NamespacedName) (oldest : ℕ) (s : Server)
    : Type 0 where
  consistent : IsConsistent s
  now : IsKept P n s.cluster
  copies : (v : ℕ) (cr : CertificateRequest) → oldest ≤ v → s.request_at n v ≡ some cr → P cr

module _ (cm : CmUtil) (rc : Reconciler) (P : CertificateRequest → Type 0)
    (Fine : Env → CertificateRequest → Type 0) (h : IsInvariant cm rc P Fine)
    (n : NamespacedName) where
  note_copies :
      (oldest : ℕ) (s : Server) (m : NamespacedName) (c : Cluster)
      → IsKept P n c
      → IsKeptSince P n oldest s
      → (v : ℕ) (cr : CertificateRequest) → oldest ≤ v
      → (note_request m c s).request_at n v ≡ some cr
      → P cr
  note_copies oldest s m c k since v cr old at =
      elim (Bool-cases (name_eq n m && (v == (s.request_version n + 1)))) [
        | inl new ↦ kept_there P n c cr k (rw new at at)
        | inr before ↦ since.copies v cr old (rw before at at)
      ]

  step_copies :
      (oldest : ℕ) {s t : Server} (step : FineStep cm rc s t)
      → IsKept P n t.cluster
      → IsKeptSince P n oldest s
      → (v : ℕ) (cr : CertificateRequest) → oldest ≤ v
      → t.request_at n v ≡ some cr
      → P cr
  step_copies oldest (issuer_committed r v o env read at) k since = since.copies
  step_copies oldest (issuer_kept r v o env read same) k since = since.copies
  step_copies oldest (request_committed {s} m v cr env read at) k since =
      note_copies oldest s m _ k since
  step_copies oldest (request_kept m v cr env read same) k since = since.copies
  step_copies oldest (issuer_edited r o edit) k since = since.copies
  step_copies oldest (request_added {s} m cr new) k since = note_copies oldest s m _ k since
  step_copies oldest (condition_set {s} m cr d there f) k since = note_copies oldest s m _ k since
  step_copies oldest (request_dropped {s} m) k since = note_copies oldest s m _ k since

  step-IsKeptSince :
      (oldest : ℕ) {s t : Server} (step : FineStep cm rc s t)
      → IsCalmStep cm rc Fine n step
      → IsKeptSince P n oldest s
      → IsKeptSince P n oldest t
  step-IsKeptSince oldest step calm since =
      let (whole, quiet) = step-Refined cm rc step since.consistent in
      let k = steps-IsKept cm rc n P Fine h whole (quiet Fine n calm) since.now in
      record {
        consistent = step-IsConsistent cm rc step since.consistent;
        now = k;
        copies = step_copies oldest step k since;
      }

  steps-IsKeptSince :
      (oldest : ℕ) {s t : Server} (steps : FineSteps cm rc s t)
      → AreCalmSteps cm rc Fine n steps
      → IsKeptSince P n oldest s
      → IsKeptSince P n oldest t
  steps-IsKeptSince oldest none_left calm since = since
  steps-IsKeptSince oldest (first step rest) calm since =
      steps-IsKeptSince oldest rest calm.1 (step-IsKeptSince oldest step calm.0 since)

  newest_copies :
      (s : Server)
      → IsConsistent s
      → IsKept P n s.cluster
      → (v : ℕ) (cr : CertificateRequest) → s.request_version n ≤ v
      → s.request_at n v ≡ some cr
      → P cr
  newest_copies s c k v cr newest at = elim (Bool-cases (v == s.request_version n)) [
    | inl same ↦
        let e = (==_iff v (s.request_version n)).0 same in
        kept_there P n s.cluster cr k (sym (c.requests n) ∙ ap (s.request_at n) (sym e) ∙ at)
    | inr other ↦ absurd (ground (arith, c.newest n v (ground (arith, newest, other)), at))
  ]

  -- Where the server's newest copy of the request at `n` has a property that fine runs and others'
  -- conditions keep, then after any calm steps every copy of that version or a newer one has it.
  pub kept_since :
      {s t : Server} (steps : FineSteps cm rc s t) (cr copy : CertificateRequest) (v : ℕ)
      → IsConsistent s
      → s.cluster.requests n ≡ some cr
      → P cr
      → AreCalmSteps cm rc Fine n steps
      → s.request_version n ≤ v
      → t.request_at n v ≡ some copy
      → P copy
  kept_since {s} steps cr copy v c there holds calm newer read =
      let k : IsKept P n s.cluster = record { request = cr; found = there; holds = holds } in
      let begun : IsKeptSince P n (s.request_version n) s = record {
        consistent = c;
        now = k;
        copies = newest_copies s c k;
      } in
      (steps-IsKeptSince (s.request_version n) steps calm begun).copies v copy newer read
