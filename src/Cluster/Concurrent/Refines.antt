-- ===== src/Cluster/Concurrent/Refines.antt =====
-- Concurrent runs against whole runs, one at a time.
use cert_manager_essendi_xc.Base.{
  true, false, ◌≡◌, inl, inr, refl, sym, ap, ◌∙◌, ◌+◌, ◌<◌, ◌==◌, ==_iff, arith, Bool-cases, ℕ,
}
use cert_manager_essendi_xc.Cluster.{
  Cluster, name_eq, ref_eq, put_issuer, check_issuer, issuer_run, request_run, issuer_written,
  request_created, condition_written, request_removed, drop_request, Steps, done, next, AreCalm,
}
use cert_manager_essendi_xc.Cluster.Concurrent.{
  Server, note_issuer, note_request, IsConsistent, FineStep, issuer_committed, issuer_kept,
  request_committed, request_kept, issuer_edited, request_added, condition_set, request_dropped,
  FineSteps, none_left, first, IsCalmStep, AreCalmSteps,
}
use cert_manager_essendi_xc.Request.{CertificateRequest, CmUtil}
use cert_manager_essendi_xc.RequestController.Referenced.{Ref}
use cert_manager_essendi_xc.RequestController.Steps.{NamespacedName, Reconciler, Env}

module _ (s : Server) (h : IsConsistent s) where
  note_request-IsConsistent :
      (n : NamespacedName) (c : Cluster)
      → ((r : Ref) → c.issuers r ≡ s.cluster.issuers r)
      → ((m : NamespacedName) → name_eq m n ≡ false → c.requests m ≡ s.cluster.requests m)
      → IsConsistent (note_request n c s)
  note_request-IsConsistent n c same others = record {
    issuers = λ r. h.issuers r ∙ sym (same r);
    requests = λ m. elim (Bool-cases (name_eq m n)) [
      | inl here ↦ rw here (rw (==_self (s.request_version m + 1)) refl)
      | inr other ↦ rw other (h.requests m ∙ sym (others m other))
    ];
    newest = λ m v newer. elim (Bool-cases (name_eq m n)) [
      | inl here ↦
          let beyond : s.request_version m + 1 < v = rw here at newer in
          rw (here, ==_less (s.request_version m + 1) v beyond)
            (h.newest m v (omega (arith, beyond)))
      | inr other ↦ rw other (h.newest m v (rw other at newer))
    ];
  }
    where
      ==_self : (a : ℕ) → (a == a) ≡ true
      ==_self a = (==_iff a a).1 refl

      ==_less : (a b : ℕ) → a < b → (b == a) ≡ false
      ==_less a b less = ground (arith, less)

  note_issuer-IsConsistent :
      (r : Ref) (c : Cluster)
      → ((q : Ref) → ref_eq q r ≡ false → c.issuers q ≡ s.cluster.issuers q)
      → ((n : NamespacedName) → c.requests n ≡ s.cluster.requests n)
      → IsConsistent (note_issuer r c s)
  note_issuer-IsConsistent r c others same = record {
    issuers = λ q. elim (Bool-cases (ref_eq q r)) [
      | inl here ↦
          rw here (rw ((==_iff (s.issuer_version q + 1) (s.issuer_version q + 1)).1 refl) refl)
      | inr other ↦ rw other (h.issuers q ∙ sym (others q other))
    ];
    requests = λ n. h.requests n ∙ sym (same n);
    newest = h.newest;
  }

module _ (cm : CmUtil) (rc : Reconciler) where
  pub step-IsConsistent : {s t : Server} → FineStep cm rc s t → IsConsistent s → IsConsistent t
  step-IsConsistent (issuer_committed {s} r v o env read now) h =
      note_issuer-IsConsistent s h r (check_issuer r o env s.cluster) (λ q e. rw e refl) (λ n. refl)
  step-IsConsistent (issuer_kept r v o env read same) h = h
  step-IsConsistent (request_committed {s} n v cr env read now) h =
      note_request-IsConsistent s h n _ (λ r. refl) (λ m e. rw e refl)
  step-IsConsistent (request_kept n v cr env read same) h = h
  step-IsConsistent (issuer_edited {s} r o edit) h =
      note_issuer-IsConsistent s h r (put_issuer r o s.cluster) (λ q e. rw e refl) (λ n. refl)
  step-IsConsistent (request_added {s} n cr new) h =
      note_request-IsConsistent s h n _ (λ r. refl) (λ m e. rw e refl)
  step-IsConsistent (condition_set {s} n cr d there f) h =
      note_request-IsConsistent s h n _ (λ r. refl) (λ m e. rw e refl)
  step-IsConsistent (request_dropped {s} n) h =
      note_request-IsConsistent s h n (drop_request n s.cluster) (λ r. refl) (λ m e. rw e refl)

  -- Whole runs on the store's objects, and writes of others, that lead from `c` to `d`; they are calm
  -- where `Calm` holds.
  abbrev pub Refined :
      ((Env → CertificateRequest → Type 0) → NamespacedName → Type 0) → Cluster → Cluster → Type 1
  Refined Calm c d =
      (steps : Steps cm rc c d) × ((Fine : Env → CertificateRequest → Type 0) (n : NamespacedName)
        → Calm Fine n
        → AreCalm cm rc Fine n steps)

  -- A step of the server is one whole run or write, or leaves the store as it is.
  pub step-Refined :
      {s t : Server} (step : FineStep cm rc s t)
      → IsConsistent s
      → Refined (λ Fine n. IsCalmStep cm rc Fine n step) s.cluster t.cluster
  step-Refined (issuer_committed {s} r v o env read now) h =
      let there = sym (h.issuers r) ∙ ap (s.issuer_at r) (sym now) ∙ read in
      (next (issuer_run r o env there) done, λ Fine m calm. (tt, tt))
  step-Refined (issuer_kept r v o env read same) h = (done, λ Fine m calm. tt)
  step-Refined (request_committed {s} n v cr env read now) h =
      let there = sym (h.requests n) ∙ ap (s.request_at n) (sym now) ∙ read in
      (next (request_run n cr env there) done, λ Fine m calm. (calm, tt))
  step-Refined (request_kept n v cr env read same) h = (done, λ Fine m calm. tt)
  step-Refined (issuer_edited r o edit) h =
      (next (issuer_written r o edit) done, λ Fine m calm. (tt, tt))
  step-Refined (request_added n cr new) h =
      (next (request_created n cr new) done, λ Fine m calm. (tt, tt))
  step-Refined (condition_set n cr d there f) h =
      (next (condition_written n cr d there f) done, λ Fine m calm. (tt, tt))
  step-Refined (request_dropped n) h = (next (request_removed n) done, λ Fine m calm. (calm, tt))

  append : {c d e : Cluster} → Steps cm rc c d → Steps cm rc d e → Steps cm rc c e
  append done ys = ys
  append (next x xs) ys = next x (append xs ys)

  append-AreCalm :
      (Fine : Env → CertificateRequest → Type 0) (n : NamespacedName) {c d e : Cluster}
      (xs : Steps cm rc c d) (ys : Steps cm rc d e)
      → AreCalm cm rc Fine n xs
      → AreCalm cm rc Fine n ys
      → AreCalm cm rc Fine n (append xs ys)
  unfolding append
  append-AreCalm Fine n done ys a b = b
  append-AreCalm Fine n (next x xs) ys a b = (a.0, append-AreCalm Fine n xs ys a.1 b)

  -- Runs that are under way at the same time, on copies of any age, and writes of others among them,
  -- lead to a store to which the runs whose updates were taken, and the writes, lead one after the
  -- other on the objects that the store has. If every run on the request of a name whose update was
  -- taken is fine, in whatever sense, and that request is not removed, the same holds of the whole
  -- runs. The versions stay consistent.
  pub concurrent_refines :
      {s t : Server} (steps : FineSteps cm rc s t)
      → IsConsistent s
      → Refined (λ Fine n. AreCalmSteps cm rc Fine n steps) s.cluster t.cluster × IsConsistent t
  concurrent_refines none_left h = ((done, λ Fine m calm. tt), h)
  concurrent_refines (first step rest) h =
      let (xs, a) = step-Refined step h in
      let ((ys, b), last) = concurrent_refines rest (step-IsConsistent step h) in
      (
        (
          append xs ys,
          λ Fine n calm. append-AreCalm Fine n xs ys (a Fine n calm.0) (b Fine n calm.1),
        ),
        last,
      )
