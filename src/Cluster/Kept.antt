-- ===== src/Cluster/Kept.antt =====
-- What steps of the cluster keep of a request, if runs on it and conditions of others do.
use cert_manager_essendi_xc.Base.{
  none, some, ◌≡◌, inl, inr, refl, sym, ap, ◌∙◌, subst, arith, Bool-cases, Option,
}
use cert_manager_essendi_xc.Cluster.{
  Cluster, name_eq, put_request, Step, issuer_run, request_run, issuer_written, request_created,
  condition_written, request_removed, Steps, done, next, IsCalm, AreCalm,
}
use cert_manager_essendi_xc.Cluster.Store.{name_eq-true}
use cert_manager_essendi_xc.Request.{CertificateRequest, Condition, CmUtil}
use cert_manager_essendi_xc.RequestController.Deferred.{after}
use cert_manager_essendi_xc.RequestController.Lifecycle.{IsForeign}
use cert_manager_essendi_xc.RequestController.Steps.{NamespacedName, Reconciler, Env, put}

pub some_request : {a b : CertificateRequest} → some a ≡ some b → a ≡ b
some_request {a} h = ap (λ (o : Option CertificateRequest). elim o [ none ↦ a | some x ↦ x ]) h

-- A property of requests that fine runs keep, and conditions of other writers.
pub record IsInvariant (cm : CmUtil) (rc : Reconciler) (P : CertificateRequest → Type 0)
    (Fine : Env → CertificateRequest → Type 0) : Type 0 where
  pub run : (env : Env) (cr : CertificateRequest) → Fine env cr → P cr → P (after cm rc env cr)
  pub written : (d : Condition) (cr : CertificateRequest) → IsForeign d → P cr → P (put cm d cr)

-- The store has a request at `n`, which has the property.
pub record IsKept (P : CertificateRequest → Type 0) (n : NamespacedName) (c : Cluster)
    : Type 0 where
  pub request : CertificateRequest
  pub found : c.requests n ≡ some request
  pub holds : P request

pub kept_there :
    (P : CertificateRequest → Type 0) (n : NamespacedName) (c : Cluster) (cr : CertificateRequest)
    → IsKept P n c
    → c.requests n ≡ some cr
    → P cr
kept_there P n c cr k there = subst P (some_request (sym k.found ∙ there)) k.holds

module _ (cm : CmUtil) (rc : Reconciler) (n : NamespacedName) (P : CertificateRequest → Type 0)
    (Fine : Env → CertificateRequest → Type 0) (h : IsInvariant cm rc P Fine) where
  put_request-IsKept :
      (c : Cluster) (m : NamespacedName) (cr : CertificateRequest)
      → IsKept P n c
      → (m ≡ n → P cr)
      → IsKept P n (put_request m cr c)
  put_request-IsKept c m cr k new = elim (Bool-cases (name_eq n m)) [
    | inr other ↦ record { request = k.request; found = rw other k.found; holds = k.holds }
    | inl here ↦ record {
      request = cr;
      found = rw here refl;
      holds = new (sym (name_eq-true n m here));
    }
  ]

  there_too :
      (c : Cluster) (m : NamespacedName) (cr : CertificateRequest)
      → IsKept P n c
      → c.requests m ≡ some cr
      → m ≡ n
      → P cr
  there_too c m cr k there e = kept_there P n c cr k (sym (ap c.requests e) ∙ there)

  step-IsKept :
      {c d : Cluster} (s : Step cm rc c d) → IsCalm cm rc Fine n s → IsKept P n c → IsKept P n d
  step-IsKept (issuer_run r o env there) calm k = record {
    request = k.request;
    found = k.found;
    holds = k.holds;
  }
  step-IsKept (issuer_written r o edit) calm k = record {
    request = k.request;
    found = k.found;
    holds = k.holds;
  }
  step-IsKept (request_created {c} m cr new) calm k = put_request-IsKept c m cr k (λ e.
      absurd (ground (arith, k.found, subst (λ (x : NamespacedName). c.requests x ≡ none) e new)))
  step-IsKept (request_run {c} m cr env there) calm k =
      put_request-IsKept c m (after cm rc env cr) k
        (λ e. h.run env cr (calm e) (there_too c m cr k there e))
  step-IsKept (condition_written {c} m cr d there f) calm k =
      put_request-IsKept c m (put cm d cr) k (λ e. h.written d cr f (there_too c m cr k there e))
  step-IsKept (request_removed {c} m) calm k = elim (Bool-cases (name_eq n m)) [
    | inl here ↦ absurd (calm (sym (name_eq-true n m here)))
    | inr other ↦ record { request = k.request; found = rw other k.found; holds = k.holds }
  ]

  pub steps-IsKept :
      {c d : Cluster} (steps : Steps cm rc c d)
      → AreCalm cm rc Fine n steps
      → IsKept P n c
      → IsKept P n d
  steps-IsKept done calm k = k
  steps-IsKept (next s rest) calm k = steps-IsKept rest calm.1 (step-IsKept s calm.0 k)
