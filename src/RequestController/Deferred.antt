-- ===== src/RequestController/Deferred.antt =====
-- The frame of `Reconcile`: the early returns, and the deferred function behind every other run.
use cert_manager_essendi_xc.Base.{
  Bool, true, false, List, [], ◌∷◌, ◌++◌, ◌≡◌, ◌⊎◌, inl, inr, refl, Bool-cases, Option, some, none,
  ap, ◌∙◌,
}
use cert_manager_essendi_xc.Base.Errors.{Error}
use cert_manager_essendi_xc.Base.Text.{Text, contains}
use cert_manager_essendi_xc.Request.{CertificateRequest, CmUtil, Any}
use cert_manager_essendi_xc.RequestController.{
  is_ignored, body, deferred, reconcile_found, retry_report, store, exit_of, err_signer_refused,
}
use cert_manager_essendi_xc.RequestController.Steps.{
  Flow, Action, EventType, event, updated, Reconciler, Env, Run, Exit, report, returned, panicked,
  stop, Result,
}

-- A run at its beginning.
abbrev pub start : CertificateRequest → Run
start cr = record { request = cr; stored = cr; actions = [] }

abbrev pub empty : Result
empty = record { requeue_after = 0 }

pub Any-append :
    (P : Action → Type 0) (xs : List Action) (y : Action) → Any P (xs ++ y ∷ []) → Any P xs ⊎ P y
Any-append P [] y (inl p) = inr p
Any-append P [] y (inr p) = absurd p
Any-append P (x ∷ xs) y (inl p) = inl (inl p)
Any-append P (x ∷ xs) y (inr p) = elim (Any-append P xs y p) [ inl q ↦ inl (inr q) | inr q ↦ inr q ]

-- The run ended by an error whose text speaks of a refusal.
abbrev pub is_refused : Exit → Bool
is_refused (returned _ (some e)) = contains e.text err_signer_refused
is_refused _ = false

module _ (cm : CmUtil) (rc : Reconciler) (env : Env) where
  -- The run and its exit at the end of the function's body, before the deferred function.
  abbrev pub ended : CertificateRequest → Run
  ended cr = (body cm rc env (start cr)).1

  abbrev pub ended_by : CertificateRequest → Exit
  ended_by cr = exit_of cm rc env (body cm rc env (start cr)).0

  pub reconcile_ignored :
      (cr : CertificateRequest)
      → is_ignored cm rc cr ≡ true
      → reconcile_found cm rc env cr ≡ (returned empty none, start cr)
  unfolding reconcile_found
  reconcile_ignored cr h = rw h

  pub reconcile_kept :
      (cr : CertificateRequest)
      → is_ignored cm rc cr ≡ false
      → reconcile_found cm rc env cr ≡ deferred cm rc env (ended_by cr) (ended cr)
  unfolding reconcile_found
  reconcile_kept cr h = rw h

  pub store-actions : (u : Option Error) (r : Run) → (store cm rc env u r).actions ≡ r.actions
  store-actions none r = refl
  store-actions (some e) r = refl

  retry_report-Any :
      (P : Action → Type 0)
      → ((k : EventType) (message : Text) → ¬ P (event k message))
      → (e : Exit) (r : Run) → Any P (retry_report cm rc env e r).actions
      → Any P r.actions
  unfolding report
  retry_report-Any P quiet (returned n none) r h = h
  retry_report-Any P quiet panicked r h = h
  retry_report-Any P quiet (returned n (some e)) r h =
      elim (Bool-cases (contains e.text err_signer_refused)) [
        | inl refused ↦ elim (Any-append P r.actions _ (rw refused at h)) [
          | inl q ↦ q
          | inr q ↦ absurd (quiet _ _ q)
        ]
        | inr other ↦ rw other at h
      ]

  -- The deferred function adds an event at most, and the update.
  pub deferred-Any :
      (P : Action → Type 0)
      → ((k : EventType) (message : Text) → ¬ P (event k message))
      → ((cr : CertificateRequest) → ¬ P (updated cr))
      → (e : Exit) (r : Run) → Any P (deferred cm rc env e r).1.actions
      → Any P r.actions
  unfolding deferred
  deferred-Any P quiet still e r h =
      elim (Any-append P (retry_report cm rc env e r).actions _ (rw store-actions at h)) [
        | inl q ↦ retry_report-Any P quiet e r q
        | inr q ↦ absurd (still _ q)
      ]

  retry_report-unrefused :
      (e : Exit) (r : Run) → is_refused e ≡ false → retry_report cm rc env e r ≡ r
  retry_report-unrefused (returned n none) r h = refl
  retry_report-unrefused panicked r h = refl
  retry_report-unrefused (returned n (some e)) r h = rw h refl

  -- Unless the error speaks of a refusal, what is stored is what the body made of the request.
  pub deferred_stored :
      (e : Exit) (r : Run)
      → is_refused e ≡ false
      → env.update r.request ≡ none
      → deferred cm rc env e r
        ≡ (e, record r { stored = r.request; actions = r.actions ++ updated r.request ∷ [] })
  unfolding deferred
  deferred_stored e r h u = rw (retry_report-unrefused e r h) (rw u refl)

module _ (cm : CmUtil) (rc : Reconciler) where
  -- The API server's copy after a run.
  abbrev pub after : Env → CertificateRequest → CertificateRequest
  after env cr = (reconcile_found cm rc env cr).1.stored

  -- The API server's copy after a sequence of runs.
  unfoldable pub after_all : List Env → CertificateRequest → CertificateRequest
  after_all [] cr = cr
  after_all (env ∷ envs) cr = after_all envs (after env cr)

  -- A run by what its body does, where the update succeeds.
  pub reconcile_body :
      (env : Env) (cr : CertificateRequest) (e : Exit) (r : Run)
      → is_ignored cm rc cr ≡ false
      → body cm rc env (start cr) ≡ (stop e, r)
      → is_refused e ≡ false
      → env.update r.request ≡ none
      → reconcile_found cm rc env cr
        ≡ (e, record r { stored = r.request; actions = r.actions ++ updated r.request ∷ [] })
  reconcile_body env cr e r live h u ok =
      reconcile_kept cm rc env cr live
      ∙ ap (λ (x : Flow ⊥ × Run). deferred cm rc env (exit_of cm rc env x.0) x.1) h
      ∙ deferred_stored cm rc env e r u ok
