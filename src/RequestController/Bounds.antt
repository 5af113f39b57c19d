-- ===== src/RequestController/Bounds.antt =====
-- How much one run of `Reconcile` does, and when it is repeated.
use cert_manager_essendi_xc.Base.{
  ℕ, ◌+◌, ◌≤◌, none, some, List, [], ◌∷◌, ◌++◌, ◌≡◌, ◌⊎◌, inl, inr, arith, Bool-cases,
  if◌then◌else◌,
}
use cert_manager_essendi_xc.Request.{CertificateRequest, CmUtil}
use cert_manager_essendi_xc.RequestController.{
  is_ignored, deny, initialise, sign, body, submit, poll, await, fetch, route, open_signer,
  deferred, retry_report, reconcile_found,
}
use cert_manager_essendi_xc.RequestController.Deferred.{
  ended, ended_by, reconcile_ignored, reconcile_kept, store-actions,
}
use cert_manager_essendi_xc.RequestController.Steps.{
  Action, event, updated, Reconciler, Env, Run, Exit, report, returned, panicked,
}

abbrev pub events : List Action → ℕ
events [] = 0
events (event _ _ ∷ rest) = 1 + events rest
events (_ ∷ rest) = events rest

-- The calls that reach the CA or its token endpoint.
abbrev pub contacts : List Action → ℕ
contacts [] = 0
contacts (event _ _ ∷ rest) = contacts rest
contacts (updated _ ∷ rest) = contacts rest
contacts (_ ∷ rest) = 1 + contacts rest

abbrev pub updates : List Action → ℕ
updates [] = 0
updates (updated _ ∷ rest) = 1 + updates rest
updates (_ ∷ rest) = updates rest

-- A run without an error asks to be repeated after 15 seconds, or not at all; one with an error leaves
-- the pace to its caller.
abbrev pub IsPaced : Exit → Type 0
IsPaced (returned n (some _)) = n.requeue_after ≡ 0
IsPaced (returned n none) = (n.requeue_after ≡ 0) ⊎ (n.requeue_after ≡ 15)
IsPaced panicked = Unit

abbrev tells : Exit → ℕ
tells (returned _ (some _)) = 1
tells _ = 0

-- Counts are additive.
events-append : (xs ys : List Action) → events (xs ++ ys) ≡ events xs + events ys
events-append [] ys = omega arith
events-append (x ∷ xs) ys = ground (arith, events-append xs ys)

contacts-append : (xs ys : List Action) → contacts (xs ++ ys) ≡ contacts xs + contacts ys
contacts-append [] ys = omega arith
contacts-append (x ∷ xs) ys = ground (arith, contacts-append xs ys)

updates-append : (xs ys : List Action) → updates (xs ++ ys) ≡ updates xs + updates ys
updates-append [] ys = omega arith
updates-append (x ∷ xs) ys = ground (arith, updates-append xs ys)

module _ (cm : CmUtil) (rc : Reconciler) (env : Env) where
  body-IsPaced : (cr : CertificateRequest) → IsPaced (ended_by cm rc env cr)
  unfolding body deny initialise report sign open_signer route submit poll fetch await
  body-IsPaced cr = ground arith

  body_counts :
      (cr : CertificateRequest)
      → (contacts (ended cm rc env cr).actions ≤ 2)
        × (updates (ended cm rc env cr).actions ≡ 0)
        × (events (ended cm rc env cr).actions + tells (ended_by cm rc env cr) ≤ 1)
  unfolding body deny initialise report sign open_signer route submit poll fetch await
  body_counts cr = ground arith

  deferred-IsPaced : (e : Exit) (r : Run) → IsPaced e → IsPaced (deferred cm rc env e r).0
  unfolding deferred
  deferred-IsPaced e r h = ground arith

  retry_counts :
      (e : Exit) (r : Run)
      → let acts = (retry_report cm rc env e r).actions in
        (contacts acts ≡ contacts r.actions)
        × (updates acts ≡ updates r.actions)
        × (events acts ≤ events r.actions + tells e)
  unfolding report
  retry_counts e r = grind (arith, contacts-append, updates-append, events-append)

  deferred_counts :
      (e : Exit) (r : Run)
      → let acts = (deferred cm rc env e r).1.actions in
        (contacts acts ≡ contacts r.actions)
        × (updates acts ≡ 1 + updates r.actions)
        × (events acts ≤ events r.actions + tells e)
  unfolding deferred
  deferred_counts e r =
      let r' = retry_report cm rc env e r in
      let last = updated r'.request ∷ [] in
      rw store-actions (
        ground (
          arith,
          retry_counts e r,
          contacts-append r'.actions last,
          updates-append r'.actions last,
          events-append r'.actions last,
        ))

  -- Every run makes at most two calls that reach the CA, one for a token and one for the stage, and
  -- records at most one event. It updates the stored object once if it passes the early returns, and
  -- not at all otherwise. It asks to be repeated after 15 seconds or not at all, and leaves that to its
  -- caller where it returns an error.
  pub run_bounds :
      (cr : CertificateRequest)
      → let (e, r) = reconcile_found cm rc env cr in
        IsPaced e
        × (contacts r.actions ≤ 2)
        × (events r.actions ≤ 1)
        × (updates r.actions ≡ (if is_ignored cm rc cr then 0 else 1))
  run_bounds cr = elim (Bool-cases (is_ignored cm rc cr)) [
    | inl ignored ↦ rw (reconcile_ignored cm rc env cr ignored, ignored) (omega arith)
    | inr live ↦
        let (few, none_yet, told) = body_counts cr in
        let (same, one_more, events_told) =
          deferred_counts (ended_by cm rc env cr) (ended cm rc env cr) in
        rw (reconcile_kept cm rc env cr live, live)
          (
            deferred-IsPaced (ended_by cm rc env cr) (ended cm rc env cr) (body-IsPaced cr),
            omega (arith, few, same),
            omega (arith, told, events_told),
            omega (arith, none_yet, one_more),
          )
  ]
