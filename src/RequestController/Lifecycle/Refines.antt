-- ===== src/RequestController/Lifecycle/Refines.antt =====
-- Runs of `Reconcile` as steps of the request's life.
use cert_manager_essendi_xc.Base.{
  none, some, List, [], ◌∷◌, ◌++◌, ◌≡◌, ◌≢◌, ◌⊎◌, inl, inr, false, arith, refl, ◌∙◌, sym, ap,
  Bool-cases,
}
use cert_manager_essendi_xc.Base.Text.{Text, codes, contains}
use cert_manager_essendi_xc.Base.Errors.{Error}
use cert_manager_essendi_xc.Request.{CertificateRequest, ready, CmUtil}
use cert_manager_essendi_xc.RequestController.{
  is_ignored, deny, initialise, sign, body, deferred, retry_report, err_signer_refused,
}
use cert_manager_essendi_xc.RequestController.Deferred.{
  start, ended, ended_by, reconcile_ignored, reconcile_kept, after, after_all,
}
use cert_manager_essendi_xc.RequestController.Settled.{open_kept}
use cert_manager_essendi_xc.RequestController.Settled.Body.{body_stored, retry_report_stored}
use cert_manager_essendi_xc.Signer.{Signer}
use cert_manager_essendi_xc.RequestController.Lifecycle.{Phase, IsSeen, Move, phase, IsWellFormed}
use cert_manager_essendi_xc.RequestController.Lifecycle.Moves.{
  Moves, stays, denied-Moves, initialised-Moves, retried-Moves, Move-issued, issued-cases,
}
use cert_manager_essendi_xc.RequestController.Lifecycle.View.{
  live-IsSeen, phase-IsLive, get_condition-ready_of, unseen_phase,
}
use cert_manager_essendi_xc.RequestController.Steps.{
  Reconciler, Env, Run, Exit, Result, report, returned, panicked, refreshed,
}
use cert_manager_essendi_xc.RequestController.Lifecycle.Stages.{open-Moves, route-Moves}

module _ (cm : CmUtil) (rc : Reconciler) (env : Env) (cr : CertificateRequest)
    (w : IsWellFormed cr.status.conditions) (live : is_ignored cm rc cr ≡ false) where
  sign-Moves :
      cm.get_condition cr.status.conditions ready ≢ none
      → Moves (phase cr.status.conditions) (sign cm rc env (start cr)).1.request.status.conditions
  unfolding sign
  sign-Moves n =
      let seen = get_condition-ready_of cm rc cr live n in
      grind (
        arith,
        stays cr.status.conditions w,
        open-Moves cm rc env (start cr) w (live-IsSeen cm rc cr live seen),
        open_kept cm rc env (start cr),
        λ (s : Signer) (t : Text).
            route-Moves cm rc env (record (start cr) { actions = refreshed ∷ [] }) w s t live seen,
      )

  deny-Moves :
      Moves (phase cr.status.conditions) (deny cm rc env (start cr)).1.request.status.conditions
  unfolding deny report
  deny-Moves =
      denied-Moves cm (phase cr.status.conditions) cr.status.conditions w
        (codes "The CertificateRequest was denied by an approval controller")
        (phase-IsLive cm rc cr live)

  initialise-Moves :
      cm.get_condition cr.status.conditions ready ≡ none
      → Moves
          (phase cr.status.conditions)
          (initialise cm rc env (start cr)).1.request.status.conditions
  unfolding initialise report
  initialise-Moves h =
      initialised-Moves cm (phase cr.status.conditions) cr.status.conditions w
        (unseen_phase cm rc cr live h)

  body-Moves : Moves (phase cr.status.conditions) (ended cm rc env cr).request.status.conditions
  unfolding body
  body-Moves = ground (arith, deny-Moves, initialise-Moves, sign-Moves)

  -- A run that ends in an error, or by a panic, has a Ready condition to go on from.
  error-IsSeen :
      (n : Result) (e : Error)
      → ended_by cm rc env cr ≡ returned n (some e)
      → IsSeen (phase cr.status.conditions)
  unfolding body deny initialise report
  error-IsSeen n e h =
      live-IsSeen cm rc cr live (get_condition-ready_of cm rc cr live (λ k. absurd (ground arith)))

  retry-Moves :
      (e : Exit) (r : Run)
      → ended_by cm rc env cr ≡ e
      → Moves (phase cr.status.conditions) r.request.status.conditions
      → Moves (phase cr.status.conditions) (retry_report cm rc env e r).request.status.conditions
  unfolding report
  retry-Moves (returned n none) r h m = m
  retry-Moves panicked r h m = m
  retry-Moves (returned n (some e)) r h m = elim (Bool-cases (contains e.text err_signer_refused)) [
    | inr q ↦ rw q m
    | inl q ↦ rw q (
        retried-Moves cm (phase cr.status.conditions) r.request.status.conditions m.well
          (codes ": " ++ e.text) (error-IsSeen n e h))
  ]

  run-Moves : Moves (phase cr.status.conditions) (after cm rc env cr).status.conditions
  unfolding deferred
  run-Moves =
      rw (after, reconcile_kept cm rc env cr live)
        (ground (
          arith,
          retry-Moves (ended_by cm rc env cr) (ended cm rc env cr) refl body-Moves,
          retry_report_stored cm rc env (ended_by cm rc env cr) (ended cm rc env cr),
          body_stored cm rc env cr,
          stays cr.status.conditions w,
        ))

module _ (cm : CmUtil) (rc : Reconciler) where
  -- A run on well-formed conditions leaves them well-formed, and is a step of the request's life or
  -- none, whatever it meets.
  pub reconcile-Moves :
      (env : Env) (cr : CertificateRequest)
      → IsWellFormed cr.status.conditions
      → Moves (phase cr.status.conditions) (after cm rc env cr).status.conditions
  reconcile-Moves env cr w = elim (Bool-cases (is_ignored cm rc cr)) [
    | inl ignored ↦
        rw (reconcile_ignored cm rc env cr ignored, after) (stays cr.status.conditions w)
    | inr live ↦ run-Moves cm rc env cr w live
  ]

  -- Each run of the sequence leaves the conditions well-formed and their phase as it is, or takes it
  -- one step on.
  abbrev pub IsStepwise : List Env → CertificateRequest → Type 0
  IsStepwise [] cr = Unit
  IsStepwise (env ∷ envs) cr =
      let next = after cm rc env cr in
      let before = phase cr.status.conditions in
      let now = phase next.status.conditions in
      IsWellFormed next.status.conditions
      × ((now ≡ before) ⊎ Move before now)
      × IsStepwise envs next

  -- Where a request has one Ready condition at most and no other condition speaks as the controller
  -- does, this stays so over any sequence of runs, whatever they meet, and each run of the sequence
  -- leaves the phase that the conditions stand for as it is, or takes it one step on in a request's
  -- life.
  pub lifecycle_refines :
      (envs : List Env) (cr : CertificateRequest)
      → IsWellFormed cr.status.conditions
      → IsStepwise envs cr
  lifecycle_refines [] cr w = tt
  lifecycle_refines (env ∷ envs) cr w =
      let m = reconcile-Moves env cr w in
      (m.well, m.moved, lifecycle_refines envs (after cm rc env cr) m.well)

  -- The run that issues a request finds it signed: where a sequence of runs takes a well-formed request
  -- that is not issued to an issued one, it has a run that starts at the phase signed and ends at the
  -- phase issued.
  pub issued_after_signed :
      (envs : List Env) (cr : CertificateRequest)
      → IsWellFormed cr.status.conditions
      → phase cr.status.conditions ≢ Phase.issued
      → phase (after_all cm rc envs cr).status.conditions ≡ Phase.issued
      → (before : List Env) × (env : Env) × (later : List Env) × (envs ≡ before ++ env ∷ later)
        × (phase (after_all cm rc before cr).status.conditions ≡ Phase.signed)
        × (phase (after cm rc env (after_all cm rc before cr)).status.conditions ≡ Phase.issued)
  unfolding after_all
  issued_after_signed [] cr w n e = absurd (n e)
  issued_after_signed (env ∷ envs) cr w n e =
      let m = reconcile-Moves env cr w in
      let rest = issued_after_signed envs (after cm rc env cr) m.well in
      elim (issued-cases (phase (after cm rc env cr).status.conditions)) [
        | inl now_issued ↦ elim m.moved [
          | inl same ↦ absurd (n (sym same ∙ now_issued))
          | inr step ↦ ([], env, envs, refl, Move-issued step now_issued, now_issued)
        ]
        | inr not_yet ↦
            let (before, last, later, split, signed, issued) = rest not_yet e in
            (env ∷ before, last, later, ap (λ (es : List Env). env ∷ es) split, signed, issued)
      ]
