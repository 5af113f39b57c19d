-- ===== src/IssuerController/Decides.antt =====
-- What decides the outcome of a run on an issuer.
use cert_manager_essendi_xc.Base.{
  Option, none, some, ◌++◌, ◌≡◌, ◌≢◌, ◌⊎◌, ℕ, inl, inr, refl, sym, true, false, Option-cases, arith,
  ◌∙◌, ap,
}
use cert_manager_essendi_xc.Base.Text.{Text, codes}
use cert_manager_essendi_xc.Base.Errors.{Error}
use cert_manager_essendi_xc.Api.{IssuerSpec, IssuerStatus, IssuerCondition, ConditionStatus, Object}
use cert_manager_essendi_xc.IssuerUtil.{get_ready_condition, set_ready_condition, is_ready}
use cert_manager_essendi_xc.IssuerUtil.Ready.{set_ready_condition_lem, is_ready-set_ready_condition}
use cert_manager_essendi_xc.IssuerController.{Env, check_health, reconcile_object}
use cert_manager_essendi_xc.IssuerController.Checks.{
  IsSecretOf, IsSecretOf-name, IsPassed, FailsWith, Crashes, check_health_decided,
}
use cert_manager_essendi_xc.IssuerController.Health.{
  first_seen, healthy_run, failed_run, panicked_run,
}
use cert_manager_essendi_xc.RequestController.Steps.{NamespacedName, Exit, returned, panicked}

-- The message of the Ready condition.
abbrev pub ready_message : IssuerStatus → Option Text
ready_message status = elim (get_ready_condition status) [ none ↦ none | some c ↦ some c.message ]

module _ (env : Env) (req : NamespacedName) (object : Object) (spec : IssuerSpec)
    (status : IssuerStatus) (name : NamespacedName) where
  -- The run gives the issuer its first Ready condition.
  abbrev pub IsFirstSeen : Exit → IssuerStatus → Type 0
  IsFirstSeen e last =
      (e ≡ returned (record { requeue_after = 0 }) none)
      × (is_ready last ≡ false)
      × (ready_message last ≡ some (codes "First seen"))

  -- The run goes by what the secret, the builder of the health checker and the checker answer.
  abbrev pub IsByCheck : Exit → IssuerStatus → Type 0
  IsByCheck e last =
      (IsPassed env spec name
        × (e ≡ returned (record { requeue_after = 60 }) none)
        × (is_ready last ≡ true)
        × (ready_message last ≡ some (codes "Success")))
      ⊎ (((x : Error) × FailsWith env spec name x
            × (e ≡ returned (record { requeue_after = 0 }) (some x))
            × (is_ready last ≡ false)
            × (ready_message last ≡ some (codes "Temporary error. Retrying: " ++ x.text)))
          ⊎ (Crashes env spec name × (e ≡ panicked) × (last ≡ status)))

message-set_ready_condition :
    (now : ℕ) (status : IssuerStatus) (s : ConditionStatus) (reason message : Text)
    → ready_message (set_ready_condition now status s reason message) ≡ some message
message-set_ready_condition now status s reason message =
    rw (ready_message, (set_ready_condition_lem now status s reason message).0) refl

module _ (env : Env) (req : NamespacedName) (object : Object) (spec : IssuerSpec)
    (status : IssuerStatus) (name : NamespacedName)
    (updates : (s : IssuerStatus) → env.update s ≡ none) where
  first_decided :
      get_ready_condition status ≡ none
      → let (e, r) = reconcile_object env req object spec status in
        IsFirstSeen env req object spec status name e r.stored
  first_decided h =
      let (by, kept) = first_seen env req object spec status updates h in
      (
        by,
        rw kept (is_ready-set_ready_condition env.now status _ _ _),
        rw kept (message-set_ready_condition env.now status _ _ _),
      )

  check_decided :
      (c : IssuerCondition)
      → get_ready_condition status ≡ some c
      → IsSecretOf env req spec object name
      → let (e, r) = reconcile_object env req object spec status in
        IsByCheck env req object spec status name e r.stored
  unfolding codes
  check_decided c seen place =
      let same =
        ap (check_health env req spec) (sym (IsSecretOf-name env req spec object name place)) in
      elim (check_health_decided env req spec name) [
        | inl (p, h) ↦
            let (by, kept) = healthy_run env req object spec status updates c seen (same ∙ h) in
            inl (
              p,
              by,
              rw kept (is_ready-set_ready_condition env.now status _ _ _),
              rw kept (message-set_ready_condition env.now status _ _ _),
            )
        | inr (inl (x, f, h)) ↦
            let (by, kept) = failed_run env req object spec status updates c seen x (same ∙ h) in
            inr (
              inl (
                x,
                f,
                by,
                rw kept (is_ready-set_ready_condition env.now status _ _ _),
                rw kept (message-set_ready_condition env.now status _ _ _),
              ))
        | inr (inr (f, h)) ↦
            let (by, kept) = panicked_run env req object spec status updates c seen (same ∙ h) in
            inr (inr (f, by, kept))
      ]

  -- A run whose update of the status succeeds gives an issuer that has no Ready condition one that
  -- says "First seen" and is not true. On any other issuer, the run goes by the issuer's secret. Where
  -- it is read, a health checker is built from it, and the checker finds no error, the issuer is ready
  -- and the run comes back in a minute. Where one of the three ends in an error, the issuer is not
  -- ready, its Ready condition tells the error, and the run returns it. Where the lookup or the builder
  -- panics, so does the run, and the stored status stays as it is.
  pub health_decides :
      IsSecretOf env req spec object name
      → let (e, r) = reconcile_object env req object spec status in
        ((get_ready_condition status ≡ none)
          × IsFirstSeen env req object spec status name e r.stored)
        ⊎ ((get_ready_condition status ≢ none)
            × IsByCheck env req object spec status name e r.stored)
  health_decides place = elim (Option-cases (get_ready_condition status)) [
    | inl new ↦ inl (new, first_decided new)
    | inr (c, seen) ↦ inr (λ new. absurd (ground arith), check_decided c seen place)
  ]
