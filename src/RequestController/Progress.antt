-- ===== src/RequestController/Progress.antt =====
-- certificaterequest_controller.go: runs on a request that was signed.
use cert_manager_essendi_xc.Base.{
  true, false, List, [], ◌∷◌, ◌≡◌, ◌⊎◌, inl, inr, refl, arith, none, Bool, ◌||◌, Bool-cases,
}
use cert_manager_essendi_xc.Base.Text.{Text, codes}
use cert_manager_essendi_xc.IssuerUtil.{is_signed, get_signed_condition, says_signed}
use cert_manager_essendi_xc.Request
use cert_manager_essendi_xc.Request.{
  CertificateRequest, Condition, ready, is_true, is_false, issued, denied, CmUtil, Puts, added,
  replaced, kept, Any, HasType,
}
use cert_manager_essendi_xc.Signer.{Signer}
use cert_manager_essendi_xc.RequestController.{
  is_ignored, deny, initialise, sign, body, submit, poll, fetch, route, open_signer,
  reconcile_found,
}
use cert_manager_essendi_xc.RequestController.Deferred.{
  start, ended, ended_by, is_refused, reconcile_ignored, reconcile_kept, deferred-Any, after,
  after_all,
}
use cert_manager_essendi_xc.RequestController.Once.{Unrefused}
use cert_manager_essendi_xc.RequestController.Settled.{is_final, open_kept}
use cert_manager_essendi_xc.RequestController.Settled.Body.{
  final_ignored, body_stored, deferred_either,
}
use cert_manager_essendi_xc.RequestController.Stages.{pending_with}
use cert_manager_essendi_xc.RequestController.Steps.{
  Action, submitted, polled, Reconciler, Env, Run, report,
}

-- The condition says that the request was signed, or it ends the request.
unfoldable advances : Condition → Bool
advances c = is_final c || says_signed c

-- Some condition does.
unfoldable pub is_advanced : List Condition → Bool
unfolding advances
is_advanced [] = false
is_advanced (c ∷ cs) = advances c || is_advanced cs

-- A call that belongs to an earlier stage than the fetch.
abbrev pub IsStepBack : Action → Type 0
IsStepBack (submitted _) = Unit
IsStepBack (polled _) = Unit
IsStepBack _ = ⊥

is_advanced-Puts :
    (c : Condition) {cs cs' : List Condition}
    → Puts c cs cs'
    → advances c ≡ true
    → is_advanced cs' ≡ true
unfolding is_advanced
is_advanced-Puts c added h = rw h refl
is_advanced-Puts c (replaced e) h = rw h refl
is_advanced-Puts c (kept ne r) h = ground (arith, is_advanced-Puts c r h)

is_advanced-Puts_added :
    (c : Condition) {cs cs' : List Condition}
    → Puts c cs cs'
    → ¬ Any (HasType c.type) cs
    → is_advanced cs ≡ true
    → is_advanced cs' ≡ true
unfolding is_advanced
is_advanced-Puts_added c added new h = cc
is_advanced-Puts_added c (replaced e) new h = absurd (new (inl e))
is_advanced-Puts_added c (kept {d} ne r) new h = elim (Bool-cases (advances d)) [
  | inl here ↦ rw here refl
  | inr later ↦ rw later (is_advanced-Puts_added c r (λ a. new (inr a)) (rw later at h))
]

advanced_cases :
    (cs : List Condition)
    → is_advanced cs ≡ true
    → Any (λ c. is_final c ≡ true) cs ⊎ (is_signed cs ≡ true)
unfolding is_advanced advances is_signed get_signed_condition
advanced_cases [] h = cc
advanced_cases (c ∷ cs) h = ground (arith, advanced_cases cs)

signed_advanced : (cs : List Condition) → is_signed cs ≡ true → is_advanced cs ≡ true
unfolding is_advanced advances is_signed get_signed_condition
signed_advanced [] h = cc
signed_advanced (c ∷ cs) h = ground (arith, signed_advanced cs)

module _ (cm : CmUtil) (rc : Reconciler) where
  live_signed :
      (cr : CertificateRequest)
      → is_ignored cm rc cr ≡ false
      → is_advanced cr.status.conditions ≡ true
      → is_signed cr.status.conditions ≡ true
  live_signed cr live h = elim (advanced_cases cr.status.conditions h) [
    | inl final ↦ cc (live, final_ignored cm rc cr final)
    | inr k ↦ k
  ]

  module _ (env : Env) where
    set_advances :
        (c : Condition) (cs : List Condition)
        → advances c ≡ true
        → is_advanced (cm.set_condition c cs) ≡ true
    set_advances c cs h = is_advanced-Puts c (cm.set_condition-Puts c cs) h

    failed_advances :
        (message : Text) (cs : List Condition)
        → is_advanced (
            cm.set_condition
              (record {
                type = ready;
                status = is_false;
                reason = Request.failed;
                message = message;
              })
              cs)
          ≡ true
    unfolding advances
    failed_advances message cs = set_advances _ cs refl

    issued_advances :
        (cs : List Condition)
        → is_advanced (
            cm.set_condition
              (record { type = ready; status = is_true; reason = issued; message = codes "Signed" })
              cs)
          ≡ true
    unfolding advances
    issued_advances cs = set_advances _ cs refl

    deny_advances : (r : Run) → is_advanced (deny cm rc env r).1.request.status.conditions ≡ true
    unfolding deny report advances
    deny_advances r = set_advances _ r.request.status.conditions refl

    initialise_advanced :
        (r : Run)
        → cm.get_condition r.request.status.conditions ready ≡ none
        → is_advanced r.request.status.conditions ≡ true
        → is_advanced (initialise cm rc env r).1.request.status.conditions ≡ true
    unfolding initialise report
    initialise_advanced r new h =
        is_advanced-Puts_added (pending_with (codes "Initialising Ready condition"))
          (cm.set_condition-Puts _ _) ((cm.get_condition-eq-none_iff _ _).0 new) h

    fetch_advanced :
        (s : Signer) (t : Text) (r : Run)
        → is_advanced r.request.status.conditions ≡ true
        → is_advanced
            (fetch cm rc env s t r.request.status.conditions r).1.request.status.conditions
          ≡ true
    unfolding fetch report
    fetch_advanced s t r h = ground (arith, issued_advances r.request.status.conditions)

    open_advanced :
        (r : Run)
        → is_advanced r.request.status.conditions ≡ true
        → is_advanced (open_signer cm rc env r).1.request.status.conditions ≡ true
    unfolding open_signer report
    open_advanced r h = grind (arith, failed_advances)

    route_advanced :
        (s : Signer) (t : Text) (r : Run)
        → is_advanced r.request.status.conditions ≡ true
        → is_signed r.request.status.conditions ≡ true
        → is_advanced (route cm rc env s t r.request r).1.request.status.conditions ≡ true
    unfolding route
    route_advanced s t r h k = ground (arith, fetch_advanced s t r)

    sign_advanced :
        (r : Run)
        → is_advanced r.request.status.conditions ≡ true
        → is_signed r.request.status.conditions ≡ true
        → is_advanced (sign cm rc env r).1.request.status.conditions ≡ true
    unfolding sign
    sign_advanced r h k = grind (arith, open_kept, open_advanced, route_advanced)

    body_advanced :
        (cr : CertificateRequest)
        → is_ignored cm rc cr ≡ false
        → is_advanced cr.status.conditions ≡ true
        → is_advanced (ended cm rc env cr).request.status.conditions ≡ true
    unfolding body
    body_advanced cr live h = ground (
      arith,
      deny_advances (start cr),
      initialise_advanced (start cr),
      sign_advanced (start cr) h (live_signed cr live h),
    )

    body_step_back :
        (cr : CertificateRequest)
        → Any IsStepBack (ended cm rc env cr).actions
        → is_signed cr.status.conditions ≡ false
    unfolding body deny initialise report sign open_signer route submit poll fetch
    body_step_back cr h = ground arith

    reconcile_advanced :
        (cr : CertificateRequest)
        → is_refused (ended_by cm rc env cr) ≡ false
        → is_advanced cr.status.conditions ≡ true
        → is_advanced (after cm rc env cr).status.conditions ≡ true
    reconcile_advanced cr u h = elim (Bool-cases (is_ignored cm rc cr)) [
      | inl ignored ↦ rw (reconcile_ignored cm rc env cr ignored, after) h
      | inr live ↦
          rw (reconcile_kept cm rc env cr live, after)
            (elim (deferred_either cm rc env (ended_by cm rc env cr) (ended cm rc env cr) u) [
              | inl new ↦ rw new (body_advanced cr live h)
              | inr old ↦ rw old (rw (body_stored cm rc env cr) h)
            ])
    ]

    no-IsStepBack :
        (cr : CertificateRequest)
        → is_advanced cr.status.conditions ≡ true
        → ¬ Any IsStepBack (reconcile_found cm rc env cr).1.actions
    no-IsStepBack cr h a = elim (Bool-cases (is_ignored cm rc cr)) [
      | inl ignored ↦ absurd (rw (reconcile_ignored cm rc env cr ignored) at a)
      | inr live ↦
          let b =
            deferred-Any cm rc env IsStepBack (λ k m x. x) (λ c x. x) (ended_by cm rc env cr)
              (ended cm rc env cr) (rw (reconcile_kept cm rc env cr live) at a) in
          cc (live_signed cr live h, body_step_back cr b)
    ]

  after_all-advanced :
      (envs : List Env) (cr : CertificateRequest)
      → Unrefused cm rc envs cr
      → is_advanced cr.status.conditions ≡ true
      → is_advanced (after_all cm rc envs cr).status.conditions ≡ true
  unfolding after_all
  after_all-advanced [] cr u h = h
  after_all-advanced (env ∷ envs) cr u h =
      after_all-advanced envs (after cm rc env cr) u.1 (reconcile_advanced env cr u.0 h)

  -- Once a request counts as signed, and as long as no run ends in an error that speaks of a refusal,
  -- it counts as signed or is done with after any number of runs, and no run submits it or asks for
  -- its task again.
  pub signed_goes_on :
      (envs : List Env) (last : Env) (cr : CertificateRequest)
      → is_signed cr.status.conditions ≡ true
      → Unrefused cm rc envs cr
      → let now = after_all cm rc envs cr in
        (Any (λ c. is_final c ≡ true) now.status.conditions
          ⊎ (is_signed now.status.conditions ≡ true))
        × (¬ Any IsStepBack (reconcile_found cm rc last now).1.actions)
  signed_goes_on envs last cr h u =
      let all = after_all-advanced envs cr u (signed_advanced cr.status.conditions h) in
      (
        advanced_cases (after_all cm rc envs cr).status.conditions all,
        no-IsStepBack last (after_all cm rc envs cr) all,
      )
