-- ===== src/RequestController/Settled/Body.antt =====
-- The body of `Reconcile` on a settled request, and what the deferred function stores.
use cert_manager_essendi_xc.Base.{
  true, false, List, [], ◌∷◌, ◌≡◌, ◌⊎◌, inl, inr, refl, arith, none, ◌||◌, Bool-cases,
}
use cert_manager_essendi_xc.Base.Text.{codes}
use cert_manager_essendi_xc.IssuerUtil.{
  is_submitted, is_signed, get_submitted_condition, get_signed_condition,
}
use cert_manager_essendi_xc.Request
use cert_manager_essendi_xc.Request.{
  CertificateRequest, Condition, ready, is_true, is_false, issued, denied, CmUtil, Puts, added,
  replaced, kept, Any, HasStatus, HasReason, HasType,
}
use cert_manager_essendi_xc.RequestController.{
  is_ignored, deny, initialise, sign, body, submit, poll, fetch, route, open_signer, deferred,
  retry_report,
}
use cert_manager_essendi_xc.RequestController.Deferred.{start, ended, ended_by, is_refused}
use cert_manager_essendi_xc.RequestController.Stages.{pending_with}
use cert_manager_essendi_xc.RequestController.Settled.{
  is_final, settles, is_settled, sign_settled, set_settles, submitted_settles,
}
use cert_manager_essendi_xc.RequestController.Steps.{
  Action, submitted, Reconciler, Env, Run, Exit, report, returned, Result,
}

abbrev pub IsSubmission : Action → Type 0
IsSubmission (submitted _) = Unit
IsSubmission _ = ⊥

is_settled-Puts_added :
    (c : Condition) {cs cs' : List Condition}
    → Puts c cs cs'
    → ¬ Any (HasType c.type) cs
    → is_settled cs ≡ true
    → is_settled cs' ≡ true
unfolding is_settled
is_settled-Puts_added c added new h = cc
is_settled-Puts_added c (replaced e) new h = absurd (new (inl e))
is_settled-Puts_added c (kept {d} ne r) new h = elim (Bool-cases (settles d)) [
  | inl here ↦ rw here refl
  | inr later ↦ rw later (is_settled-Puts_added c r (λ a. new (inr a)) (rw later at h))
]

-- A settled request that is not done with counts as signed or as submitted.
settled_cases :
    (cs : List Condition)
    → is_settled cs ≡ true
    → Any (λ c. is_final c ≡ true) cs ⊎ (is_signed cs || is_submitted cs ≡ true)
unfolding is_settled settles is_signed is_submitted get_signed_condition get_submitted_condition
settled_cases [] h = cc
settled_cases (c ∷ cs) h = ground (arith, settled_cases cs)

abbrev FinalAmong : List Condition → Type 0
FinalAmong cs =
    Any (HasStatus ready is_true) cs
    ⊎ (Any (HasReason ready is_false Request.failed) cs ⊎ Any (HasReason ready is_false denied) cs)

final_here : (c : Condition) (cs : List Condition) → is_final c ≡ true → FinalAmong (c ∷ cs)
final_here c cs h = ground arith

final_among : (cs : List Condition) → Any (λ c. is_final c ≡ true) cs → FinalAmong cs
final_among (c ∷ cs) (inl h) = final_here c cs h
final_among (c ∷ cs) (inr h) = elim (final_among cs h) [
  | inl a ↦ inl (inr a)
  | inr (inl a) ↦ inr (inl (inr a))
  | inr (inr a) ↦ inr (inr (inr a))
]
final_among [] h = absurd h

module _ (cm : CmUtil) (rc : Reconciler) where
  pub final_ignored :
      (cr : CertificateRequest)
      → Any (λ c. is_final c ≡ true) cr.status.conditions
      → is_ignored cm rc cr ≡ true
  unfolding is_ignored
  final_ignored cr h =
      let cs = cr.status.conditions in
      elim (final_among cs h) [
        | inl a ↦ ground (arith, (cm.has_status_iff cs ready is_true).1 a)
        | inr (inl a) ↦ ground (arith, (cm.has_reason_iff cs ready is_false Request.failed).1 a)
        | inr (inr a) ↦ ground (arith, (cm.has_reason_iff cs ready is_false denied).1 a)
      ]

  pub under_way :
      (cr : CertificateRequest)
      → is_ignored cm rc cr ≡ false
      → is_settled cr.status.conditions ≡ true
      → is_signed cr.status.conditions || is_submitted cr.status.conditions ≡ true
  under_way cr live h = elim (settled_cases cr.status.conditions h) [
    | inl final ↦ cc (live, final_ignored cr final)
    | inr k ↦ k
  ]

  module _ (env : Env) where
    deny_settled : (r : Run) → is_settled (deny cm rc env r).1.request.status.conditions ≡ true
    unfolding deny report settles
    deny_settled r = set_settles cm rc env _ r.request.status.conditions refl

    initialise_settled :
        (r : Run)
        → cm.get_condition r.request.status.conditions ready ≡ none
        → is_settled r.request.status.conditions ≡ true
        → is_settled (initialise cm rc env r).1.request.status.conditions ≡ true
    unfolding initialise report
    initialise_settled r new h =
        is_settled-Puts_added (pending_with (codes "Initialising Ready condition"))
          (cm.set_condition-Puts _ _) ((cm.get_condition-eq-none_iff _ _).0 new) h

    -- The body of a run leaves a settled request settled.
    pub body_settled :
        (cr : CertificateRequest)
        → is_ignored cm rc cr ≡ false
        → is_settled cr.status.conditions ≡ true
        → is_settled (ended cm rc env cr).request.status.conditions ≡ true
    unfolding body
    body_settled cr live h = ground (
      arith,
      deny_settled (start cr),
      initialise_settled (start cr),
      sign_settled cm rc env (start cr) h (under_way cr live h),
    )

    pub body_submission :
        (cr : CertificateRequest)
        → Any IsSubmission (ended cm rc env cr).actions
        → is_signed cr.status.conditions || is_submitted cr.status.conditions ≡ false
    unfolding body deny initialise report sign open_signer route submit poll fetch
    body_submission cr h = ground arith

    pub body_stored : (cr : CertificateRequest) → (ended cm rc env cr).stored ≡ cr
    unfolding body deny initialise report sign open_signer route submit poll fetch
    body_stored cr = ground arith

    pub submit_settles :
        (cr : CertificateRequest) (n : Result)
        → Any IsSubmission (ended cm rc env cr).actions
        → ended_by cm rc env cr ≡ returned n none
        → is_settled (ended cm rc env cr).request.status.conditions ≡ true
    unfolding body deny initialise report sign open_signer route submit poll fetch
    submit_settles cr n h e = grind (arith, submitted_settles cm rc env)

    pub retry_report_stored : (e : Exit) (r : Run) → (retry_report cm rc env e r).stored ≡ r.stored
    unfolding report
    retry_report_stored e r = ground arith

    -- What is stored in the end: the body's request, or what was there.
    pub deferred_either :
        (e : Exit) (r : Run)
        → is_refused e ≡ false
        → ((deferred cm rc env e r).1.stored ≡ r.request)
          ⊎ ((deferred cm rc env e r).1.stored ≡ r.stored)
    unfolding deferred report
    deferred_either e r h = ground arith

    pub deferred_returned :
        (e : Exit) (r : Run) (n : Result)
        → (deferred cm rc env e r).0 ≡ returned n none
        → (e ≡ returned n none) × ((deferred cm rc env e r).1.stored ≡ r.request)
    unfolding deferred report
    deferred_returned e r n h = ground arith
