-- ===== src/RequestController/Lifecycle/View.antt =====
-- What the tests of `Reconcile` say of the phase of a request.
use cert_manager_essendi_xc.Base.{
  Option, none, some, List, [], ◌∷◌, ◌≡◌, ◌≢◌, inl, inr, All, false, true, Bool, find, arith, refl,
  Option-cases, if◌then◌else◌, ap, ◌∙◌, sym, subst, Bool-cases,
}
use cert_manager_essendi_xc.IssuerUtil.{
  says_submitted, says_signed, is_submitted, is_signed, get_submitted_condition,
  get_signed_condition,
}
use cert_manager_essendi_xc.Request.{
  CertificateRequest, Condition, ConditionType, ready, CmUtil, Any, HasType,
}
use cert_manager_essendi_xc.RequestController.Lifecycle.{
  Phase, IsLive, IsSeen, IsUnderWay, is_ready_type, ready_of, phase, phase_of, by_message,
  IsForeign, IsWellFormed,
}
use cert_manager_essendi_xc.RequestController.{is_ignored}
use cert_manager_essendi_xc.RequestController.Settled.{is_final}
use cert_manager_essendi_xc.RequestController.Settled.Body.{final_ignored}
use cert_manager_essendi_xc.RequestController.Steps.{Reconciler}

pub is_ready_type_other : (t : ConditionType) → t ≢ ready → is_ready_type t ≡ false
is_ready_type_other t h = ground arith

-- A test that only the controller's conditions pass finds the Ready condition or none.
abbrev passing : (Condition → Bool) → Option Condition → Option Condition
passing p none = none
passing p (some c) = if p c then some c else none

module _ (p : Condition → Bool) (quiet : (c : Condition) → IsForeign c → p c ≡ false) where
  find-foreign : (cs : List Condition) → All IsForeign cs → find p cs ≡ none
  find-foreign [] h = refl
  find-foreign (c ∷ cs) h = rw (quiet c h.0) (find-foreign cs h.1)

  find-ready_of : (cs : List Condition) → IsWellFormed cs → find p cs ≡ passing p (ready_of cs)
  find-ready_of [] w = refl
  find-ready_of (c ∷ cs) (inl (e, h)) = rw (e, find-foreign cs h) refl
  find-ready_of (c ∷ cs) (inr (f, w)) =
      rw (quiet c f, is_ready_type_other c.type f.other_type) (find-ready_of cs w)

ready_of-Any :
    (P : Condition → Type 0) (c : Condition) (cs : List Condition)
    → ready_of cs ≡ some c
    → P c
    → Any P cs
ready_of-Any P c [] e h = absurd (ground arith)
ready_of-Any P c (d ∷ cs) e h = elim (Bool-cases (is_ready_type d.type)) [
  | inl t ↦ inl (subst P (sym (some_injective (rw t at e))) h)
  | inr t ↦ inr (ready_of-Any P c cs (rw t at e) h)
]
  where
    some_injective : {a b : Condition} → some a ≡ some b → a ≡ b
    some_injective {a} h = ap (λ (o : Option Condition). elim o [ none ↦ a | some x ↦ x ]) h

ready_of-ready : (c : Condition) (cs : List Condition) → ready_of cs ≡ some c → c.type ≡ ready
ready_of-ready c [] e = ground arith
ready_of-ready c (d ∷ cs) e = ground (arith, ready_of-ready c cs)

ready_of-HasType : (cs : List Condition) → Any (HasType ready) cs → ready_of cs ≢ none
ready_of-HasType (c ∷ cs) (inl e) n = absurd (ground arith)
ready_of-HasType (c ∷ cs) (inr h) n = ground (arith, ready_of-HasType cs h)
ready_of-HasType [] h n = h

module _ (cs : List Condition) (w : IsWellFormed cs) where
  pub signed-ready_of : find says_signed cs ≡ passing says_signed (ready_of cs)
  signed-ready_of = find-ready_of says_signed (λ c f. f.no_signed) cs w

  pub submitted-ready_of : find says_submitted cs ≡ passing says_submitted (ready_of cs)
  submitted-ready_of = find-ready_of says_submitted (λ c f. f.no_submitted) cs w

unfinished_phase :
    (c : Condition) → is_final c ≡ false → c.type ≡ ready → phase_of (some c) ≡ by_message c
unfinished_phase c h t = ground arith

by_message-IsSeen : (c : Condition) → IsSeen (by_message c)
by_message-IsSeen c = ground arith

by_message-IsLive : (c : Condition) → IsLive (by_message c)
by_message-IsLive c = ground arith

by_message-IsUnderWay :
    (c : Condition) → says_signed c ≡ false → says_submitted c ≡ true → IsUnderWay (by_message c)
by_message-IsUnderWay c u h = ground arith

by_message-fresh :
    (c : Condition) → says_signed c ≡ false → says_submitted c ≡ false → by_message c ≡ Phase.fresh
unfolding says_submitted
by_message-fresh c u h = ground arith

module _ (cm : CmUtil) (rc : Reconciler) (cr : CertificateRequest)
    (live : is_ignored cm rc cr ≡ false) where
  -- The phase of a request that is not ignored is told by its Ready condition's message.
  live_phase :
      (c : Condition)
      → ready_of cr.status.conditions ≡ some c
      → phase cr.status.conditions ≡ by_message c
  unfolding is_ignored
  live_phase c e =
      let cs = cr.status.conditions in
      rw e (
        unfinished_phase c
          (elim (Bool-cases (is_final c)) [
            | inl f ↦
                cc (live, final_ignored cm rc cr (ready_of-Any (λ d. is_final d ≡ true) c cs e f))
            | inr n ↦ n
          ])
          (ready_of-ready c cs e))

  pub live-IsSeen : ready_of cr.status.conditions ≢ none → IsSeen (phase cr.status.conditions)
  live-IsSeen n = elim (Option-cases (ready_of cr.status.conditions)) [
    | inl e ↦ absurd (n e)
    | inr (c, e) ↦ subst IsSeen (sym (live_phase c e)) (by_message-IsSeen c)
  ]

  module _ (w : IsWellFormed cr.status.conditions) where
    pub signed_phase :
        is_signed cr.status.conditions ≡ true → phase cr.status.conditions ≡ Phase.signed
    unfolding is_signed get_signed_condition
    signed_phase h = elim (Option-cases (ready_of cr.status.conditions)) [
      | inl e ↦ ground (arith, signed-ready_of cr.status.conditions w, e)
      | inr (c, e) ↦ live_phase c e ∙ ground (arith, signed-ready_of cr.status.conditions w, e)
    ]

    unsigned_phase :
        (c : Condition)
        → ready_of cr.status.conditions ≡ some c
        → is_signed cr.status.conditions ≡ false
        → says_signed c ≡ false
    unfolding is_signed get_signed_condition
    unsigned_phase c e h = ground (arith, signed-ready_of cr.status.conditions w, e)

    pub IsUnderWay-phase :
        is_signed cr.status.conditions ≡ false
        → is_submitted cr.status.conditions ≡ true
        → IsUnderWay (phase cr.status.conditions)
    unfolding is_submitted get_submitted_condition
    IsUnderWay-phase u h = elim (Option-cases (ready_of cr.status.conditions)) [
      | inl e ↦ ground (arith, submitted-ready_of cr.status.conditions w, e)
      | inr (c, e) ↦ subst IsUnderWay (sym (live_phase c e)) (
          by_message-IsUnderWay c (unsigned_phase c e u)
            (ground (arith, submitted-ready_of cr.status.conditions w, e)))
    ]

    pub fresh-phase :
        is_signed cr.status.conditions ≡ false
        → is_submitted cr.status.conditions ≡ false
        → ready_of cr.status.conditions ≢ none
        → phase cr.status.conditions ≡ Phase.fresh
    unfolding is_submitted get_submitted_condition
    fresh-phase u h n = elim (Option-cases (ready_of cr.status.conditions)) [
      | inl e ↦ absurd (n e)
      | inr (c, e) ↦
          live_phase c e
          ∙ by_message-fresh c (unsigned_phase c e u)
              (ground (arith, submitted-ready_of cr.status.conditions w, e))
    ]

  pub phase-IsLive : IsLive (phase cr.status.conditions)
  phase-IsLive = elim (Option-cases (ready_of cr.status.conditions)) [
    | inl e ↦ rw e tt
    | inr (c, e) ↦ subst IsLive (sym (live_phase c e)) (by_message-IsLive c)
  ]

  pub get_condition-ready_of :
      cm.get_condition cr.status.conditions ready ≢ none → ready_of cr.status.conditions ≢ none
  get_condition-ready_of n e =
      let cs = cr.status.conditions in
      n ((cm.get_condition-eq-none_iff cs ready).1 (λ a. ready_of-HasType cs a e))

  pub unseen_phase :
      cm.get_condition cr.status.conditions ready ≡ none → phase cr.status.conditions ≡ Phase.unseen
  unseen_phase n =
      let cs = cr.status.conditions in
      elim (Option-cases (ready_of cs)) [
        | inl e ↦ rw e refl
        | inr (c, e) ↦ absurd (
            (cm.get_condition-eq-none_iff cs ready).0 n
              (ready_of-Any (HasType ready) c cs e (ready_of-ready c cs e)))
      ]
