-- ===== src/IssuerUtil/Ready.antt =====
-- util.go: `SetReadyCondition`, `GetReadyCondition` and `IsReady` together.
use cert_manager_essendi_xc.Base.{
  ◌≢◌, ◌⊎◌, sym, Bool-cases, ℕ, true, Option, none, some, List, [], ◌∷◌, ◌++◌, ◌≡◌, refl, arith,
  find, if◌then◌else◌, Option-cases, inl, inr, ◌∙◌,
}
use cert_manager_essendi_xc.Base.Text.{Text}
use cert_manager_essendi_xc.Api
use cert_manager_essendi_xc.Api.{IssuerStatus, IssuerCondition, ConditionStatus, status_eq}
use cert_manager_essendi_xc.IssuerUtil.{
  is_ready_condition, get_ready_condition, new_ready, revise, write_back, set_ready_condition,
  is_ready,
}

-- The conditions of another type, in their order.
abbrev pub others : List IssuerCondition → List IssuerCondition
others [] = []
others (c ∷ cs) = if is_ready_condition c then others cs else c ∷ others cs

abbrev pub ready_or_new : Option IssuerCondition → IssuerCondition
ready_or_new none = new_ready
ready_or_new (some c) = c

find-write_back :
    (r c : IssuerCondition) (cs : List IssuerCondition)
    → is_ready_condition r ≡ true
    → find is_ready_condition cs ≡ some c
    → find is_ready_condition (write_back r cs) ≡ some r
find-write_back r c [] h e = ground arith
find-write_back r c (d ∷ cs) h e = ground (arith, find-write_back r c cs h)

find-write_back_new :
    (r : IssuerCondition) (cs : List IssuerCondition)
    → is_ready_condition r ≡ true
    → find is_ready_condition cs ≡ none
    → find is_ready_condition (write_back r (cs ++ new_ready ∷ [])) ≡ some r
find-write_back_new r [] h e = ground arith
find-write_back_new r (d ∷ cs) h e = ground (arith, find-write_back_new r cs h)

others-write_back :
    (r : IssuerCondition) (cs : List IssuerCondition)
    → is_ready_condition r ≡ true
    → others (write_back r cs) ≡ others cs
others-write_back r [] h = refl
others-write_back r (d ∷ cs) h = ground (arith, others-write_back r cs h)

others-append_new : (cs : List IssuerCondition) → others (cs ++ new_ready ∷ []) ≡ others cs
others-append_new [] = refl
others-append_new (d ∷ cs) = ground (arith, others-append_new cs)

find-is_ready :
    (c : IssuerCondition) (cs : List IssuerCondition)
    → find is_ready_condition cs ≡ some c
    → is_ready_condition c ≡ true
find-is_ready c [] e = ground arith
find-is_ready c (d ∷ cs) e = ground (arith, find-is_ready c cs)

module _ (now : ℕ) (status : IssuerStatus) (s : ConditionStatus) (reason message : Text) where
  abbrev pub revised : IssuerCondition → IssuerCondition
  revised = revise now s reason message

  -- The condition found afterwards is the revision of the one before.
  pub set_ready_condition_lem :
      (get_ready_condition (set_ready_condition now status s reason message)
        ≡ some (revised (ready_or_new (get_ready_condition status))))
      × (others (set_ready_condition now status s reason message).conditions
          ≡ others status.conditions)
  unfolding set_ready_condition
  set_ready_condition_lem = elim (Option-cases (find is_ready_condition status.conditions)) [
    | inl e ↦ rw e (
      find-write_back_new (revised new_ready) status.conditions refl e,
      others-write_back (revised new_ready) (status.conditions ++ new_ready ∷ []) refl
          ∙ others-append_new status.conditions,
    )
    | inr (c, e) ↦
        let r = find-is_ready c status.conditions e in
        rw e (
          find-write_back (revised c) c status.conditions r e,
          others-write_back (revised c) status.conditions r,
        )
  ]

  -- The issuer is ready after the call exactly when the status given is True.
  pub is_ready-set_ready_condition :
      is_ready (set_ready_condition now status s reason message) ≡ status_eq s Api.is_true
  unfolding is_ready
  is_ready-set_ready_condition = rw (set_ready_condition_lem.0, get_ready_condition) refl

status_eq-true : (s t : ConditionStatus) → status_eq s t ≡ true → s ≡ t
status_eq-true s t h = ground arith

status_eq_refl : (s : ConditionStatus) → status_eq s s ≡ true
status_eq_refl Api.unset = refl
status_eq_refl _ = refl

-- The transition time of `new` is that of `old` if its status did not change, and otherwise `now`.
abbrev pub IsTransition : ℕ → IssuerCondition → IssuerCondition → Type 0
IsTransition now old new =
    ((new.status ≡ old.status) × (new.last_transition_time ≡ old.last_transition_time))
    ⊎ ((new.status ≢ old.status) × (new.last_transition_time ≡ some now))

revise-IsTransition :
    (now : ℕ) (s : ConditionStatus) (reason message : Text) (c : IssuerCondition)
    → IsTransition now c (revise now s reason message c)
revise-IsTransition now s reason message c = elim (Bool-cases (status_eq c.status s)) [
  | inl same ↦ inl (sym (status_eq-true c.status s same), rw same refl)
  | inr other ↦ inr ((λ e. cc (other, e, status_eq_refl s)), rw other refl)
]

-- After the call there is a Ready condition with the given status, reason and message. Its transition
-- time is that of the condition before, or of a new one, if the status is the same, and otherwise the
-- current time; conditions of another type stay as they were.
pub get_ready_condition-set_ready_condition :
    (now : ℕ) (status : IssuerStatus) (s : ConditionStatus) (reason message : Text)
    → let after = set_ready_condition now status s reason message in
      (c : IssuerCondition) × (get_ready_condition after ≡ some c)
      × (c.status ≡ s)
      × (c.reason ≡ reason)
      × (c.message ≡ message)
      × IsTransition now (ready_or_new (get_ready_condition status)) c
      × (others after.conditions ≡ others status.conditions)
get_ready_condition-set_ready_condition now status s reason message =
    let (found_now, kept_others) = set_ready_condition_lem now status s reason message in
    (
      _,
      found_now,
      refl,
      refl,
      refl,
      revise-IsTransition now s reason message (ready_or_new (get_ready_condition status)),
      kept_others,
    )

write_back-find :
    (c : IssuerCondition) (cs : List IssuerCondition)
    → find is_ready_condition cs ≡ some c
    → write_back c cs ≡ cs
write_back-find c [] e = refl
write_back-find c (d ∷ cs) e = ground (arith, write_back-find c cs)

set_ready_condition_found :
    (now : ℕ) (status : IssuerStatus) (s : ConditionStatus) (reason message : Text)
    (c : IssuerCondition)
    → get_ready_condition status ≡ some c
    → revise now s reason message c ≡ c
    → set_ready_condition now status s reason message ≡ status
unfolding set_ready_condition
set_ready_condition_found now status s reason message c e same =
    rw e (rw same λ i. record { conditions = write_back-find c status.conditions e i })

revise-revise :
    (now later : ℕ) (s : ConditionStatus) (reason message : Text) (c : IssuerCondition)
    → revise later s reason message (revise now s reason message c) ≡ revise now s reason message c
revise-revise now later s reason message c = rw (status_eq_refl s) refl

-- Reporting the same outcome again changes nothing, the transition time included.
pub set_ready_condition_idempotent :
    (now later : ℕ) (status : IssuerStatus) (s : ConditionStatus) (reason message : Text)
    → set_ready_condition later (set_ready_condition now status s reason message) s reason message
      ≡ set_ready_condition now status s reason message
set_ready_condition_idempotent now later status s reason message =
    set_ready_condition_found later _ s reason message _
      (set_ready_condition_lem now status s reason message).0
      (revise-revise now later s reason message (ready_or_new (get_ready_condition status)))
