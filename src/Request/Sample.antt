-- ===== src/Request/Sample.antt =====
-- An implementation of the interface to cert-manager's package api/util, for tests.
use cert_manager_essendi_xc.Base.{
  ◌≡◌, ◌≢◌, ◌↔◌, inl, inr, refl, arith, Bool, true, false, ◌&&◌, Option, List, [], ◌∷◌, find,
  if◌then◌else◌, Bool-cases, ap,
}
use cert_manager_essendi_xc.Base.Text.{text_eq}
use cert_manager_essendi_xc.Base.Text.Laws.{text_eq_iff, text_eq_refl}
use cert_manager_essendi_xc.Request
use cert_manager_essendi_xc.Request.{
  Condition, ConditionType, ConditionStatus, Reason, ready, approved, denied, is_true, is_false,
  unknown, Any, HasType, HasStatus, HasReason, Puts, added, replaced, kept, CmUtil,
}

abbrev pub type_eq : ConditionType → ConditionType → Bool
type_eq ready ready = true
type_eq approved approved = true
type_eq Request.ConditionType.denied Request.ConditionType.denied = true
type_eq Request.ConditionType.failed Request.ConditionType.failed = true
type_eq (Request.ConditionType.other s) (Request.ConditionType.other t) = text_eq s t
type_eq _ _ = false

abbrev pub status_eq : ConditionStatus → ConditionStatus → Bool
status_eq is_true is_true = true
status_eq is_false is_false = true
status_eq unknown unknown = true
status_eq _ _ = false

abbrev pub reason_eq : Reason → Reason → Bool
reason_eq Reason.pending Reason.pending = true
reason_eq Reason.failed Reason.failed = true
reason_eq Reason.issued Reason.issued = true
reason_eq Reason.denied Reason.denied = true
reason_eq (Reason.other s) (Reason.other t) = text_eq s t
reason_eq _ _ = false

type_eq-true : (a b : ConditionType) → type_eq a b ≡ true → a ≡ b
type_eq-true (Request.ConditionType.other s) (Request.ConditionType.other t) h =
    ap Request.ConditionType.other ((text_eq_iff s t).0 h)
type_eq-true a b h = ground arith

type_eq_refl : (a : ConditionType) → type_eq a a ≡ true
type_eq_refl (Request.ConditionType.other s) = text_eq_refl s
type_eq_refl _ = refl

status_eq-true : (a b : ConditionStatus) → status_eq a b ≡ true → a ≡ b
status_eq-true a b h = ground arith

status_eq_refl : (a : ConditionStatus) → status_eq a a ≡ true
status_eq_refl is_true = refl
status_eq_refl _ = refl

reason_eq-true : (a b : Reason) → reason_eq a b ≡ true → a ≡ b
reason_eq-true (Reason.other s) (Reason.other t) h = ap Reason.other ((text_eq_iff s t).0 h)
reason_eq-true a b h = ground arith

reason_eq_refl : (a : Reason) → reason_eq a a ≡ true
reason_eq_refl (Reason.other s) = text_eq_refl s
reason_eq_refl _ = refl

-- Some condition passes the test.
abbrev pub any : (Condition → Bool) → List Condition → Bool
any p [] = false
any p (c ∷ cs) = if p c then true else any p cs

pub any_iff :
    (p : Condition → Bool) (P : Condition → Type 0)
    → ((c : Condition) → (p c ≡ true) ↔ P c)
    → (cs : List Condition) → (any p cs ≡ true) ↔ Any P cs
any_iff p P h [] = (λ e. ground arith, λ a. absurd a)
any_iff p P h (c ∷ cs) = elim (Bool-cases (p c)) [
  | inl same ↦ (λ _. inl ((h c).0 same), λ _. rw same refl)
  | inr other ↦ (
    (λ e. inr ((any_iff p P h cs).0 (rw other at e))),
    (λ a. elim a [ inl q ↦ cc (other, (h c).1 q) | inr q ↦ rw other ((any_iff p P h cs).1 q) ]),
  )
]

abbrev pub set : Condition → List Condition → List Condition
set c [] = c ∷ []
set c (d ∷ cs) = if type_eq d.type c.type then c ∷ cs else d ∷ set c cs

pub set-Puts : (c : Condition) (cs : List Condition) → Puts c cs (set c cs)
set-Puts c [] = added
set-Puts c (d ∷ cs) = elim (Bool-cases (type_eq d.type c.type)) [
  | inl same ↦ rw same (replaced (type_eq-true d.type c.type same))
  | inr other ↦ rw other (kept (λ e. cc (other, e, type_eq_refl c.type)) (set-Puts c cs))
]

abbrev pub with_status : ConditionType → ConditionStatus → Condition → Bool
with_status t s c = type_eq c.type t && status_eq c.status s

abbrev pub with_reason : ConditionType → ConditionStatus → Reason → Condition → Bool
with_reason t s r c = type_eq c.type t && (status_eq c.status s && reason_eq c.reason r)

pub with_status_iff :
    (t : ConditionType) (s : ConditionStatus) (c : Condition)
    → (with_status t s c ≡ true) ↔ HasStatus t s c
with_status_iff t s c = (
  (λ h. (type_eq-true c.type t (ground arith), status_eq-true c.status s (ground arith))),
  (λ (a, b). rw (a, b, type_eq_refl, status_eq_refl) refl),
)

pub with_reason_iff :
    (t : ConditionType) (s : ConditionStatus) (r : Reason) (c : Condition)
    → (with_reason t s r c ≡ true) ↔ HasReason t s r c
with_reason_iff t s r c = (
  (λ h. (
    type_eq-true c.type t (ground arith),
    status_eq-true c.status s (ground arith),
    reason_eq-true c.reason r (ground arith),
  )),
  (λ (a, b, d). rw (a, b, d, type_eq_refl, status_eq_refl, reason_eq_refl) refl),
)

some-none : (c : Condition) → Option.some c ≢ Option.none
some-none c e = ground arith

pub find-none :
    (t : ConditionType) (cs : List Condition)
    → (find (λ c. type_eq c.type t) cs ≡ Option.none) ↔ (¬ Any (HasType t) cs)
find-none t [] = (λ _ a. a, λ _. refl)
find-none t (c ∷ cs) = elim (Bool-cases (type_eq c.type t)) [
  | inl same ↦
      (λ e. absurd (some-none c (rw same at e)), λ n. absurd (n (inl (type_eq-true c.type t same))))
  | inr other ↦ (
    (λ e a. elim a [
      | inl q ↦ cc (other, q, type_eq_refl t)
      | inr q ↦ (find-none t cs).0 (rw other at e) q
    ]),
    (λ n. rw other ((find-none t cs).1 (λ q. n (inr q)))),
  )
]

-- The tests read the conditions one by one; the writer goes to the first condition of the type.
abbrev pub cm_util : CmUtil
cm_util = record {
  has_status = λ cs t s. any (with_status t s) cs;
  has_reason = λ cs t s r. any (with_reason t s r) cs;
  is_approved = λ cs. any (with_status approved is_true) cs;
  is_denied = λ cs. any (with_status denied is_true) cs;
  get_condition = λ cs t. find (λ c. type_eq c.type t) cs;
  set_condition = set;
  has_status_iff = λ cs t s. any_iff (with_status t s) (HasStatus t s) (with_status_iff t s) cs;
  has_reason_iff =
      λ cs t s r. any_iff (with_reason t s r) (HasReason t s r) (with_reason_iff t s r) cs;
  is_approved_iff = λ cs.
      any_iff (with_status approved is_true) (HasStatus approved is_true)
        (with_status_iff approved is_true) cs;
  is_denied_iff = λ cs.
      any_iff (with_status denied is_true) (HasStatus denied is_true)
        (with_status_iff denied is_true) cs;
  get_condition-eq-none_iff = λ cs t. find-none t cs;
  set_condition-Puts = set-Puts;
}
