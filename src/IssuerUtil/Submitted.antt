-- ===== src/IssuerUtil/Submitted.antt =====
-- util.go: how the messages of a certificate request are told apart, and what a condition that the
-- issuer sets means for the next look at them.
use cert_manager_essendi_xc.Base.{
  true, false, none, some, List, [], ◌∷◌, ◌≡◌, ◌≢◌, arith, Bool, find, All, Option-cases, inl, inr,
}
use cert_manager_essendi_xc.Base.Text.{Text, codes, has_prefix}
use cert_manager_essendi_xc.Base.Text.Laws.{has_prefix_clash}
use cert_manager_essendi_xc.Api.{
  issuer_condition_status_processing, issuer_condition_status_approved,
}
use cert_manager_essendi_xc.Request.{Condition, ConditionType, Puts, added, replaced, kept}
use cert_manager_essendi_xc.IssuerUtil.{
  says_submitted, get_submitted_condition, is_submitted, is_approved, is_processing,
}

-- No text begins both as an approved and as a processing message.
approved_not_processing :
    (s : Text)
    → has_prefix s issuer_condition_status_approved ≡ true
    → has_prefix s issuer_condition_status_processing ≡ false
unfolding codes
approved_not_processing s h =
    has_prefix_clash s (codes "Certificate request ") b'a' (codes "pproved") b'i'
      (codes "n progress") (omega arith) h

find-some :
    (p : Condition → Bool) (c : Condition) (cs : List Condition) → find p cs ≡ some c → p c ≡ true
find-some p c [] e = ground arith
find-some p c (d ∷ cs) e = ground (arith, find-some p c cs)

find-none_head :
    (p : Condition → Bool) (d : Condition) (cs : List Condition)
    → find p (d ∷ cs) ≡ none
    → p d ≡ false
find-none_head p d cs e = ground arith

find-none_tail :
    (p : Condition → Bool) (d : Condition) (cs : List Condition)
    → find p (d ∷ cs) ≡ none
    → find p cs ≡ none
find-none_tail p d cs e = ground arith

-- Where no condition of another type passes a test, the condition just set is the one that a test finds, if it
-- passes it.
pub find-Puts :
    (p : Condition → Bool) (c : Condition) {cs cs' : List Condition}
    → Puts c cs cs'
    → All (λ d. d.type ≢ c.type → p d ≡ false) cs
    → p c ≡ true
    → find p cs' ≡ some c
find-Puts p c added q h = rw h
find-Puts p c (replaced e) q h = rw h
find-Puts p c (kept ne r) q h = rw (q.0 ne) (find-Puts p c r q.1 h)

pub find-Puts_none :
    (p : Condition → Bool) (c : Condition) {cs cs' : List Condition}
    → Puts c cs cs'
    → find p cs ≡ none
    → p c ≡ false
    → find p cs' ≡ none
find-Puts_none p c added e h = rw h
find-Puts_none p c (replaced {d} {cs} same) e h = rw h (find-none_tail p d cs e)
find-Puts_none p c (kept {d} {cs} ne r) e h =
    rw (find-none_head p d cs e) (find-Puts_none p c r (find-none_tail p d cs e) h)

pub find-none-All :
    (p : Condition → Bool) (t : ConditionType) (cs : List Condition)
    → find p cs ≡ none
    → All (λ d. d.type ≢ t → p d ≡ false) cs
find-none-All p t [] e = tt
find-none-All p t (d ∷ cs) e =
    ((λ _. find-none_head p d cs e), find-none-All p t cs (find-none_tail p d cs e))

-- A request that counts as approved counts as submitted, and not as in progress.
pub is_approved_submitted :
    (cs : List Condition)
    → is_approved cs ≡ true
    → (is_submitted cs ≡ true) × (is_processing cs ≡ false)
unfolding is_approved is_submitted is_processing
is_approved_submitted cs h = elim (Option-cases (get_submitted_condition cs)) [
  | inl e ↦ absurd (ground arith)
  | inr (c, e) ↦ ground (arith, approved_not_processing c.message)
]

-- A submitted request has a condition that says so.
pub is_submitted_kind :
    (cs : List Condition)
    → is_submitted cs ≡ true
    → (c : Condition) × (get_submitted_condition cs ≡ some c) × (says_submitted c ≡ true)
unfolding is_submitted get_submitted_condition
is_submitted_kind cs h = elim (Option-cases (find says_submitted cs)) [
  | inl e ↦ absurd (ground arith)
  | inr (c, e) ↦ (c, e, find-some says_submitted c cs e)
]
