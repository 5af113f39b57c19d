-- ===== src/RequestController/Lifecycle/Moves.antt =====
-- What the controller's reports do to the phase of a request.
use cert_manager_essendi_xc.Base.{
  some, List, ◌++◌, ◌≡◌, ◌≢◌, ◌⊎◌, inl, inr, arith, refl, ◌∙◌, sym, subst, ap,
}
use cert_manager_essendi_xc.Base.Text.{Text, codes, has_prefix}
use cert_manager_essendi_xc.IssuerUtil.{says_submitted, says_signed}
use cert_manager_essendi_xc.Request
use cert_manager_essendi_xc.Request.{
  Condition, ready, is_true, is_false, issued, denied, CmUtil, Puts, added, replaced, kept,
}
use cert_manager_essendi_xc.RequestController.Lifecycle.{
  Phase, IsLive, IsSeen, IsUnderWay, Move, initialise, submit, process, approve, sign, issue,
  give_up, deny, retry, ready_of, phase, phase_of, IsWellFormed,
}
use cert_manager_essendi_xc.RequestController.Lifecycle.View.{is_ready_type_other}
use cert_manager_essendi_xc.RequestController.Stages.{
  pending_with, submitted_with, processing_with, approved_with, signed_with,
}

-- The conditions are well-formed, and stand for the phase `p` or for one that a step leads to from it.
pub record Moves (p : Phase) (cs : List Condition) : Type 0 where
  pub well : IsWellFormed cs
  pub moved : (phase cs ≡ p) ⊎ Move p (phase cs)

pub Puts-IsWellFormed :
    (c : Condition) {cs cs' : List Condition}
    → Puts c cs cs'
    → c.type ≡ ready
    → IsWellFormed cs
    → IsWellFormed cs'
Puts-IsWellFormed c added t w = inl (t, tt)
Puts-IsWellFormed c (replaced e) t (inl (_, h)) = inl (t, h)
Puts-IsWellFormed c (replaced e) t (inr (f, w)) = absurd (f.other_type (e ∙ t))
Puts-IsWellFormed c (kept ne r) t (inl (e, h)) = absurd (ne (e ∙ sym t))
Puts-IsWellFormed c (kept ne r) t (inr (f, w)) = inr (f, Puts-IsWellFormed c r t w)

pub Puts-ready_of :
    (c : Condition) {cs cs' : List Condition}
    → Puts c cs cs'
    → c.type ≡ ready
    → ready_of cs' ≡ some c
Puts-ready_of c added t = rw t refl
Puts-ready_of c (replaced e) t = rw t refl
Puts-ready_of c (kept {d} ne r) t =
    rw (is_ready_type_other d.type (λ e. ne (e ∙ sym t))) (Puts-ready_of c r t)

pub stays : (cs : List Condition) → IsWellFormed cs → Moves (phase cs) cs
stays cs w = record { well = w; moved = inl refl }

module _ (cm : CmUtil) where
  -- A new Ready condition moves the request to the phase that it stands for.
  set-Moves :
      (p : Phase) (c : Condition) (cs : List Condition)
      → c.type ≡ ready
      → IsWellFormed cs
      → Move p (phase_of (some c))
      → Moves p (cm.set_condition c cs)
  set-Moves p c cs t w m =
      let e = ap phase_of (Puts-ready_of c (cm.set_condition-Puts c cs) t) in
      record {
        well = Puts-IsWellFormed c (cm.set_condition-Puts c cs) t w;
        moved = inr (subst (Move p) (sym e) m);
      }

  module _ (p : Phase) (cs : List Condition) (w : IsWellFormed cs) where
    pub failed-Moves :
        (message : Text)
        → IsSeen p
        → Moves p (
            cm.set_condition
              (record {
                type = ready;
                status = is_false;
                reason = Request.failed;
                message = message;
              })
              cs)
    failed-Moves message h = set-Moves p _ cs refl w (give_up h)

    pub denied-Moves :
        (message : Text)
        → IsLive p
        → Moves p (
            cm.set_condition
              (record {
                type = ready;
                status = is_false;
                reason = Request.denied;
                message = message;
              })
              cs)
    denied-Moves message h = set-Moves p _ cs refl w (deny h)

    pub issued-Moves :
        (message : Text)
        → p ≡ Phase.signed
        → Moves p (
            cm.set_condition
              (record { type = ready; status = is_true; reason = issued; message = message })
              cs)
    issued-Moves message h =
        set-Moves p _ cs refl w (subst (λ (q : Phase). Move q Phase.issued) (sym h) issue)

    pub initialised-Moves :
        p ≡ Phase.unseen
        → Moves p (cm.set_condition (pending_with (codes "Initialising Ready condition")) cs)
    unfolding says_submitted says_signed has_prefix codes
    initialised-Moves h =
        set-Moves p _ cs refl w (subst (λ (q : Phase). Move q Phase.fresh) (sym h) initialise)

    pub retried-Moves :
        (message : Text)
        → IsSeen p
        → Moves p
            (cm.set_condition (pending_with (codes "Temporary error. Retrying" ++ message)) cs)
    unfolding says_submitted says_signed has_prefix codes
    retried-Moves message h = set-Moves p _ cs refl w (retry h)

    module _ (url : Text) where
      pub submitted-Moves : p ≡ Phase.fresh → Moves p (cm.set_condition (submitted_with url) cs)
      unfolding says_submitted says_signed has_prefix codes
      submitted-Moves h =
          set-Moves p _ cs refl w (subst (λ (q : Phase). Move q Phase.submitted) (sym h) submit)

      pub processing-Moves : IsUnderWay p → Moves p (cm.set_condition (processing_with url) cs)
      unfolding says_submitted says_signed has_prefix codes
      processing-Moves h = set-Moves p _ cs refl w (process h)

      pub approved-Moves : IsUnderWay p → Moves p (cm.set_condition (approved_with url) cs)
      unfolding says_submitted says_signed has_prefix codes
      approved-Moves h = set-Moves p _ cs refl w (approve h)

      pub signed-Moves : IsUnderWay p → Moves p (cm.set_condition (signed_with url) cs)
      unfolding says_submitted says_signed has_prefix codes
      signed-Moves h = set-Moves p _ cs refl w (sign h)

-- Only a signed request is issued.
pub Move-issued : {p q : Phase} → Move p q → q ≡ Phase.issued → p ≡ Phase.signed
Move-issued initialise e = absurd (ground arith)
Move-issued submit e = absurd (ground arith)
Move-issued (process h) e = absurd (ground arith)
Move-issued (approve h) e = absurd (ground arith)
Move-issued (sign h) e = absurd (ground arith)
Move-issued issue e = refl
Move-issued (give_up h) e = absurd (ground arith)
Move-issued (deny h) e = absurd (ground arith)
Move-issued (retry h) e = absurd (ground arith)

pub issued-cases : (p : Phase) → (p ≡ Phase.issued) ⊎ (p ≢ Phase.issued)
issued-cases Phase.issued = inl refl
issued-cases Phase.unseen = inr (λ e. ground arith)
issued-cases Phase.fresh = inr (λ e. ground arith)
issued-cases Phase.submitted = inr (λ e. ground arith)
issued-cases Phase.processing = inr (λ e. ground arith)
issued-cases Phase.approved = inr (λ e. ground arith)
issued-cases Phase.signed = inr (λ e. ground arith)
issued-cases Phase.failed = inr (λ e. ground arith)
issued-cases Phase.denied = inr (λ e. ground arith)
