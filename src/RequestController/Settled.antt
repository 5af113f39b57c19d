-- ===== src/RequestController/Settled.antt =====
-- Conditions that tell that a request was submitted, signed or ended, and the stages on them.
pub mod Body
use cert_manager_essendi_xc.Base.{
  true, false, List, [], ◌∷◌, ◌++◌, ◌≡◌, ◌≢◌, ◌⊎◌, inl, inr, refl, sym, arith, some, none, Option,
  Bool, ◌||◌, Bool-cases,
}
use cert_manager_essendi_xc.Base.Text.{Text, codes, has_prefix, text_eq}
use cert_manager_essendi_xc.Api.{group}
use cert_manager_essendi_xc.IssuerUtil
use cert_manager_essendi_xc.IssuerUtil.{
  says_submitted, says_signed, is_submitted, is_signed, get_submitted_condition,
  get_signed_condition,
}
use cert_manager_essendi_xc.Request
use cert_manager_essendi_xc.Request.{
  CertificateRequest, Condition, ConditionType, ConditionStatus, Reason, ready, is_true, is_false,
  issued, denied, CmUtil, Puts, added, replaced, kept, Any, HasStatus, HasReason,
}
use cert_manager_essendi_xc.Signer.{Signer}
use cert_manager_essendi_xc.RequestController.{
  is_ignored, deny, initialise, sign, body, submit, poll, await, fetch, route, open_signer,
  status_message,
}
use cert_manager_essendi_xc.RequestController.Deferred.{start}
use cert_manager_essendi_xc.RequestController.Stages.{
  pending_with, submitted_with, processing_with, approved_with, signed_with,
}
use cert_manager_essendi_xc.RequestController.Steps.{
  Action, event, refreshed, submitted, polled, fetched, updated, Reconciler, Env, Run, report, go,
}

-- The Ready conditions at which the controller stops.
abbrev ends : ConditionType → ConditionStatus → Reason → Bool
ends ready is_true _ = true
ends ready is_false Request.failed = true
ends ready is_false denied = true
ends _ _ _ = false

abbrev pub is_final : Condition → Bool
is_final c = ends c.type c.status c.reason

unfoldable pub settles : Condition → Bool
settles c = is_final c || says_submitted c || says_signed c

-- Some condition says that the request was submitted or signed, or that it is done with.
unfoldable pub is_settled : List Condition → Bool
is_settled [] = false
is_settled (c ∷ cs) = settles c || is_settled cs

is_settled-Puts :
    (c : Condition) {cs cs' : List Condition}
    → Puts c cs cs'
    → settles c ≡ true
    → is_settled cs' ≡ true
unfolding is_settled
is_settled-Puts c added h = rw h refl
is_settled-Puts c (replaced e) h = rw h refl
is_settled-Puts c (kept ne r) h = ground (arith, is_settled-Puts c r h)

module _ (cm : CmUtil) (rc : Reconciler) (env : Env) where
  pub set_settles :
      (c : Condition) (cs : List Condition)
      → settles c ≡ true
      → is_settled (cm.set_condition c cs) ≡ true
  set_settles c cs h = is_settled-Puts c (cm.set_condition-Puts c cs) h

  failed_settles :
      (message : Text) (cs : List Condition)
      → is_settled (
          cm.set_condition
            (record { type = ready; status = is_false; reason = Request.failed; message = message })
            cs)
        ≡ true
  unfolding settles
  failed_settles message cs = set_settles _ cs refl

  issued_settles :
      (cs : List Condition)
      → is_settled (
          cm.set_condition
            (record { type = ready; status = is_true; reason = issued; message = codes "Signed" })
            cs)
        ≡ true
  unfolding settles
  issued_settles cs = set_settles _ cs refl

  pending_settles :
      (message : Text) (cs : List Condition)
      → says_submitted (pending_with message) || says_signed (pending_with message) ≡ true
      → is_settled (cm.set_condition (pending_with message) cs) ≡ true
  unfolding settles
  pending_settles message cs h = set_settles (pending_with message) cs h

  pub submitted_settles :
      (url : Text) (cs : List Condition)
      → is_settled (cm.set_condition (submitted_with url) cs) ≡ true
  unfolding says_submitted codes has_prefix
  submitted_settles url cs = pending_settles _ cs refl

  processing_settles :
      (url : Text) (cs : List Condition)
      → is_settled (cm.set_condition (processing_with url) cs) ≡ true
  unfolding says_submitted codes has_prefix
  processing_settles url cs = pending_settles _ cs refl

  approved_settles :
      (url : Text) (cs : List Condition)
      → is_settled (cm.set_condition (approved_with url) cs) ≡ true
  unfolding says_submitted codes has_prefix
  approved_settles url cs = pending_settles _ cs refl

  signed_settles :
      (url : Text) (cs : List Condition) → is_settled (cm.set_condition (signed_with url) cs) ≡ true
  unfolding says_submitted says_signed codes has_prefix
  signed_settles url cs = pending_settles _ cs refl

  fetch_settled :
      (s : Signer) (t : Text) (r : Run)
      → is_settled r.request.status.conditions ≡ true
      → is_settled (fetch cm rc env s t r.request.status.conditions r).1.request.status.conditions
        ≡ true
  unfolding fetch report
  fetch_settled s t r h = ground (arith, issued_settles r.request.status.conditions)

  poll_settled :
      (s : Signer) (t : Text) (r : Run)
      → is_settled r.request.status.conditions ≡ true
      → is_settled (poll cm rc env s t r.request.status.conditions r).1.request.status.conditions
        ≡ true
  unfolding poll report
  poll_settled s t r h =
      grind (arith, failed_settles, processing_settles, approved_settles, signed_settles)

  open_settled :
      (r : Run)
      → is_settled r.request.status.conditions ≡ true
      → is_settled (open_signer cm rc env r).1.request.status.conditions ≡ true
  unfolding open_signer report
  open_settled r h = grind (arith, failed_settles)

  pub open_kept :
      (r : Run) (s : Signer) → (open_signer cm rc env r).0 ≡ go s → (open_signer cm rc env r).1 ≡ r
  unfolding open_signer report
  open_kept r s h = ground arith

  route_settled :
      (s : Signer) (t : Text) (r : Run)
      → is_settled r.request.status.conditions ≡ true
      → is_signed r.request.status.conditions || is_submitted r.request.status.conditions ≡ true
      → is_settled (route cm rc env s t r.request r).1.request.status.conditions ≡ true
  unfolding route
  route_settled s t r h k = ground (arith, fetch_settled s t r, poll_settled s t r)

  pub sign_settled :
      (r : Run)
      → is_settled r.request.status.conditions ≡ true
      → is_signed r.request.status.conditions || is_submitted r.request.status.conditions ≡ true
      → is_settled (sign cm rc env r).1.request.status.conditions ≡ true
  unfolding sign
  sign_settled r h k = grind (arith, open_kept, open_settled, route_settled)
