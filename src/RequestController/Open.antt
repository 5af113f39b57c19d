-- ===== src/RequestController/Open.antt =====
-- Requests that are open for processing, under a pending report.
use cert_manager_essendi_xc.Base.{
  true, false, ◌≡◌, ◌≢◌, arith, none, Bool, inl, inr, refl, sym, List,
}
use cert_manager_essendi_xc.Base.Text.{Text}
use cert_manager_essendi_xc.Request
use cert_manager_essendi_xc.Request.{
  CertificateRequest, Condition, ready, approved, denied, is_true, is_false, CmUtil, Any, HasStatus,
  HasReason, HasType, Puts,
}
use cert_manager_essendi_xc.Request.Laws.{Any-Puts_new, Any-Puts_old, Any-Puts_keep}
use cert_manager_essendi_xc.RequestController.{is_ignored}
use cert_manager_essendi_xc.RequestController.Stages.{pending_with}
use cert_manager_essendi_xc.RequestController.Steps.{Reconciler, put}

-- The request passes the early returns, is not denied, and has a Ready condition.
pub record IsOpen (cm : CmUtil) (rc : Reconciler) (cr : CertificateRequest) : Type 0 where
  pub kept : is_ignored cm rc cr ≡ false
  pub allowed : cm.is_denied cr.status.conditions ≡ false
  pub seen : cm.get_condition cr.status.conditions ready ≢ none

false_of_not : (b : Bool) → ¬ (b ≡ true) → b ≡ false
false_of_not true h = absurd (h refl)
false_of_not false h = refl

module _ (cm : CmUtil) (rc : Reconciler) (message : Text) (cs : List Condition) where
  abbrev new_list : List Condition
  new_list = cm.set_condition (pending_with message) cs

  puts : Puts (pending_with message) cs new_list
  puts = cm.set_condition-Puts (pending_with message) cs

  has_status_kept :
      cm.has_status cs ready is_true ≡ false → cm.has_status new_list ready is_true ≡ false
  has_status_kept h = false_of_not _ λ e.
      elim (Any-Puts_old (HasStatus ready is_true) puts ((cm.has_status_iff _ _ _).0 e)) [
        | inl here ↦ cc here.1
        | inr old ↦ cc (h, (cm.has_status_iff cs ready is_true).1 old)
      ]

  has_reason_kept :
      (r : Request.Reason)
      → r ≢ Request.pending
      → cm.has_reason cs ready is_false r ≡ false
      → cm.has_reason new_list ready is_false r ≡ false
  has_reason_kept r ne h = false_of_not _ λ e.
      elim (Any-Puts_old (HasReason ready is_false r) puts ((cm.has_reason_iff _ _ _ _).0 e)) [
        | inl here ↦ absurd (ne (sym here.2))
        | inr old ↦ cc (h, (cm.has_reason_iff cs ready is_false r).1 old)
      ]

  is_approved_kept : cm.is_approved cs ≡ true → cm.is_approved new_list ≡ true
  is_approved_kept h = (cm.is_approved_iff _).1 (
      Any-Puts_keep (HasStatus approved is_true) puts (λ d p e. cc (p.0, e))
        ((cm.is_approved_iff _).0 h))

  is_denied_kept : cm.is_denied cs ≡ false → cm.is_denied new_list ≡ false
  is_denied_kept h = false_of_not _ λ e.
      elim (Any-Puts_old (HasStatus denied is_true) puts ((cm.is_denied_iff _).0 e)) [
        | inl here ↦ cc here.0
        | inr old ↦ cc (h, (cm.is_denied_iff cs).1 old)
      ]

  seen_now : cm.get_condition new_list ready ≢ none
  seen_now e = (cm.get_condition-eq-none_iff _ _).0 e (Any-Puts_new (HasType ready) puts refl)

module _ (cm : CmUtil) (rc : Reconciler) (message : Text) (cr : CertificateRequest) where
  -- A request that passes the early returns and is not denied is open once a pending report is made.
  pub report-IsOpen :
      is_ignored cm rc cr ≡ false
      → cm.is_denied cr.status.conditions ≡ false
      → IsOpen cm rc (put cm (pending_with message) cr)
  unfolding is_ignored
  report-IsOpen kept allowed =
      let cs = cr.status.conditions in
      record {
        kept = ground (
          arith,
          kept,
          has_status_kept cm rc message cs,
          has_reason_kept cm rc message cs Request.failed,
          has_reason_kept cm rc message cs denied,
          is_approved_kept cm rc message cs,
        );
        allowed = is_denied_kept cm rc message cs allowed;
        seen = seen_now cm rc message cs;
      }

  pub put-IsOpen : IsOpen cm rc cr → IsOpen cm rc (put cm (pending_with message) cr)
  put-IsOpen o = report-IsOpen o.kept o.allowed
