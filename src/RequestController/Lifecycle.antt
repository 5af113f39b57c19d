-- ===== src/RequestController/Lifecycle.antt =====
-- The life of a certificate request as a state machine over phases, which the conditions' messages of
-- `Reconcile` stand for.
pub mod View
pub mod Moves
pub mod Messages
mod Stages
pub mod Refines
use cert_manager_essendi_xc.Base.{
  Option, none, some, List, [], ◌∷◌, ◌≡◌, ◌≢◌, ◌⊎◌, All, false, true, Bool, if◌then◌else◌,
}
use cert_manager_essendi_xc.Base.Text.{has_prefix}
use cert_manager_essendi_xc.Api.{
  issuer_condition_status_processing, issuer_condition_status_approved,
}
use cert_manager_essendi_xc.IssuerUtil.{says_submitted, says_signed}
use cert_manager_essendi_xc.Request
use cert_manager_essendi_xc.Request.{
  Condition, ConditionType, ConditionStatus, Reason, ready, is_true, is_false,
}

pub data Phase : Type 0 where
  unseen fresh submitted processing approved signed issued failed denied : Phase

-- The phases in which the controller does something.
abbrev pub IsLive : Phase → Type 0
IsLive Phase.issued = ⊥
IsLive Phase.failed = ⊥
IsLive Phase.denied = ⊥
IsLive _ = Unit

-- The live phases with a Ready condition.
abbrev pub IsSeen : Phase → Type 0
IsSeen Phase.unseen = ⊥
IsSeen p = IsLive p

-- The CA has the request, and its task is not done.
abbrev pub IsUnderWay : Phase → Type 0
IsUnderWay Phase.submitted = Unit
IsUnderWay Phase.processing = Unit
IsUnderWay Phase.approved = Unit
IsUnderWay _ = ⊥

-- One step of a request's life. A retry starts from the submission again.
pub data Move : Phase → Phase → Type 0 where
  initialise : Move Phase.unseen Phase.fresh
  submit : Move Phase.fresh Phase.submitted
  process : {p : Phase} → IsUnderWay p → Move p Phase.processing
  approve : {p : Phase} → IsUnderWay p → Move p Phase.approved
  sign : {p : Phase} → IsUnderWay p → Move p Phase.signed
  issue : Move Phase.signed Phase.issued
  give_up : {p : Phase} → IsSeen p → Move p Phase.failed
  deny : {p : Phase} → IsLive p → Move p Phase.denied
  retry : {p : Phase} → IsSeen p → Move p Phase.fresh

abbrev pub is_ready_type : ConditionType → Bool
is_ready_type ready = true
is_ready_type _ = false

-- The first Ready condition.
abbrev pub ready_of : List Condition → Option Condition
ready_of [] = none
ready_of (c ∷ cs) = if is_ready_type c.type then some c else ready_of cs

abbrev by_message : Condition → Phase
by_message c =
    if says_signed c
    then Phase.signed
    else if has_prefix c.message issuer_condition_status_approved
    then Phase.approved
    else if has_prefix c.message issuer_condition_status_processing
    then Phase.processing
    else if says_submitted c
    then Phase.submitted
    else Phase.fresh

abbrev by_status : ConditionStatus → Reason → Phase → Phase
by_status is_true _ p = Phase.issued
by_status is_false Request.failed p = Phase.failed
by_status is_false Request.denied p = Phase.denied
by_status _ _ p = p

abbrev pub phase_of : Option Condition → Phase
phase_of none = Phase.unseen
phase_of (some c) = by_status c.status c.reason (by_message c)

-- The phase that the conditions of a request stand for.
abbrev pub phase : List Condition → Phase
phase cs = phase_of (ready_of cs)

-- A condition that is not the controller's.
pub record IsForeign (c : Condition) : Type 0 where
  pub other_type : c.type ≢ ready
  pub no_submitted : says_submitted c ≡ false
  pub no_signed : says_signed c ≡ false

-- There is one Ready condition at most, and no other condition speaks as the controller does.
abbrev pub IsWellFormed : List Condition → Type 0
IsWellFormed [] = Unit
IsWellFormed (c ∷ cs) = ((c.type ≡ ready) × All IsForeign cs) ⊎ (IsForeign c × IsWellFormed cs)
