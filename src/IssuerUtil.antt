-- ===== src/IssuerUtil.antt =====
-- internal/issuer/util/util.go: conditions of issuers and of certificate requests.
pub mod Ready
pub mod Submitted
mod Tests
use cert_manager_essendi_xc.Base.{
  ℕ, Bool, true, false, ◌||◌, Option, none, some, List, [], ◌∷◌, ◌++◌, find, if◌then◌else◌,
}
use cert_manager_essendi_xc.Base.Text.{Text, codes, has_prefix}
use cert_manager_essendi_xc.Base.Errors.{Outcome, ok, err}
use cert_manager_essendi_xc.Api
use cert_manager_essendi_xc.Api.{
  IssuerSpec, IssuerStatus, IssuerCondition, ConditionStatus, Object, is_ready_type, status_eq,
  issuer_condition_status_submitted, issuer_condition_status_processing,
  issuer_condition_status_approved, issuer_condition_status_signed,
}
use cert_manager_essendi_xc.Request.{Condition}

-- The pointers to spec and status are the values here.
unfoldable pub get_spec_and_status : Object → Outcome (IssuerSpec × IssuerStatus)
get_spec_and_status (Object.issuer t) = ok (t.spec, t.status)
get_spec_and_status (Object.cluster_issuer t) = ok (t.spec, t.status)
get_spec_and_status (Object.foreign shown) =
    err (record { text = codes "not an issuer type: " ++ shown })

abbrev pub is_ready_condition : IssuerCondition → Bool
is_ready_condition c = is_ready_type c.type

unfoldable pub get_ready_condition : IssuerStatus → Option IssuerCondition
get_ready_condition status = find is_ready_condition status.conditions

-- `&IssuerCondition{Type: IssuerConditionReady}`
abbrev pub new_ready : IssuerCondition
new_ready = record {
  type = Api.ready;
  status = Api.unset;
  last_transition_time = none;
  reason = [];
  message = [];
}

-- The assignments through `ready`, which is a copy of the condition that was found.
abbrev pub revise : ℕ → ConditionStatus → Text → Text → IssuerCondition → IssuerCondition
revise now condition_status reason message c = record c {
  status = condition_status;
  last_transition_time =
      if status_eq c.status condition_status then c.last_transition_time else some now;
  reason = reason;
  message = message;
}

-- The loop that writes the copy back at the first Ready condition.
abbrev pub write_back : IssuerCondition → List IssuerCondition → List IssuerCondition
write_back r [] = []
write_back r (c ∷ cs) = if is_ready_condition c then r ∷ cs else c ∷ write_back r cs

abbrev pub set_found :
    (IssuerCondition → IssuerCondition)
    → Option IssuerCondition
    → List IssuerCondition
    → List IssuerCondition
set_found change none cs = write_back (change new_ready) (cs ++ new_ready ∷ [])
set_found change (some c) cs = write_back (change c) cs

-- `now` is the instant of `metav1.Now()`.
unfoldable pub set_ready_condition : ℕ → IssuerStatus → ConditionStatus → Text → Text → IssuerStatus
unfolding get_ready_condition
set_ready_condition now status condition_status reason message = record {
  conditions =
      set_found (revise now condition_status reason message) (get_ready_condition status)
        status.conditions;
}

abbrev pub true_found : Option IssuerCondition → Bool
true_found none = false
true_found (some c) = status_eq c.status Api.is_true

unfoldable pub is_ready : IssuerStatus → Bool
unfolding get_ready_condition
is_ready status = true_found (get_ready_condition status)

-- Certificate requests: what the issuer has written is told by the beginning of a message.

unfoldable pub says_submitted : Condition → Bool
says_submitted c =
    has_prefix c.message issuer_condition_status_submitted
    || has_prefix c.message issuer_condition_status_approved
    || has_prefix c.message issuer_condition_status_processing

unfoldable pub get_submitted_condition : List Condition → Option Condition
get_submitted_condition conditions = find says_submitted conditions

unfoldable pub says_signed : Condition → Bool
says_signed c = has_prefix c.message issuer_condition_status_signed

unfoldable pub get_signed_condition : List Condition → Option Condition
get_signed_condition conditions = find says_signed conditions

abbrev pub is_found : Option Condition → Bool
is_found none = false
is_found (some _) = true

abbrev pub found_begins : Text → Option Condition → Bool
found_begins prefix none = false
found_begins prefix (some c) = has_prefix c.message prefix

unfoldable pub is_submitted : List Condition → Bool
is_submitted conditions = is_found (get_submitted_condition conditions)

unfoldable pub is_approved : List Condition → Bool
is_approved conditions =
    found_begins issuer_condition_status_approved (get_submitted_condition conditions)

unfoldable pub is_processing : List Condition → Bool
is_processing conditions =
    found_begins issuer_condition_status_processing (get_submitted_condition conditions)

unfoldable pub is_signed : List Condition → Bool
is_signed conditions = is_found (get_signed_condition conditions)
