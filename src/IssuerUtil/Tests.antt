-- ===== src/IssuerUtil/Tests.antt =====
-- Conditions of an issuer and of a request.
use cert_manager_essendi_xc.Base.{◌≡◌, refl, some, [], ◌∷◌}
use cert_manager_essendi_xc.Base.Text.{codes}
use cert_manager_essendi_xc.Api
use cert_manager_essendi_xc.Api.{status_eq, IssuerStatus, IssuerCondition}
use cert_manager_essendi_xc.IssuerUtil.{get_ready_condition, set_ready_condition}
use cert_manager_essendi_xc.IssuerUtil.Ready.{
  others, ready_or_new, get_ready_condition-set_ready_condition, IsTransition,
}

abbrev old_condition : IssuerCondition
old_condition = record {
  type = Api.ready;
  status = Api.is_false;
  last_transition_time = some 3;
  reason = [];
  message = [];
}

abbrev old_status : IssuerStatus
old_status = record {
  conditions = record old_condition { type = Api.other (codes "X") } ∷ old_condition ∷ [];
}

-- The transition time changes with the status.
moved :
    get_ready_condition (set_ready_condition 9 old_status Api.is_true [] [])
    ≡ some (record old_condition { status = Api.is_true; last_transition_time = some 9 })
unfolding get_ready_condition set_ready_condition
moved = refl

get_ready_condition-set_ready_condition_example :
    let after = set_ready_condition 9 old_status Api.is_true [] [] in
    (c : IssuerCondition) × (get_ready_condition after ≡ some c)
    × (c.status ≡ Api.is_true)
    × (c.reason ≡ [])
    × (c.message ≡ [])
    × IsTransition 9 (ready_or_new (get_ready_condition old_status)) c
    × (others after.conditions ≡ others old_status.conditions)
get_ready_condition-set_ready_condition_example =
    get_ready_condition-set_ready_condition 9 old_status Api.is_true [] []
