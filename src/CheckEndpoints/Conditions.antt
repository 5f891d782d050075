-- ===== src/CheckEndpoints/Conditions.antt =====
-- `SetPodNetworkConnectivityCheckCondition` and `manageStatusConditions`: the Reachable condition.
pub mod Laws
use cluster_network_operator.Prelude.{
  ℕ, String, Bool, true, false, ◌||◌, not, List, [], ◌∷◌, ◌++◌, Option, none, some, any, ◌==◌,
  nat_eq, string_eq, if◌then◌else◌, is_some,
}
use cluster_network_operator.CheckEndpoints.Status.{Condition, CheckStatus}
use cluster_network_operator.CheckEndpoints.Outage.{latest, current_outage}

abbrev pub has_type : String → List Condition → Bool
has_type t [] = false
has_type t (c ∷ conditions) = c.type == t || has_type t conditions

-- The time of the last transition moves with the status, and reason and message always follow.
unfoldable pub updated_condition : ℕ → Condition → Condition → Condition
updated_condition now new c = record c {
  status = new.status;
  last_transition_time = if c.status == new.status then c.last_transition_time else now;
  reason = new.reason;
  message = new.message;
}

-- `existingCondition` is the last one of the type.
unfoldable pub update_last : ℕ → Condition → List Condition → List Condition
unfolding updated_condition
update_last now new [] = []
update_last now new (c ∷ conditions) =
    let rest = update_last now new conditions in
    if has_type new.type conditions
    then c ∷ rest
    else if c.type == new.type
    then updated_condition now new c ∷ conditions
    else c ∷ conditions

unfoldable pub set_condition : ℕ → Condition → List Condition → List Condition
unfolding update_last
set_condition now new conditions =
    if has_type new.type conditions
    then update_last now new conditions
    else conditions ++ record new { last_transition_time = now } ∷ []

abbrev pub reachable : String
reachable = "Reachable"

-- the condition that the outages and the newest entries call for
unfoldable pub reachable_condition : CheckStatus → Condition
reachable_condition s =
    if not (is_some (current_outage s.outages))
    then record {
      type = reachable;
      status = "True";
      last_transition_time = 0;
      reason = "TCPConnectSuccess";
      message = (latest s.successes).message;
    }
    else record {
      type = reachable;
      status = "False";
      last_transition_time = 0;
      reason = (latest s.failures).reason;
      message = (latest s.failures).message;
    }

unfoldable pub manage_status_conditions : ℕ → CheckStatus → CheckStatus
unfolding reachable_condition
manage_status_conditions now s = record s {
  conditions = set_condition now (reachable_condition s) s.conditions;
}
