-- ===== src/StatusManager/Publish.antt =====
-- `set`: the conditions go to the operator's own object, and from there to the cluster operator, with
-- the clean-up of related objects on the way. Whether the calls of the API succeed is part of the
-- state of the world. The mirror for HyperShift is left out. A conflict makes the code start the
-- second half again; the model has its last run. A write is left out by the code when nothing has
-- changed, which is the same as writing it, and an object that is created has the status that it was
-- created with.
pub mod Operator
pub mod Mirror
use cluster_network_operator.Prelude.{
  ℕ, String, Bool, true, false, ◌&&◌, not, List, [], ◌∷◌, Option, none, some, ◌==◌, string_eq,
  if◌then◌else◌, Dict, is_some,
}
use mathlib.Core.Option
use cluster_network_operator.StatusManager.Conditions.{
  OperatorCondition, ConditionLibrary, status_of, set_all,
}
use cluster_network_operator.StatusManager.Related.{
  ObjectReference, RelatedApi, delete_related_objects_not_rendered,
}

abbrev pub available : String
available = "Available"

abbrev pub progressing : String
progressing = "Progressing"

abbrev pub degraded : String
degraded = "Degraded"

abbrev pub upgradeable : String
upgradeable = "Upgradeable"

-- a condition as the code writes it: the time of its transition is left to the library
abbrev pub condition : String → String → String → String → OperatorCondition
condition type status reason message = record {
  type = type;
  status = status;
  reason = reason;
  message = message;
  last_transition_time = 0;
}

-- what the functions use of their environment
pub record Environment : Type 0 where
  pub operator_conditions : ConditionLibrary
  pub cluster_conditions : ConditionLibrary
  pub related : RelatedApi
  pub release : String

-- the status of the `network.operator` object
pub record OperatorStatus : Type 0 where
  pub conditions : List OperatorCondition
  pub version : String

pub record ClusterOperator : Type 0 where
  pub conditions : List OperatorCondition
  pub versions : List (String × String)
  pub related_objects : List ObjectReference

-- The objects in the API and which calls succeed. Reading the operator's object fails if there is
-- none; the cluster operator's is created if there is none.
pub record World : Type 0 where
  pub operator : Option OperatorStatus
  pub operator_writable : Bool
  pub cluster_operator : Option ClusterOperator
  pub cluster_readable : Bool
  pub cluster_writable : Bool

-- `StatusManager`, without its informers and its caches of machine configs
pub record StatusManager : Type 0 where
  pub failing : List (Option OperatorCondition)
  pub install_complete : Bool
  pub failure_first_seen : Dict ℕ ℕ
  pub related_objects : Option (List ObjectReference)

abbrev pub empty_cluster_operator : ClusterOperator
empty_cluster_operator = record { conditions = []; versions = []; related_objects = [] }

abbrev pub or_empty : Option ClusterOperator → ClusterOperator
or_empty none = empty_cluster_operator
or_empty (some co) = co

-- what reading the cluster operator gives for its conditions, with nothing for an error
abbrev pub readable_conditions : World → List OperatorCondition
readable_conditions w = if w.cluster_readable then (or_empty w.cluster_operator).conditions else []

abbrev pub is_true : Option OperatorCondition → Bool
is_true none = false
is_true (some c) = c.status == "True"

abbrev pub startup : OperatorCondition
startup = condition available "False" "Startup" "The network is starting up"

module _ (library : ConditionLibrary) where
  -- before the first Available condition, the cluster operator's conditions are the old ones
  unfoldable pub inherited :
      List OperatorCondition → List OperatorCondition → List OperatorCondition
  inherited cluster own =
      if is_some (library.find available own) then own else set_all library cluster own

  unfoldable pub with_startup : List OperatorCondition → List OperatorCondition
  with_startup cs =
      if not (is_some (library.find available cs)) && is_true (library.find progressing cs)
      then library.set startup cs
      else cs

  -- the conditions of the operator's object after those that are set
  unfoldable pub operator_conditions_after :
      List OperatorCondition
      → List OperatorCondition
      → List OperatorCondition
      → List OperatorCondition
  unfolding inherited with_startup
  operator_conditions_after conditions cluster own =
      library.set (condition upgradeable "True" "" "")
        (with_startup (set_all library conditions (inherited cluster own)))

module _ (env : Environment) where
  unfoldable pub operator_status_after :
      List OperatorCondition → World → OperatorStatus → OperatorStatus
  unfolding operator_conditions_after
  operator_status_after conditions w oc = record {
    conditions =
        operator_conditions_after env.operator_conditions conditions (readable_conditions w)
          oc.conditions;
    version = env.release;
  }

  -- the conditions and versions of the cluster operator, from the operator's status if it was read
  unfoldable pub cluster_operator_after :
      Bool → Option OperatorStatus → ClusterOperator → ClusterOperator
  cluster_operator_after reached none co = record co {
    conditions =
        env.cluster_conditions.set
          (condition degraded "True" "NoOperConfig"
            "Failed to get networks.operator.openshift.io cluster")
          co.conditions;
  }
  cluster_operator_after reached (some status) co = record co {
    conditions = set_all env.cluster_conditions status.conditions co.conditions;
    versions = if reached then ("operator", status.version) ∷ [] else co.versions;
  }

  abbrev pub with_related : Option (List ObjectReference) → ClusterOperator → ClusterOperator
  with_related none co = co
  with_related (some related) co = record co { related_objects = related }

  abbrev pub write_operator : Option OperatorStatus → World → World
  write_operator none w = w
  write_operator (some status) w =
      if w.operator_writable then record w { operator = some status } else w

  unfoldable pub write_cluster :
      Bool → Option OperatorStatus → StatusManager → World → StatusManager × World
  unfolding cluster_operator_after
  write_cluster reached status m w =
      let co = or_empty w.cluster_operator in
      let (related, _) =
        delete_related_objects_not_rendered env.related m.install_complete co.related_objects
          m.related_objects in
      let co' = cluster_operator_after reached status (with_related related co) in
      if w.cluster_readable
      then (
        record m { related_objects = related },
        if w.cluster_writable then record w { cluster_operator = some co' } else w,
      )
      else (m, w)

  unfoldable pub set : Bool → List OperatorCondition → StatusManager → World → StatusManager × World
  unfolding operator_status_after write_cluster
  set reached conditions m w =
      let status = Option.map (operator_status_after conditions w) w.operator in
      write_cluster reached status m (write_operator status w)
