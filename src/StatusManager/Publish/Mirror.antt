-- ===== src/StatusManager/Publish/Mirror.antt =====
-- What the two objects report after `set`.
use cluster_network_operator.Prelude.{
  String, ◌≡◌, ◌≢◌, refl, ◌∙◌, ap, Bool, true, List, [], ◌∷◌, Option, none, some, string_eq,
  string_eq, is_some,
}
use cluster_network_operator.StatusManager.Conditions.{
  OperatorCondition, IsConditionLibrary, status_of, Distinct, set_all, status-set_all, find-agree,
}
use cluster_network_operator.StatusManager.Related.{
  ObjectReference, delete_related_objects_not_rendered,
}
use cluster_network_operator.StatusManager.Publish.{
  with_related, available, upgradeable, Environment, OperatorStatus, ClusterOperator, World,
  StatusManager, operator_status_after, cluster_operator_after, write_cluster, set,
}
use cluster_network_operator.StatusManager.Publish.Operator.{
  operator_conditions-Distinct, operator_conditions-report, operator_conditions-keep,
  operator_conditions-available,
}

-- the status that an object reports for a type of condition
abbrev pub reported : Environment → String → World → Option String
reported env t w = of w.operator
  where
    of : Option OperatorStatus → Option String
    of none = none
    of (some status) = status_of (env.operator_conditions.find t status.conditions)

abbrev pub published : Environment → String → World → Option String
published env t w = of w.cluster_operator
  where
    of : Option ClusterOperator → Option String
    of none = none
    of (some co) = status_of (env.cluster_conditions.find t co.conditions)

-- both libraries keep their promises
pub record IsLawful (env : Environment) : Type 0 where
  pub operator : IsConditionLibrary env.operator_conditions
  pub cluster : IsConditionLibrary env.cluster_conditions

-- The objects exist and every call of the API succeeds. `has_available` holds from the first time on
-- that a condition was set while the network was progressing.
pub record IsReachable (env : Environment) (w : World) : Type 0 where
  pub oc : OperatorStatus
  pub co : ClusterOperator
  pub has_operator : w.operator ≡ some oc
  pub has_cluster_operator : w.cluster_operator ≡ some co
  pub operator_writable : w.operator_writable ≡ true
  pub cluster_readable : w.cluster_readable ≡ true
  pub cluster_writable : w.cluster_writable ≡ true
  pub distinct : Distinct oc.conditions
  pub has_available : is_some (env.operator_conditions.find available oc.conditions) ≡ true

conditions-with_related :
    (related : Option (List ObjectReference)) (env : Environment) (co : ClusterOperator)
    → (with_related env related co).conditions ≡ co.conditions
conditions-with_related none env co = refl
conditions-with_related (some related) env co = refl

module _ (env : Environment) (lawful : IsLawful env) (reached : Bool) (c : OperatorCondition)
    (m : StatusManager) (w : World) (ready : IsReachable env w) where
  abbrev after : World
  after = (set env reached (c ∷ []) m w).1

  status : OperatorStatus
  status = operator_status_after env (c ∷ []) (w) ready.oc

  set-operator : after.operator ≡ some status
  unfolding set write_cluster status
  set-operator =
      rw (
        ready.has_operator, ready.operator_writable, ready.cluster_readable, ready.cluster_writable,
      )

  after_co : ClusterOperator
  after_co = cluster_operator_after env reached (some status) (
      with_related env
        (delete_related_objects_not_rendered env.related m.install_complete ready.co.related_objects
          m.related_objects).0
        ready.co)

  set-cluster : after.cluster_operator ≡ some after_co
  unfolding set write_cluster status after_co
  set-cluster = rw (
    ready.has_operator, ready.has_cluster_operator, ready.operator_writable, ready.cluster_readable,
    ready.cluster_writable,
  )

  after_co-conditions :
      after_co.conditions ≡ set_all env.cluster_conditions status.conditions ready.co.conditions
  unfolding after_co cluster_operator_after
  after_co-conditions =
      ap (set_all env.cluster_conditions status.conditions) (conditions-with_related _ env ready.co)

  after-flags :
      (after.operator_writable ≡ true)
      × (after.cluster_readable ≡ true)
      × (after.cluster_writable ≡ true)
  unfolding set write_cluster
  after-flags =
      rw
        (
          ready.has_operator, ready.operator_writable, ready.cluster_readable,
          ready.cluster_writable,
        )
        (refl, refl, refl)

  pub set-IsReachable : IsReachable env after
  unfolding status operator_status_after
  set-IsReachable = record {
    oc = status;
    co = after_co;
    has_operator = set-operator;
    has_cluster_operator = set-cluster;
    operator_writable = after-flags.0;
    cluster_readable = after-flags.1;
    cluster_writable = after-flags.2;
    distinct =
        operator_conditions-Distinct env.operator_conditions lawful.operator (c ∷ []) _
          ready.oc.conditions ready.distinct;
    has_available =
        operator_conditions-available env.operator_conditions lawful.operator c _
          ready.oc.conditions ready.has_available;
  }

  pub set-keeps :
      (t : String)
      → t ≢ available
      → t ≢ upgradeable
      → t ≢ c.type
      → reported env t after ≡ reported env t w
  unfolding status operator_status_after
  set-keeps t a u ne =
      rw (set-operator, ready.has_operator)
        (ap status_of (
          operator_conditions-keep env.operator_conditions lawful.operator c _ ready.oc.conditions t
            a u ne ready.has_available))

  pub set-reported :
      c.type ≢ available → c.type ≢ upgradeable → reported env c.type after ≡ some c.status
  unfolding status operator_status_after
  set-reported ne_a ne_u = rw set-operator (
      operator_conditions-report env.operator_conditions lawful.operator c _ ready.oc.conditions
        ne_a ne_u)

  pub set-published :
      (t s : String) → reported env t after ≡ some s → published env t after ≡ some s
  unfolding status operator_status_after
  set-published t s h =
      rw (set-cluster, after_co-conditions)
        (status-set_all env.cluster_conditions lawful.cluster status.conditions ready.co.conditions
          t s
          (operator_conditions-Distinct env.operator_conditions lawful.operator (c ∷ []) _
            ready.oc.conditions ready.distinct)
          (ap status_of (
              find-agree env.cluster_conditions env.operator_conditions lawful.cluster
                lawful.operator t status.conditions)
            ∙ (rw set-operator at h)))
