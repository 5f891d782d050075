-- ===== src/StatusManager/Manager.antt =====
-- The failures per level, and what each operation on them publishes: SetDegraded, MaybeSetDegraded
-- with its debounce, SetNotDegraded, SetProgressing and UnsetProgressing. Each operation of the code
-- holds the lock throughout, so they run one after the other.
pub mod Report
pub mod Debounce
pub mod Steady
use cluster_network_operator.Prelude.{
  ℕ, zero, suc, ◌-◌, String, Bool, true, false, List, [], ◌∷◌, Option, none, some, ◌==◌, string_eq,
  nat_eq, ltb, if◌then◌else◌, Dict, lookup, insert, remove, is_some,
}
use cluster_network_operator.StatusManager.Conditions.{OperatorCondition}
use cluster_network_operator.StatusManager.Publish.{
  degraded, progressing, condition, Environment, World, StatusManager, set,
}

pub data StatusLevel : Type 0 where
  panic_level cluster_config operator_config operator_render proxy_config injector_config :
      StatusLevel
  machine_config pod_deployment pki_config egress_router_config rollout_hung : StatusLevel
  pod_crash_loop_back_off certificate_signer infrastructure_config dashboard_config : StatusLevel

-- the value of the constant
abbrev pub index : StatusLevel → ℕ
index panic_level = 0
index cluster_config = 1
index operator_config = 2
index operator_render = 3
index proxy_config = 4
index injector_config = 5
index machine_config = 6
index pod_deployment = 7
index pki_config = 8
index egress_router_config = 9
index rollout_hung = 10
index pod_crash_loop_back_off = 11
index certificate_signer = 12
index infrastructure_config = 13
index dashboard_config = 14

-- two minutes
abbrev pub degraded_failure_duration_threshold : ℕ
degraded_failure_duration_threshold = 120000000000

-- failing[level] = x
unfoldable pub set_at {ℓ} : {A : Type ℓ} → ℕ → A → List A → List A
set_at n x [] = []
set_at zero x (y ∷ ys) = x ∷ ys
set_at (suc n) x (y ∷ ys) = y ∷ set_at n x ys

abbrev pub of_type : String → Option OperatorCondition → Bool
of_type t none = false
of_type t (some c) = c.type == t

-- the loop over the levels: the first failure of a type
unfoldable pub first_failing : String → List (Option OperatorCondition) → Option OperatorCondition
first_failing t [] = none
first_failing t (f ∷ failing) =
    let rest = first_failing t failing in if of_type t f then f else rest

abbrev pub or_false : String → Option OperatorCondition → OperatorCondition
or_false t none = condition t "False" "" ""
or_false t (some c) = c

-- the state that the operations pass on
abbrev pub State : Type 0
State = StatusManager × World

module _ (env : Environment) where
  unfoldable pub sync_degraded : State → State
  unfolding first_failing
  sync_degraded (m, w) =
      set env false (or_false degraded (first_failing degraded m.failing) ∷ []) m w

  unfoldable pub sync_progressing : State → State
  unfolding first_failing
  sync_progressing (m, w) =
      set env false (or_false progressing (first_failing progressing m.failing) ∷ []) m w

  unfoldable pub set_degraded : StatusLevel → String → String → State → State
  unfolding set_at sync_degraded
  set_degraded level reason message (m, w) = sync_degraded (
    record m {
      failing = set_at (index level) (some (condition degraded "True" reason message)) m.failing;
      failure_first_seen = remove (index level) m.failure_first_seen;
    },
    w,
  )

  -- from whether the failure was seen before, and when
  unfoldable pub debounced : ℕ → Option ℕ → StatusLevel → String → String → State → State
  unfolding set_degraded
  debounced now none level reason message (m, w) =
      (record m { failure_first_seen = insert (index level) now m.failure_first_seen }, w)
  debounced now (some seen) level reason message (m, w) =
      if ltb (now - seen) degraded_failure_duration_threshold
      then (m, w)
      else set_degraded level reason message (m, w)

  unfoldable pub maybe_set_degraded : ℕ → StatusLevel → String → String → State → State
  unfolding debounced
  maybe_set_degraded now level reason message (m, w) =
      debounced now (lookup (index level) m.failure_first_seen) level reason message (m, w)

  unfoldable pub set_not_degraded : StatusLevel → State → State
  unfolding set_at sync_degraded
  set_not_degraded level (m, w) = sync_degraded (
    record m {
      failing = set_at (index level) none m.failing;
      failure_first_seen = remove (index level) m.failure_first_seen;
    },
    w,
  )

  unfoldable pub set_progressing : StatusLevel → String → String → State → State
  unfolding set_at sync_progressing
  set_progressing level reason message (m, w) = sync_progressing (
    record m {
      failing = set_at (index level) (some (condition progressing "True" reason message)) m.failing;
    },
    w,
  )

  unfoldable pub unset_progressing : StatusLevel → State → State
  unfolding set_at sync_progressing
  unset_progressing level (m, w) =
      sync_progressing (record m { failing = set_at (index level) none m.failing }, w)
