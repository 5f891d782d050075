-- ===== src/Tests/Reports.antt =====
-- A cluster operator that reports progress, and the manager's operations on it.
use cluster_network_operator.Prelude.{
  ℕ, String, ◌≡◌, ◌≢◌, refl, true, false, ◌||◌, List, [], ◌∷◌, Option, none, some, lookup, insert,
  nat_eq, arith, eq_iff,
}
use cluster_network_operator.StatusManager.Conditions.{OperatorCondition}
use cluster_network_operator.StatusManager.Related.{RelatedApi, not_found}
use cluster_network_operator.StatusManager.Publish.{
  degraded, progressing, available, condition, Environment, OperatorStatus, World, StatusManager,
  empty_cluster_operator,
}
use cluster_network_operator.StatusManager.Publish.Mirror.{IsLawful, IsReachable, published}
use cluster_network_operator.StatusManager.Manager.{
  machine_config, operator_config, index, set_at, set_degraded, maybe_set_degraded,
  set_not_degraded,
}
use cluster_network_operator.StatusManager.Manager.Report.{
  fails, yes_no, AllTrue, set_not_degraded-published, degrading_keeps_progress,
}
use cluster_network_operator.StatusManager.Manager.Debounce.{Report, report_all, debounce}
use cluster_network_operator.StatusManager.Workloads.{PodMessage}
use cluster_network_operator.StatusManager.Pods.{find_all, is_nil, set_from_pods}
use cluster_network_operator.StatusManager.Pods.Outcome.{set_from_pods-published}
use cluster_network_operator.Tests.Conditions.{conditions, conditions-IsConditionLibrary}
use cluster_network_operator.Tests.Workloads.{objects, no_states}

abbrev no_objects : RelatedApi
no_objects = record { kind_for = λ o. none; delete = λ o. not_found }

abbrev env : Environment
env = record {
  operator_conditions = conditions;
  cluster_conditions = conditions;
  related = no_objects;
  release = "4.18";
}

env-IsLawful : IsLawful env
env-IsLawful = record {
  operator = conditions-IsConditionLibrary;
  cluster = conditions-IsConditionLibrary;
}

abbrev own_status : OperatorStatus
own_status = record {
  conditions =
      condition available "True" "" "" ∷ condition progressing "True" "MachineConfig" "" ∷ [];
  version = "4.17";
}

abbrev world : World
world = record {
  operator = some own_status;
  operator_writable = true;
  cluster_operator = some empty_cluster_operator;
  cluster_readable = true;
  cluster_writable = true;
}

world-IsReachable : IsReachable env world
world-IsReachable = record {
  oc = own_status;
  co = empty_cluster_operator;
  has_operator = refl;
  has_cluster_operator = refl;
  operator_writable = refl;
  cluster_readable = refl;
  cluster_writable = refl;
  distinct = ((apart, tt), (tt, tt));
  has_available = refl;
}
  where
    apart : progressing ≢ available
    apart = ground (arith, eq_iff progressing available)

-- the level of the machine configs is progressing
abbrev failing : List (Option OperatorCondition)
failing =
    none
    ∷ none
    ∷ none
    ∷ none
    ∷ none
    ∷ none
    ∷ some (condition progressing "True" "MachineConfig" "")
    ∷ none
    ∷ none
    ∷ none
    ∷ none
    ∷ none
    ∷ none
    ∷ none
    ∷ none
    ∷ []

failing-AllTrue : AllTrue failing
failing-AllTrue =
    (tt, (tt, (tt, (tt, (tt, (tt, (refl, (tt, (tt, (tt, (tt, (tt, (tt, (tt, (tt, tt)))))))))))))))

abbrev manager : StatusManager
manager = record {
  failing = failing;
  install_complete = true;
  failure_first_seen = [];
  related_objects = none;
}

set_not_degraded-published_example :
    published env degraded (set_not_degraded env operator_config (manager, world)).1
    ≡ some (yes_no (fails degraded (set_at (index operator_config) none failing)))
set_not_degraded-published_example =
    set_not_degraded-published env env-IsLawful operator_config manager world failing-AllTrue
      world-IsReachable

alone : fails progressing (set_at (index machine_config) none failing) ≡ false
unfolding set_at
alone = refl

degrading_keeps_progress_example :
    let (m', w') = set_degraded env machine_config "MachineConfig" "" (manager, world) in
    (fails progressing m'.failing ≡ false) × (published env progressing w' ≡ some "True")
degrading_keeps_progress_example =
    degrading_keeps_progress env env-IsLawful machine_config manager world failing-AllTrue
      world-IsReachable "MachineConfig" "" refl alone

abbrev failure : ℕ → Report
failure now = record { now = now; reason = "RenderError"; message = "" }

never_failed : lookup (index operator_config) manager.failure_first_seen ≡ none
unfolding lookup
never_failed = refl

debounce_example :
    let noted = record manager {
      failure_first_seen = insert (index operator_config) 5 manager.failure_first_seen;
    } in
    (report_all env operator_config (failure 5 ∷ failure 9 ∷ []) (manager, world) ≡ (noted, world))
    × (maybe_set_degraded env 120000000005 operator_config "RenderError" ""
          (report_all env operator_config (failure 5 ∷ failure 9 ∷ []) (manager, world))
        ≡ set_degraded env operator_config "RenderError" "" (noted, world))
debounce_example =
    debounce env operator_config (failure 5) (failure 120000000005) (failure 9 ∷ []) manager world
      never_failed (omega arith, tt) (omega arith)

abbrev text : PodMessage → String
text message = "rolling out"

something_rolls_out :
    is_nil (find_all 10 "4.18" (true || no_states.install_complete) objects no_states).1.progressing
    ≡ false
unfolding find_all lookup
something_rolls_out = refl

set_from_pods-published_example :
    published env progressing (set_from_pods env text 10 objects no_states (manager, world)).2.1
    ≡ some "True"
set_from_pods-published_example =
    set_from_pods-published env env-IsLawful text 10 objects no_states manager world failing-AllTrue
      (omega arith) world-IsReachable something_rolls_out
