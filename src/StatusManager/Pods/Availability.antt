-- ===== src/StatusManager/Pods/Availability.antt =====
-- When the operator counts as available.
use cluster_network_operator.Prelude.{
  ℕ, String, ◌≡◌, ◌↔◌, Bool, true, false, List, [], ◌∷◌, map, All, Eq, Dict, arith,
}
use cluster_network_operator.StatusManager.Workloads.{
  ClusteredName, Workload, LastSeen, is_blocking, daemon_set_workload, stateful_set_workload,
  deployment_workload, track_workload,
}
use cluster_network_operator.StatusManager.Pods.{
  daemon_set_status_eq, replica_status_eq, Pod, find_workload, find_workloads, PodStates, Objects,
  has_objects, find_all,
}

-- an object that does not stand in the way: of the release, and rolled out unless it is non-critical
abbrev pub IsReady {ℓ} : {S : Type ℓ} → Workload S → Type 0
IsReady w = (w.at_release ≡ true) × (is_blocking w ≡ false)

module _ {ℓ} {S : Type ℓ} ⦃e : Eq S⦄ (now : ℕ) (pods : ClusteredName → List Pod) where
  find_workloads-available :
      (workloads : List (Workload S)) (states : Dict ClusteredName (LastSeen S))
      → ((find_workloads now pods workloads states).1.is_available ≡ true) ↔ All IsReady workloads
  unfolding find_workloads find_workload
  find_workloads-available [] states = ground arith
  find_workloads-available (w ∷ workloads) states =
      ground (arith, find_workloads-available workloads (track_workload now w states).0)

-- The operator counts as available exactly if there is an object at all, and every daemonset, stateful
-- set and deployment is of the release and, unless it is non-critical, not rolling out.
pub find_all-available :
    (now : ℕ) (release : String) (install_complete : Bool) (o : Objects) (last : PodStates)
    → ((find_all now release install_complete o last).1.is_available ≡ true) ↔ (
        (has_objects o ≡ true)
        × All IsReady (map (daemon_set_workload release install_complete) o.daemon_sets)
        × All IsReady (map (stateful_set_workload release install_complete) o.stateful_sets)
        × All IsReady (map (deployment_workload release install_complete) o.deployments))
unfolding find_all
find_all-available now release install_complete o last = ground (
  arith,
  find_workloads-available now o.pods
      (map (daemon_set_workload release install_complete) o.daemon_sets) last.daemon_sets,
  find_workloads-available now o.pods
      (map (stateful_set_workload release install_complete) o.stateful_sets) last.stateful_sets,
  find_workloads-available now o.pods
      (map (deployment_workload release install_complete) o.deployments) last.deployments,
)
