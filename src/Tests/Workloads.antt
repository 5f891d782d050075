-- ===== src/Tests/Workloads.antt =====
-- A daemonset that is rolling out, hangs, and whose nodes restart.
use cluster_network_operator.Prelude.{
  ◌-◌, ◌≡◌, ◌↔◌, refl, true, false, [], ◌∷◌, some, All, map, ltb, lookup,
}
use cluster_network_operator.Apps.{DaemonSet, DaemonSetStatus, Deployment, ReplicaStatus}
use cluster_network_operator.StatusManager.Workloads.{
  Workload, ClusteredName, daemon_set, rolling_out, progress_timeout, track_workload,
  daemon_set_workload, stateful_set_workload, deployment_workload, name_eq,
}
use cluster_network_operator.StatusManager.Workloads.Hang.{passes, hung_iff_unchanged}
use cluster_network_operator.StatusManager.Pods.{
  Objects, PodStates, find_all, has_objects, daemon_set_status_eq,
}
use cluster_network_operator.StatusManager.Pods.Availability.{IsReady, find_all-available}

abbrev counters : DaemonSetStatus
counters = record {
  current_number_scheduled = 3;
  number_misscheduled = 0;
  desired_number_scheduled = 3;
  number_ready = 2;
  observed_generation = 1;
  updated_number_scheduled = 1;
  number_available = 2;
  number_unavailable = 1;
}

abbrev pub node : DaemonSet
node = record {
  namespace = "openshift-ovn-kubernetes";
  name = "ovnkube-node";
  annotations = [];
  generation = 1;
  status = counters;
}

abbrev replicas : ReplicaStatus
replicas = record {
  observed_generation = 1;
  replicas = 2;
  updated_replicas = 2;
  ready_replicas = 2;
  available_replicas = 2;
  unavailable_replicas = 0;
}

abbrev control_plane : Deployment
control_plane = record {
  namespace = "openshift-ovn-kubernetes";
  name = "ovnkube-control-plane";
  annotations = [];
  generation = 1;
  status = replicas;
}

abbrev node_name : ClusteredName
node_name = record {
  cluster_name = "";
  namespace = "openshift-ovn-kubernetes";
  name = "ovnkube-node";
}

abbrev rolling : Workload DaemonSetStatus
rolling = record {
  name = node_name;
  kind = daemon_set;
  non_critical = false;
  at_release = true;
  status = counters;
  progress = some (rolling_out daemon_set node_name 1 3);
  checks_crashes = false;
}

hung_iff_unchanged_example :
    (track_workload 700000000010 rolling (passes rolling refl (10 ∷ 300000000000 ∷ []) [])).1
    ≡ ltb progress_timeout (700000000010 - 10)
hung_iff_unchanged_example =
    hung_iff_unchanged rolling refl 10 700000000010 (300000000000 ∷ []) [] (unfold lookup in refl)

abbrev pub objects : Objects
objects = record {
  daemon_sets = node ∷ [];
  deployments = control_plane ∷ [];
  stateful_sets = [];
  pods = λ name. [];
}

abbrev pub no_states : PodStates
no_states = record {
  daemon_sets = [];
  deployments = [];
  stateful_sets = [];
  install_complete = true;
}

find_all-available_example : ((find_all 10 "4.18" true objects no_states).1.is_available ≡ true) ↔ (
    (has_objects objects ≡ true)
    × All IsReady (map (daemon_set_workload "4.18" true) (node ∷ []))
    × All IsReady (map (stateful_set_workload "4.18" true) [])
    × All IsReady (map (deployment_workload "4.18" true) (control_plane ∷ [])))
find_all-available_example = find_all-available 10 "4.18" true objects no_states
