-- ===== src/StatusManager/Workloads/Rollout.antt =====
-- When an installed cluster counts an object as rolling out.
use cluster_network_operator.Prelude.{◌≡◌, true, is_some, ltb, arith}
use cluster_network_operator.Apps.{DaemonSet, Deployment, StatefulSet}
use cluster_network_operator.StatusManager.Workloads.{
  daemon_set_progress, stateful_set_progress, deployment_progress,
}

-- Once the installation is complete, an object of any of the three kinds is rolling out exactly while
-- fewer of its pods are updated than there are: pods that are merely unavailable, as when a node
-- restarts, do not count.
pub installed_progress :
    (ds : DaemonSet) (ss : StatefulSet) (dep : Deployment)
    → (is_some (daemon_set_progress true ds)
        ≡ ltb ds.status.updated_number_scheduled ds.status.current_number_scheduled)
      × (is_some (stateful_set_progress true ss)
          ≡ ltb ss.status.updated_replicas ss.status.replicas)
      × (is_some (deployment_progress true dep)
          ≡ ltb dep.status.updated_replicas dep.status.replicas)
unfolding daemon_set_progress stateful_set_progress deployment_progress
installed_progress ds ss dep = ground arith
