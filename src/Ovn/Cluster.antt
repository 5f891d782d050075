-- ===== src/Ovn/Cluster.antt =====
-- The rollout decisions at work: reconciliations of `renderOVNKubernetes` interleaved with whatever
-- the cluster does on its own. An object that is tagged create-only stays as it is; any other one
-- gets the rendered version and IP family, and then progresses until the cluster has rolled it out.
pub mod Invariant
pub mod Convergence
use cluster_network_operator.Prelude.{
  String, Bool, true, false, ◌&&◌, Option, none, some, List, ◌==◌, string_eq, if◌then◌else◌,
}
use cluster_network_operator.Version.{Semver}
use cluster_network_operator.Ovn.Status.{UpdateStatus, OvnBootstrapResult}
use cluster_network_operator.Ovn.Upgrade.{ip_family_mode_from_config, decide_rollout}

pub record Cluster : Type 0 where
  pub node : UpdateStatus
  pub control_plane : UpdateStatus
  pub pre_puller : Option UpdateStatus

abbrev pub observed : Cluster → OvnBootstrapResult
observed c = record {
  control_plane_update_status = some c.control_plane;
  node_update_status = some c.node;
  pre_puller_update_status = c.pre_puller;
}

abbrev pub applied : String → String → UpdateStatus → UpdateStatus
applied release mode s = record {
  version = release;
  ip_family_mode = mode;
  progressing = if s.version == release && s.ip_family_mode == mode then s.progressing else true;
}

abbrev pub applied_pre_puller : String → String → Option UpdateStatus → UpdateStatus
applied_pre_puller release mode none = record {
  version = release;
  ip_family_mode = mode;
  progressing = true;
}
applied_pre_puller release mode (some s) = applied release mode s

abbrev pub with_progressing : Bool → UpdateStatus → UpdateStatus
with_progressing b s = record s { progressing = b }

abbrev pub pre_puller_progressing : Bool → Option UpdateStatus → Option UpdateStatus
pre_puller_progressing b none = none
pre_puller_progressing b (some s) = some (with_progressing b s)

module _ (semver : Semver) (service_network : List String) (release : String) where
  unfoldable pub reconcile : Cluster → Cluster
  reconcile c =
      let r = decide_rollout semver (observed c) service_network release in
      let mode = ip_family_mode_from_config service_network in
      record {
        node = if r.node then applied release mode c.node else c.node;
        control_plane =
            if r.control_plane then applied release mode c.control_plane else c.control_plane;
        pre_puller =
            if r.pre_pull then some (applied_pre_puller release mode c.pre_puller) else none;
      }

  -- `progress` is the cluster's own move: pods come and go, so each object may start or stop
  -- progressing at any time.
  pub data Step : Cluster → Cluster → Type 0 where
    reconciled : (c : Cluster) → Step c (reconcile c)
    progress :
        (c : Cluster) (node control_plane pre_puller : Bool)
        → Step c (record {
          node = with_progressing node c.node;
          control_plane = with_progressing control_plane c.control_plane;
          pre_puller = pre_puller_progressing pre_puller c.pre_puller;
        })

  pub data Reach (c : Cluster) : Cluster → Type 0 where
    here : Reach c c
    next : {d e : Cluster} → Reach c d → Step d e → Reach c e
