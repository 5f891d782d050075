-- ===== src/Network/ClusterConfig/Status.antt =====
-- The status of the cluster's configuration, generated again and again.
use cluster_network_operator.Prelude.{
  String, ◌≡◌, ap, Bool, List, length, ◌==◌, string_eq, nat_eq, if◌then◌else◌, arith,
}
use cluster_network_operator.Network.Spec.{ClusterNetworkEntry, NetworkSpec}
use cluster_network_operator.Network.ClusterConfig.{
  ClusterSpec, merge_cluster_config, ClusterStatus, migration_status,
}

-- Merging the cluster's configuration again changes nothing.
pub merge_cluster_config_idem :
    (oper : NetworkSpec) (conf : ClusterSpec)
    → merge_cluster_config (merge_cluster_config oper conf) conf ≡ merge_cluster_config oper conf
unfolding merge_cluster_config
merge_cluster_config_idem oper conf =
    ap {A = String}
      (λ m. record oper {
        service_network = conf.service_network;
        cluster_network = conf.cluster_network;
        network_type = conf.network_type;
        management_state = m;
      })
      (ground arith)

-- a field that keeps what it has, and is set where it has nothing
abbrev filled {ℓ} : {A : Type ℓ} → (A → Bool) → A → A → A
filled is_empty new old = if is_empty old then new else old

abbrev is_unset : String → Bool
is_unset s = s == ""

abbrev has_none {ℓ} : {A : Type ℓ} → List A → Bool
has_none xs = length xs == 0

-- the status for a type of network that the operator does not know
abbrev completed : NetworkSpec → ClusterStatus → ClusterStatus
completed oper old = record old {
  network_type = filled is_unset oper.network_type old.network_type;
  service_network = filled has_none oper.service_network old.service_network;
  cluster_network = filled has_none oper.cluster_network old.cluster_network;
  migration = migration_status oper.migration;
}

abbrev with_fields :
    NetworkSpec → ClusterStatus → String → List String → List ClusterNetworkEntry → ClusterStatus
with_fields oper old type service cluster = record old {
  network_type = type;
  service_network = service;
  cluster_network = cluster;
  migration = migration_status oper.migration;
}
