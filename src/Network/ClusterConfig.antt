-- ===== src/Network/ClusterConfig.antt =====
-- cluster_config.go: the cluster's configuration is validated, merged into the operator's, and its
-- status generated from what the operator has applied. Also the platforms of render.go.
pub mod Loops
pub mod Accepted
pub mod Agreement
pub mod Status
use cluster_network_operator.Prelude.{
  ℕ, ◌-◌, String, Bool, true, false, not, ◌&&◌, ◌||◌, List, [], ◌∷◌, Option, none, some, ◌==◌,
  string_eq, nat_eq, bool_eq, any, ltb, length, if◌then◌else◌, Outcome, ok, fail, ◌>>=◌, ◌>>◌,
  fail_if,
}
use cluster_network_operator.Network.Subnets.{Subnet, width, PoolError, add}
use cluster_network_operator.Network.Spec.{
  ClusterNetworkEntry, OvnKubernetesConfig, MtuMigration, Migration, NetworkSpec, Families,
  no_families, seen, ovn_kubernetes,
}
use cluster_network_operator.Network.Pools.{
  PoolsError, service_unparsable, cluster_unparsable, in_use, service_empty, service_not_dual,
  service_too_many, cluster_empty, families_differ, host_prefix_larger, host_prefix_too_small,
  network_type_required, platform_not_dual, Pools, uses_host_prefix, differ, is_nil,
}

-- the cluster's `NetworkSpec`
pub record ClusterSpec : Type 0 where
  pub cluster_network : List ClusterNetworkEntry
  pub service_network : List String
  pub network_type : String

-- isSupportedDualStackPlatform, by the feature gates that are enabled
unfoldable pub is_supported_dual_stack_platform : (String → Bool) → String → Bool
is_supported_dual_stack_platform enabled platform =
    if any (λ p. p == platform) ("BareMetal" ∷ "None" ∷ "VSphere" ∷ "OpenStack" ∷ "KubeVirt" ∷ [])
    then true
    else if platform == "AWS"
    then enabled "AWSDualStackInstall"
    else if platform == "Azure"
    then enabled "AzureDualStackInstall"
    else if platform == "GCP"
    then enabled "GCPDualStackInstall"
    else false

unfoldable pub is_conversion_to_dual_stack_supported : String → Bool
is_conversion_to_dual_stack_supported platform =
    any (λ p. p == platform) ("BareMetal" ∷ "None" ∷ "VSphere" ∷ [])

-- `pool.Add`, returning its error
abbrev pub add_to : Subnet → Pools → Outcome PoolsError Pools
add_to cidr p = elim (add cidr p.pool) [
  | ok pool ↦ ok (record { pool = pool; families = seen cidr.ip.is_ipv6 p.families })
  | fail e ↦ fail (in_use e)
]

-- the two checks of a host prefix
unfoldable pub check_host_prefix :
    String → ClusterNetworkEntry → Subnet → Outcome PoolsError (Unit {0})
check_host_prefix network_type entry cidr =
    let bits = width cidr.ip.is_ipv6 in
    if uses_host_prefix network_type entry
    then (do
      fail_if (ltb entry.host_prefix cidr.ones) (host_prefix_larger entry.host_prefix entry.cidr)
      fail_if (ltb (bits - 2) entry.host_prefix)
          (host_prefix_too_small entry.host_prefix (bits - 2)))
    else ok tt

unfoldable pub check_service_count : List String → Families → Outcome PoolsError (Unit {0})
check_service_count service f =
    if length service == 0
    then fail service_empty
    else if length service == 2 && (not f.ipv4 || not f.ipv6)
    then fail service_not_dual
    else if ltb 2 (length service)
    then fail service_too_many
    else ok tt

module _ (parse_cidr : String → Option Subnet) where
  unfoldable pub add_service : String → Pools → Outcome PoolsError Pools
  add_service snet p = elim (parse_cidr snet) [
    | none ↦ fail (service_unparsable snet)
    | some cidr ↦ add_to cidr p
  ]

  unfoldable pub add_services : List String → Pools → Outcome PoolsError Pools
  unfolding add_service
  add_services [] p = ok p
  add_services (snet ∷ service) p = do p' ← add_service snet p; add_services service p'

  unfoldable pub add_cluster : String → ClusterNetworkEntry → Pools → Outcome PoolsError Pools
  unfolding check_host_prefix
  add_cluster network_type entry p = elim (parse_cidr entry.cidr) [
    | none ↦ fail (cluster_unparsable entry.cidr)
    | some cidr ↦ do check_host_prefix network_type entry cidr; add_to cidr p
  ]

  unfoldable pub add_clusters : String → List ClusterNetworkEntry → Pools → Outcome PoolsError Pools
  unfolding add_cluster
  add_clusters network_type [] p = ok p
  add_clusters network_type (entry ∷ cluster) p = do
    p' ← add_cluster network_type entry p
    add_clusters network_type cluster p'

  -- ValidateClusterConfig up to the check of the families
  unfoldable pub check_networks :
      List String → String → List ClusterNetworkEntry → Outcome PoolsError (Families × Families)
  unfolding add_services add_clusters check_service_count
  check_networks service network_type cluster = do
    p ← add_services service (record { pool = []; families = no_families })
    check_service_count service p.families
    q ← add_clusters network_type cluster (record { pool = p.pool; families = no_families })
    fail_if (is_nil cluster) cluster_empty
    fail_if (differ q.families p.families) families_differ
    ok (p.families, q.families)

  unfoldable pub validate_cluster_config :
      (String → Bool) → String → ClusterSpec → Outcome PoolsError (Unit {0})
  unfolding check_networks is_supported_dual_stack_platform
  validate_cluster_config enabled platform conf = do
    (service, cluster) ← check_networks conf.service_network conf.network_type conf.cluster_network
    fail_if (conf.network_type == "") network_type_required
    fail_if
        ((service.ipv4 && service.ipv6 || cluster.ipv4 && cluster.ipv6)
          && not (is_supported_dual_stack_platform enabled platform))
        (platform_not_dual platform)

-- MergeClusterConfig; the entries of the two types of configurations are the same here
unfoldable pub merge_cluster_config : NetworkSpec → ClusterSpec → NetworkSpec
merge_cluster_config oper conf = record oper {
  service_network = conf.service_network;
  cluster_network = conf.cluster_network;
  network_type = conf.network_type;
  management_state = if oper.management_state == "" then "Managed" else oper.management_state;
}

-- the cluster's `NetworkStatus`
pub record ClusterStatus : Type 0 where
  pub cluster_network : List ClusterNetworkEntry
  pub service_network : List String
  pub network_type : String
  pub mtu : ℕ
  pub migration : Option (String × Option MtuMigration)

abbrev pub empty_status : ClusterStatus
empty_status = record {
  cluster_network = [];
  service_network = [];
  network_type = "";
  mtu = 0;
  migration = none;
}

-- *operConf.DefaultNetwork.OVNKubernetesConfig.MTU, which panics on a nil pointer
abbrev pub mtu_of : Option OvnKubernetesConfig → Option ℕ
mtu_of none = none
mtu_of (some config) = config.mtu

abbrev pub migration_status : Option Migration → Option (String × Option MtuMigration)
migration_status none = none
migration_status (some migration) = some (migration.network_type, migration.mtu)

-- `none` for the panic on a nil MTU
unfoldable pub status_from_operator_config : NetworkSpec → ClusterStatus → Option ClusterStatus
status_from_operator_config oper old =
    let known = oper.network_type == ovn_kubernetes in
    let status = if known then empty_status else old in
    let status' = record status {
      network_type =
          if old.network_type == "" || known then oper.network_type else status.network_type;
      service_network =
          if length old.service_network == 0 || known
          then oper.service_network
          else status.service_network;
      cluster_network =
          if length old.cluster_network == 0 || known
          then oper.cluster_network
          else status.cluster_network;
      migration = migration_status oper.migration;
    } in
    if known
    then elim (mtu_of oper.ovn) [ some mtu ↦ some (record status' { mtu = mtu }) | none ↦ none ]
    else some status'
