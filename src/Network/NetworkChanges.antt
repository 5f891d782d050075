-- ===== src/Network/NetworkChanges.antt =====
-- render.go: which changes of the cluster and service networks are allowed. The check sorts the cluster
-- networks of both configurations where they stand, so it returns them too; `none` is a panic, on an
-- index that is out of range.
pub mod Grown
pub mod Allowed
use cluster_network_operator.Prelude.{
  String, Bool, true, false, not, ◌&&◌, ◌||◌, List, [], ◌∷◌, Option, none, some, ◌==◌, string_eq,
  nat_eq, bool_eq, option_eq, list_eq, ltb, length, is_some, stable_sort, if◌then◌else◌,
}
use cluster_network_operator.Network.Subnets.{Address, Subnet}
use cluster_network_operator.Network.Spec.{
  ClusterNetworkEntry, NetworkSpec, NetLibrary, ovn_kubernetes,
}
use cluster_network_operator.Network.Equal.{cluster_network_entry_eq, address_eq}
use cluster_network_operator.Network.ClusterConfig.{is_conversion_to_dual_stack_supported}

pub data NetworkChangeError : Type 0 where
  service_during_migration service_unsupported : NetworkChangeError
  no_conversion : String → NetworkChangeError
  primary_service_changed primary_cluster_changed same_family_added : NetworkChangeError
  cluster_count_changed : NetworkChangeError
  type_not_supported unparsable : String → NetworkChangeError
  host_prefix_changed ip_changed range_reduced : NetworkChangeError

-- the error, and the two configurations with their cluster networks in order
pub record Checked : Type 0 where
  pub error : Option NetworkChangeError
  pub prev : NetworkSpec
  pub next : NetworkSpec

abbrev pub unsorted : NetworkSpec → NetworkSpec → Option NetworkChangeError → Checked
unsorted prev next error = record { error = error; prev = prev; next = next }

-- net.ParseCIDR's first result: the address as it is written
module _ (net : NetLibrary) (parse_ip : String → Option Address) where
  abbrev pub compare_ranges :
      ClusterNetworkEntry → ClusterNetworkEntry → Subnet → Subnet → Option NetworkChangeError
  compare_ranges e n prev next =
      if not (e.host_prefix == n.host_prefix)
      then some host_prefix_changed
      else if not (parse_ip e.cidr == parse_ip n.cidr)
      then some ip_changed
      else if ltb prev.ones next.ones
      then some range_reduced
      else none

  abbrev pub compare_nets :
      ClusterNetworkEntry
      → ClusterNetworkEntry
      → Option Subnet
      → Option Subnet
      → Option NetworkChangeError
  compare_nets e n none next = some (unparsable e.cidr)
  compare_nets e n (some prev) none = some (unparsable n.cidr)
  compare_nets e n (some prev) (some next) = compare_ranges e n prev next

  -- the loop over two lists of the same length
  unfoldable pub compare_clusters :
      List ClusterNetworkEntry → List ClusterNetworkEntry → Option NetworkChangeError
  compare_clusters (e ∷ prev) (n ∷ next) =
      let rest = compare_clusters prev next in
      let found = compare_nets e n (net.parse_cidr e.cidr) (net.parse_cidr n.cidr) in
      if is_some found then found else rest
  compare_clusters [] next = none
  compare_clusters (e ∷ prev) [] = none

module _ (net : NetLibrary) where
  -- the loop over the cluster networks of the dual-stack configuration
  unfoldable pub compare_dual :
      Bool → List ClusterNetworkEntry → List ClusterNetworkEntry → Option NetworkChangeError
  compare_dual v6 single [] = none
  compare_dual v6 (s ∷ single) (d ∷ dual) =
      let rest = compare_dual v6 single dual in
      if not (s == d) then some primary_cluster_changed else rest
  compare_dual v6 [] (d ∷ dual) =
      let rest = compare_dual v6 [] dual in
      if net.is_ipv6_cidr d.cidr == v6 then some same_family_added else rest

  abbrev pub compare_primary :
      List ClusterNetworkEntry → List ClusterNetworkEntry → Option (Option NetworkChangeError)
  compare_primary [] dual = none
  compare_primary (s ∷ single) dual =
      some (compare_dual (net.is_ipv6_cidr s.cidr) (s ∷ single) dual)

  -- the comparison of a single-stack with a dual-stack configuration
  unfoldable pub compare_stacks :
      (single_service dual_service : List String) (single dual : List ClusterNetworkEntry)
      → Option (Option NetworkChangeError)
  unfolding compare_dual
  compare_stacks (s ∷ single_service) (d ∷ dual_service) single dual =
      if not (s == d) then some (some primary_service_changed) else compare_primary single dual
  compare_stacks [] dual_service single dual = none
  compare_stacks (s ∷ single_service) [] single dual = none

abbrev pub from_stacks :
    NetworkSpec → NetworkSpec → Option (Option NetworkChangeError) → Option Checked
from_stacks prev next none = none
from_stacks prev next (some error) = some (unsorted prev next error)

-- also `<` on texts
module _ (net : NetLibrary) (parse_ip : String → Option Address)
    (text_before : String → String → Bool) where
  abbrev pub cidr_before : ClusterNetworkEntry → ClusterNetworkEntry → Bool
  cidr_before a b = text_before a.cidr b.cidr

  unfoldable pub sort_clusters : NetworkSpec → NetworkSpec
  sort_clusters conf = record conf {
    cluster_network = stable_sort cidr_before conf.cluster_network;
  }

  unfoldable pub is_cluster_network_change_safe : NetworkSpec → NetworkSpec → Checked
  unfolding compare_clusters sort_clusters
  is_cluster_network_change_safe prev next =
      let prev' = sort_clusters prev in
      let next' = sort_clusters next in
      if not (length prev.cluster_network == length next.cluster_network)
      then unsorted prev next (some cluster_count_changed)
      else if not (next.network_type == ovn_kubernetes)
      then unsorted prev next (some (type_not_supported next.network_type))
      else unsorted prev' next'
          (compare_clusters net parse_ip prev'.cluster_network next'.cluster_network)

  unfoldable pub is_network_change_safe : String → NetworkSpec → NetworkSpec → Option Checked
  unfolding is_cluster_network_change_safe compare_stacks
  is_network_change_safe platform prev next =
      let same_service = prev.service_network == next.service_network in
      if is_some prev.migration
      then some (unsorted prev next (if same_service then none else some service_during_migration))
      else if prev.cluster_network == next.cluster_network && same_service
      then some (unsorted prev next none)
      else if ltb (length prev.service_network) (length next.service_network)
      then (if not (is_conversion_to_dual_stack_supported platform)
          then some (unsorted prev next (some (no_conversion platform)))
          else from_stacks prev next (
              compare_stacks net prev.service_network next.service_network prev.cluster_network
                next.cluster_network))
      else if ltb (length next.service_network) (length prev.service_network)
      then from_stacks prev next (
          compare_stacks net next.service_network prev.service_network next.cluster_network
            prev.cluster_network)
      else if not same_service
      then some (unsorted prev next (some service_unsupported))
      else some (is_cluster_network_change_safe prev next)
