-- ===== src/Network/Pools.antt =====
-- The networks of the configuration: validateIPPools (render.go), which collects all errors, and
-- ValidateClusterConfig (cluster_config.go), which stops at the first.
use cluster_network_operator.Prelude.{
  ℕ, ◌-◌, String, Bool, true, false, not, ◌&&◌, ◌||◌, List, [], ◌∷◌, ◌++◌, Option, none, some, ◌==◌,
  string_eq, nat_eq, bool_eq, ltb, length, if◌then◌else◌, ok, fail,
}
use cluster_network_operator.Network.Subnets.{Subnet, width, PoolError, add}
use cluster_network_operator.Network.Spec.{
  ClusterNetworkEntry, NetworkSpec, Families, no_families, seen, ovn_kubernetes,
}

pub data PoolsError : Type 0 where
  service_unparsable cluster_unparsable : String → PoolsError
  service_in_use cluster_in_use : String → PoolError → PoolsError
  in_use : PoolError → PoolsError
  service_empty service_not_dual service_too_many cluster_empty families_differ : PoolsError
  host_prefix_larger : ℕ → String → PoolsError
  host_prefix_too_small : ℕ → ℕ → PoolsError
  network_type_required : PoolsError
  platform_not_dual : String → PoolsError

-- what the loops carry along: the pool, and the families of the networks in it
pub record Pools : Type 0 where
  pub pool : List Subnet
  pub families : Families

abbrev pub uses_host_prefix : String → ClusterNetworkEntry → Bool
uses_host_prefix network_type entry = network_type == ovn_kubernetes || not (entry.host_prefix == 0)

-- `pool.Add`, with its error wrapped
abbrev pub add_or : (PoolError → PoolsError) → Subnet → Pools → Pools × List PoolsError
add_or wrap cidr p = elim (add cidr p.pool) [
  | ok pool ↦ (record p { pool = pool }, [])
  | fail e ↦ (p, wrap e ∷ [])
]

abbrev pub note_family : Subnet → Pools → Pools
note_family cidr p = record p { families = seen cidr.ip.is_ipv6 p.families }

abbrev pub error_if {ℓ} : {E : Type ℓ} → Bool → E → List E
error_if true e = e ∷ []
error_if false e = []

-- the two tests of a host prefix: by the ones and the bits of the mask
unfoldable pub host_prefix_errors : String → ClusterNetworkEntry → Subnet → List PoolsError
host_prefix_errors network_type entry cidr =
    let bits = width cidr.ip.is_ipv6 in
    if uses_host_prefix network_type entry
    then error_if (ltb entry.host_prefix cidr.ones)
        (host_prefix_larger entry.host_prefix entry.cidr)
      ++ error_if (ltb (bits - 2) entry.host_prefix)
          (host_prefix_too_small entry.host_prefix (bits - 2))
    else []

-- how many service networks there may be, of which families
unfoldable pub service_count_errors : List String → Families → List PoolsError
service_count_errors service f =
    if length service == 0
    then service_empty ∷ []
    else if length service == 2 && (not f.ipv4 || not f.ipv6)
    then service_not_dual ∷ []
    else if ltb 2 (length service)
    then service_too_many ∷ []
    else []

abbrev pub differ : Families → Families → Bool
differ a b = not (a.ipv4 == b.ipv4) || not (a.ipv6 == b.ipv6)

abbrev pub is_nil {ℓ} : {A : Type ℓ} → List A → Bool
is_nil [] = true
is_nil (x ∷ xs) = false

module _ (parse_cidr : String → Option Subnet) where
  unfoldable pub service_step : String → Pools → Pools × List PoolsError
  service_step snet p = elim (parse_cidr snet) [
    | none ↦ (p, service_unparsable snet ∷ [])
    | some cidr ↦ add_or (service_in_use snet) cidr (note_family cidr p)
  ]

  unfoldable pub scan_services : List String → Pools → Pools × List PoolsError
  unfolding service_step
  scan_services [] p = (p, [])
  scan_services (snet ∷ service) p =
      let (p', errors) = service_step snet p in
      let (final, later) = scan_services service p' in (final, errors ++ later)

  unfoldable pub cluster_step : String → ClusterNetworkEntry → Pools → Pools × List PoolsError
  unfolding host_prefix_errors
  cluster_step network_type entry p = elim (parse_cidr entry.cidr) [
    | none ↦ (p, cluster_unparsable entry.cidr ∷ [])
    | some cidr ↦
        let (p', used) = add_or (cluster_in_use entry.cidr) cidr (note_family cidr p) in
        (p', host_prefix_errors network_type entry cidr ++ used)
  ]

  unfoldable pub scan_clusters : String → List ClusterNetworkEntry → Pools → Pools × List PoolsError
  unfolding cluster_step
  scan_clusters network_type [] p = (p, [])
  scan_clusters network_type (entry ∷ cluster) p =
      let (p', errors) = cluster_step network_type entry p in
      let (final, later) = scan_clusters network_type cluster p' in (final, errors ++ later)

  unfoldable pub validate_ip_pools : NetworkSpec → List PoolsError
  unfolding scan_services scan_clusters service_count_errors
  validate_ip_pools conf =
      let (p, unusable) =
        scan_services conf.service_network (record { pool = []; families = no_families }) in
      let count = service_count_errors conf.service_network p.families in
      let (q, cluster) =
        scan_clusters conf.network_type conf.cluster_network
          (record { pool = p.pool; families = no_families }) in
      let errors =
        unusable ++ (count ++ (cluster ++ error_if (is_nil conf.cluster_network) cluster_empty)) in
      errors ++ error_if (is_nil errors && differ q.families p.families) families_differ
