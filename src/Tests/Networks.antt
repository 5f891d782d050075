-- ===== src/Tests/Networks.antt =====
-- Networks of a cluster, parsed by a table.
use cluster_network_operator.Prelude.{
  ◌*◌, ℕ, ◌+◌, ◌^◌, String, ◌≡◌, ◌≢◌, refl, ap, Bool, true, false, List, [], ◌∷◌, Option, none,
  some, string_eq, Dict, lookup, ok, fail, leb, is_ok, arith,
}
use cluster_network_operator.Network.Subnets.{Address, Subnet, nets_overlap, add}
use cluster_network_operator.Network.Subnets.Overlap.{Contains, nets_overlap_iff}
use cluster_network_operator.Network.Spec.{
  ClusterNetworkEntry, OvnKubernetesConfig, NetworkSpec, NetLibrary, IsNetLibrary, no_families,
}
use cluster_network_operator.Network.Pools.{validate_ip_pools}
use cluster_network_operator.Network.ClusterConfig.{
  ClusterSpec, ClusterStatus, check_networks, validate_cluster_config,
}
use cluster_network_operator.Network.ClusterConfig.Loops.{Each, FitsService, all_seen}
use cluster_network_operator.Network.ClusterConfig.Agreement.{validate_ip_pools_agrees}
use cluster_network_operator.Network.ClusterConfig.Accepted.{
  AreValid, DualSupported, validate_cluster_config_iff,
}
use cluster_network_operator.Network.NodeSubnets.{
  negative_shift, requests, is_large_enough, validate_ovn_kubernetes_subnets,
}
use cluster_network_operator.Network.NodeSubnets.Capacity.{size_check}
use cluster_network_operator.Network.NodeSubnets.Sound.{
  IsUsable, named, validate_ovn_kubernetes_subnets_sound,
}
use cluster_network_operator.Network.NodeSubnets.Panics.{validation_panics}
use cluster_network_operator.Network.Subnets.Pool.{AllApart}
use cluster_network_operator.Network.OvnDefaults.{empty_config}
use mathlib.Core.List.{◌++◌}

abbrev v4_net : ℕ → ℕ → Subnet
v4_net value ones = record { ip = record { is_ipv6 = false; value = value }; ones = ones }

abbrev v6_net : ℕ → ℕ → Subnet
v6_net value ones = record { ip = record { is_ipv6 = true; value = value }; ones = ones }

-- IPv4: 10.128.0.0/14, the same with a larger range, 172.30.0.0/16, 100.64.0.0/16; IPv6: fd01::/48
-- and fd98::/64
abbrev pub table : Dict String Subnet
table =
    ("10.128.0.0/14", v4_net 176160768 14)
    ∷ ("10.128.0.0/13", v4_net 176160768 13)
    ∷ ("172.30.0.0/16", v4_net 2887647232 16)
    ∷ ("100.64.0.0/16", v4_net 1681915904 16)
    ∷ ("fd01::/48", v6_net (64769 * 2 ^ 112) 48)
    ∷ ("fd98::/64", v6_net (64920 * 2 ^ 112) 64)
    ∷ []

abbrev pub is_v6 : Option Subnet → Bool
is_v6 none = false
is_v6 (some s) = s.ip.is_ipv6

abbrev pub ones_of : Option Subnet → Option ℕ
ones_of none = none
ones_of (some s) = some s.ones

abbrev pub ip_of : Option Subnet → Option Address
ip_of none = none
ip_of (some s) = some s.ip

abbrev pub net : NetLibrary
net = record {
  parse_cidr = λ s. lookup s table;
  is_ipv6_cidr = λ s. is_v6 (lookup s table);
  mask_text = λ s. ones_of (lookup s table);
}

pub net-IsNetLibrary : IsNetLibrary net
net-IsNetLibrary = record {
  family_agrees = λ s n h. ap is_v6 h;
  mask_agrees = λ s n h. ap ones_of h;
}

abbrev pub entry : String → ℕ → ClusterNetworkEntry
entry cidr host_prefix = record { cidr = cidr; host_prefix = host_prefix }

abbrev pub ovn_config : OvnKubernetesConfig
ovn_config = record empty_config {
  mtu = some 1400;
  geneve_port = some 6081;
  v4_internal_subnet = "100.64.0.0/16";
}

abbrev pub spec : List ClusterNetworkEntry → NetworkSpec
spec cluster = record {
  cluster_network = cluster;
  service_network = "172.30.0.0/16" ∷ [];
  network_type = "OVNKubernetes";
  ovn = some ovn_config;
  additional_networks = [];
  disable_multi_network = none;
  use_multi_network_policy = none;
  deploy_kube_proxy = none;
  kube_proxy = none;
  migration = none;
  log_level = "";
  management_state = "";
}

abbrev pub cluster : List ClusterNetworkEntry
cluster = entry "10.128.0.0/14" 23 ∷ []

abbrev cluster_spec : ClusterSpec
cluster_spec = record {
  cluster_network = cluster;
  service_network = "172.30.0.0/16" ∷ [];
  network_type = "OVNKubernetes";
}

overlapping : nets_overlap (v4_net 176160768 14) (v4_net 176160768 13) ≡ true
unfolding nets_overlap
overlapping = refl

nets_overlap_iff_example :
    (x : Address) × Contains (v4_net 176160768 14) x × Contains (v4_net 176160768 13) x
nets_overlap_iff_example =
    (nets_overlap_iff (v4_net 176160768 14) (v4_net 176160768 13)).0 overlapping

accepted : validate_cluster_config net.parse_cidr (λ gate. false) "AWS" cluster_spec ≡ ok tt
unfolding validate_cluster_config lookup add
accepted = refl

validate_cluster_config_iff_example :
    (v : AreValid net.parse_cidr ("172.30.0.0/16" ∷ []) "OVNKubernetes" cluster)
    × (cluster_spec.network_type ≢ "")
    × DualSupported net.parse_cidr (λ gate. false) "AWS" (all_seen v.services no_families)
validate_cluster_config_iff_example =
    (validate_cluster_config_iff net.parse_cidr (λ gate. false) "AWS" cluster_spec).0 accepted

in_order :
    is_ok (check_networks net.parse_cidr ("172.30.0.0/16" ∷ []) "OVNKubernetes" cluster) ≡ true
unfolding check_networks lookup add
in_order = refl

validate_ip_pools_agrees_example : validate_ip_pools net.parse_cidr (spec cluster) ≡ []
validate_ip_pools_agrees_example =
    (validate_ip_pools_agrees net.parse_cidr (spec cluster)).1 in_order

-- the status of a cluster whose type of network is another's
abbrev foreign : NetworkSpec
foreign = record (spec []) { network_type = "Other" }

abbrev old_status : ClusterStatus
old_status = record {
  cluster_network = cluster;
  service_network = [];
  network_type = "";
  mtu = 1400;
  migration = none;
}

abbrev new_status : ClusterStatus
new_status = record old_status { service_network = "172.30.0.0/16" ∷ []; network_type = "Other" }

cluster_parsed : Each (λ e n. net.parse_cidr e.cidr ≡ some n) cluster (v4_net 176160768 14 ∷ [])
unfolding lookup
cluster_parsed = (refl, tt)

join_parsed : net.parse_cidr "100.64.0.0/16" ≡ some (v4_net 1681915904 16)
unfolding lookup
join_parsed = refl

both_clusters :
    Each
      (λ e n. net.parse_cidr e.cidr ≡ some n)
      (entry "fd01::/48" 64 ∷ cluster)
      (v6_net (64769 * 2 ^ 112) 48 ∷ v4_net 176160768 14 ∷ [])
unfolding lookup
both_clusters = (refl, cluster_parsed)

v6_join_parsed : net.parse_cidr "fd98::/64" ≡ some (v6_net (64920 * 2 ^ 112) 64)
unfolding lookup
v6_join_parsed = refl

size_check_example :
    is_large_enough net (entry "fd01::/48" 64 ∷ cluster) "fd98::/64"
    ≡ ok (leb (2 ^ 16 + 0 + 3) (2 ^ 64))
size_check_example =
    size_check net net-IsNetLibrary (entry "fd01::/48" 64) cluster
      (v6_net (64769 * 2 ^ 112) 48 ∷ v4_net 176160768 14 ∷ []) "fd98::/64"
      (v6_net (64920 * 2 ^ 112) 64) both_clusters v6_join_parsed (omega arith) refl
      (λ v4. absurd (ground (arith, v4)))

-- an IPv6 subnet in the field for IPv4, in a cluster that has IPv4 networks only
abbrev wrong_family : NetworkSpec
wrong_family = record (spec cluster) {
  ovn = some (record ovn_config { v4_internal_subnet = "fd98::/64" });
}

wrong_family_passes : validate_ovn_kubernetes_subnets net wrong_family ≡ ok []
unfolding validate_ovn_kubernetes_subnets lookup add
wrong_family_passes = refl

nothing_found : validate_ovn_kubernetes_subnets net (spec cluster) ≡ ok []
unfolding validate_ovn_kubernetes_subnets lookup add
nothing_found = refl

validate_ovn_kubernetes_subnets_sound_example :
    (clusters services own : List Subnet) × Each
      (λ e n. net.parse_cidr e.cidr ≡ some n)
      cluster
      clusters
    × Each (FitsService net.parse_cidr) ("172.30.0.0/16" ∷ []) services
    × Each
        (IsUsable net)
        (named net (requests ovn_config (all_seen clusters no_families) cluster))
        own
    × AllApart ((clusters ++ services) ++ own)
validate_ovn_kubernetes_subnets_sound_example =
    validate_ovn_kubernetes_subnets_sound net net-IsNetLibrary (spec cluster) ovn_config refl
      nothing_found

validation_panics_example :
    validate_ovn_kubernetes_subnets net (spec (entry "10.128.0.0/14" 12 ∷ [])) ≡ fail negative_shift
validation_panics_example =
    validation_panics net net-IsNetLibrary (spec (entry "10.128.0.0/14" 12 ∷ [])) ovn_config
      (v4_net 176160768 14 ∷ []) (v4_net 1681915904 16) refl cluster_parsed refl join_parsed refl
      refl
