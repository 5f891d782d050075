-- ===== src/Network/NodeSubnets/Panics.antt =====
-- Host prefixes that are shorter than their networks': the size check shifts by the negative
-- difference.
use cluster_network_operator.Prelude.{
  arith, String, ◌≡◌, false, List, [], ◌∷◌, some, fail, ◌==◌, string_eq, if◌then◌else◌,
}
use cluster_network_operator.Network.Subnets.{Subnet}
use cluster_network_operator.Network.Spec.{
  ClusterNetworkEntry, OvnKubernetesConfig, NetworkSpec, NetLibrary, IsNetLibrary, Families,
}
use cluster_network_operator.Network.ClusterConfig.Loops.{Each}
use cluster_network_operator.Network.NodeSubnets.{
  negative_shift, SubnetName, v4_join, join_request, Request, is_v4_node_subnet_large_enough,
  is_large_enough, validate_ovn_kubernetes_subnet, check_request, check_requests, join_subnet,
  requests, validate_ovn_kubernetes_subnets,
}
use cluster_network_operator.Network.NodeSubnets.Capacity.{Parses, prefixes_fit, v4_nodes_unfit}

-- the IPv4 join subnet: the new field, or else the deprecated one
abbrev pub v4_join_subnet : OvnKubernetesConfig → String
v4_join_subnet oc = if join_subnet oc.ipv4 == "" then oc.v4_internal_subnet else join_subnet oc.ipv4

large_panics :
    (net : NetLibrary)
    → IsNetLibrary net
    → (cluster : List ClusterNetworkEntry) (nets : List Subnet) (subnet : String) (s : Subnet)
    → Each (Parses net) cluster nets
    → prefixes_fit false cluster nets ≡ false
    → net.parse_cidr subnet ≡ some s
    → s.ip.is_ipv6 ≡ false
    → is_large_enough net cluster subnet ≡ fail negative_shift
unfolding is_large_enough is_v4_node_subnet_large_enough
large_panics net library [] nets subnet s each unfit parsed v4 = absurd (ground arith)
large_panics net library (e ∷ cluster) nets subnet s each unfit parsed v4 =
    rw (library.family_agrees subnet s parsed, v4)
      (rw (v4_nodes_unfit net library (e ∷ cluster) nets 0 each unfit))

subnet_panics :
    (net : NetLibrary)
    → IsNetLibrary net
    → (cluster : List ClusterNetworkEntry) (nets : List Subnet) (subnet : String) (s : Subnet)
    → (name : SubnetName) (pool : List Subnet) → Each (Parses net) cluster nets
    → prefixes_fit false cluster nets ≡ false
    → net.parse_cidr subnet ≡ some s
    → s.ip.is_ipv6 ≡ false
    → validate_ovn_kubernetes_subnet net name subnet cluster pool ≡ fail negative_shift
unfolding validate_ovn_kubernetes_subnet
subnet_panics net library cluster nets subnet s name pool each unfit parsed v4 =
    rw (parsed, validate_ovn_kubernetes_subnet)
      (rw (large_panics net library cluster nets subnet s each unfit parsed v4))

request_panics :
    (net : NetLibrary) (r : Request) (rest : List Request) (pool : List Subnet)
    → (r.subnet == "") ≡ false
    → validate_ovn_kubernetes_subnet net r.name r.subnet r.cluster pool ≡ fail negative_shift
    → check_requests net (r ∷ rest) pool ≡ fail negative_shift
unfolding check_requests check_request
request_panics net r rest pool given panics = rw (given, panics)

first_request :
    (net : NetLibrary) (oc : OvnKubernetesConfig) (f : Families)
    (cluster : List ClusterNetworkEntry)
    → (pool : List Subnet) → (v4_join_subnet oc == "") ≡ false
    → validate_ovn_kubernetes_subnet net v4_join (v4_join_subnet oc) cluster pool
      ≡ fail negative_shift
    → check_requests net (requests oc f cluster) pool ≡ fail negative_shift
unfolding requests join_request
first_request net oc f cluster pool given panics = request_panics net _ _ pool given panics

-- Where every cluster network parses, one for IPv4 has a host prefix that is shorter than its own
-- prefix, and the field of the IPv4 join subnet holds an IPv4 subnet, validateOVNKubernetesSubnets
-- panics: no error is returned.
pub validation_panics :
    (net : NetLibrary)
    → IsNetLibrary net
    → (conf : NetworkSpec) (oc : OvnKubernetesConfig) (nets : List Subnet) (s : Subnet)
    → conf.ovn ≡ some oc
    → Each (Parses net) conf.cluster_network nets
    → prefixes_fit false conf.cluster_network nets ≡ false
    → net.parse_cidr (v4_join_subnet oc) ≡ some s
    → s.ip.is_ipv6 ≡ false
    → (v4_join_subnet oc == "") ≡ false
    → validate_ovn_kubernetes_subnets net conf ≡ fail negative_shift
unfolding validate_ovn_kubernetes_subnets
validation_panics net library conf oc nets s configured each unfit parsed v4 given = rw configured (
    rw (
      first_request net oc _ conf.cluster_network _ given (
        subnet_panics net library conf.cluster_network nets (v4_join_subnet oc) s v4_join _ each
          unfit parsed v4)))
