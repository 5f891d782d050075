-- ===== src/Network/NodeSubnets.antt =====
-- ovn_kubernetes.go: the subnets that ovn-kubernetes uses itself (join, transit switch, masquerade),
-- whether they are large enough for the nodes, and whether they are free. Where the code panics, on a
-- text without a slash or on a shift by a negative number, the result is a `Panic`.
pub mod Capacity
pub mod Pooled
pub mod Sound
pub mod Panics
use cluster_network_operator.Prelude.{
  ℕ, ◌+◌, ◌-◌, ◌%◌, ◌^◌, String, Bool, true, false, not, ◌&&◌, List, [], ◌∷◌, ◌++◌, Option, none,
  some, ◌==◌, string_eq, nat_eq, bool_eq, ltb, leb, if◌then◌else◌, Outcome, ok, fail, ◌>>=◌, ◌>>◌,
  fail_if,
}
use cluster_network_operator.Network.Subnets.{Subnet, PoolError, add}
use cluster_network_operator.Network.Spec.{
  ClusterNetworkEntry, InternalSubnets, GatewayConfig, OvnKubernetesConfig, NetworkSpec, NetLibrary,
  Families, no_families, seen,
}

pub data Panic : Type 0 where
  index_out_of_range negative_shift shift_too_large : Panic

pub data SubnetName : Type 0 where
  v4_join v6_join v4_transit_switch v6_transit_switch v4_masquerade v6_masquerade : SubnetName

pub data SubnetsError : Type 0 where
  cluster_invalid service_invalid : String → SubnetsError
  cluster_taken service_taken : String → PoolError → SubnetsError
  join_differs : String → SubnetsError
  family_mismatch : SubnetName → String → SubnetsError
  invalid : SubnetName → SubnetsError
  not_large_enough : SubnetName → String → SubnetsError
  taken : SubnetName → String → PoolError → SubnetsError

-- the 64 bits of an int
abbrev pub int_mod : ℕ
int_mod = 2 ^ 64

-- a < b - 3 for an int `a`, as its bits, and a small positive `b`
unfoldable pub is_below : ℕ → ℕ → Bool
is_below a b = if leb (2 ^ 63) a then ltb (a + 3) (b + int_mod) else ltb (a + 3) b

-- strconv.Atoi(strings.Split(cidr, "/")[1])
abbrev pub mask_of : Option ℕ → Outcome Panic ℕ
mask_of none = fail index_out_of_range
mask_of (some mask) = ok mask

-- one of the six subnets that a configuration may name
pub record Request : Type 0 where
  pub name : SubnetName
  pub subnet : String
  pub has_family : Bool  -- whether there is a cluster network of its family
  pub cluster : List ClusterNetworkEntry  -- the networks whose nodes it must have room for
  pub deprecated : List SubnetsError

module _ (net : NetLibrary) where
  -- the loop over the cluster networks of the family: how many nodes they have room for
  unfoldable pub v4_nodes : List ClusterNetworkEntry → ℕ → Outcome Panic ℕ
  v4_nodes [] nodes = ok nodes
  v4_nodes (n ∷ cluster) nodes =
      let skipped = v4_nodes cluster nodes in
      if net.is_ipv6_cidr n.cidr then skipped else (do
        mask ← mask_of (net.mask_text n.cidr)
        fail_if (ltb n.host_prefix mask) negative_shift
        v4_nodes cluster ((nodes + 2 ^ (n.host_prefix - mask)) % int_mod))

  unfoldable pub is_v4_node_subnet_large_enough :
      List ClusterNetworkEntry → String → Outcome Panic Bool
  unfolding v4_nodes is_below
  is_v4_node_subnet_large_enough cluster subnet = do
    nodes ← v4_nodes cluster 0
    mask ← mask_of (net.mask_text subnet)
    fail_if (ltb 32 mask) negative_shift
    ok (is_below nodes (2 ^ (32 - mask)))

  unfoldable pub v6_nodes : List ClusterNetworkEntry → ℕ → Outcome Panic ℕ
  v6_nodes [] nodes = ok nodes
  v6_nodes (n ∷ cluster) nodes =
      let skipped = v6_nodes cluster nodes in
      if not (net.is_ipv6_cidr n.cidr) then skipped else (do
        mask ← mask_of (net.mask_text n.cidr)
        fail_if (ltb n.host_prefix mask) shift_too_large
        v6_nodes cluster (nodes + 2 ^ (n.host_prefix - mask)))

  unfoldable pub is_v6_node_subnet_large_enough :
      List ClusterNetworkEntry → String → Outcome Panic Bool
  unfolding v6_nodes
  is_v6_node_subnet_large_enough cluster subnet = do
    nodes ← v6_nodes cluster 0
    mask ← mask_of (net.mask_text subnet)
    fail_if (ltb 128 mask) shift_too_large
    ok (leb (nodes + 3) (2 ^ (128 - mask)))

  -- whether the size is to be checked, and is too small; there are no networks for the masquerade
  -- subnets, which is a nil slice like that of a configuration without cluster networks
  unfoldable pub is_large_enough : List ClusterNetworkEntry → String → Outcome Panic Bool
  unfolding is_v4_node_subnet_large_enough is_v6_node_subnet_large_enough
  is_large_enough [] subnet = ok true
  is_large_enough (n ∷ cluster) subnet =
      if net.is_ipv6_cidr subnet
      then is_v6_node_subnet_large_enough (n ∷ cluster) subnet
      else is_v4_node_subnet_large_enough (n ∷ cluster) subnet

  -- the pool after the subnet, and the error if there is one
  unfoldable pub validate_ovn_kubernetes_subnet :
      SubnetName
      → String
      → List ClusterNetworkEntry
      → List Subnet
      → Outcome Panic (List Subnet × List SubnetsError)
  unfolding is_large_enough
  validate_ovn_kubernetes_subnet name subnet cluster pool = elim (net.parse_cidr subnet) [
    | none ↦ ok (pool, invalid name ∷ [])
    | some cidr ↦ do
      enough ← is_large_enough cluster subnet
      ok (
          if not enough then (pool, not_large_enough name subnet ∷ []) else (elim (add cidr pool) [
            | ok pool' ↦ (pool', [])
            | fail e ↦ (pool, taken name subnet e ∷ [])
          ]))
  ]

  unfoldable pub check_request :
      Request → List Subnet → Outcome Panic (List Subnet × List SubnetsError)
  unfolding validate_ovn_kubernetes_subnet
  check_request r pool = if r.subnet == "" then ok (pool, r.deprecated) else (do
    (pool', errors) ← validate_ovn_kubernetes_subnet r.name r.subnet r.cluster pool
    ok (
      pool',
      r.deprecated
          ++ ((if r.has_family then [] else family_mismatch r.name r.subnet ∷ []) ++ errors),
    ))

  unfoldable pub check_requests :
      List Request → List Subnet → Outcome Panic (List Subnet × List SubnetsError)
  unfolding check_request
  check_requests [] pool = ok (pool, [])
  check_requests (r ∷ requests) pool = do
    (pool', errors) ← check_request r pool
    (final, later) ← check_requests requests pool'
    ok (final, errors ++ later)

  -- the loops over the networks of the configuration
  unfoldable pub pool_clusters :
      List ClusterNetworkEntry → List Subnet → Families → List Subnet × Families × List SubnetsError
  pool_clusters [] pool f = (pool, f, [])
  pool_clusters (n ∷ cluster) pool f =
      let skipped = pool_clusters cluster pool f in
      elim (net.parse_cidr n.cidr) [
        | none ↦ (skipped.0, skipped.1, cluster_invalid n.cidr ∷ skipped.2)
        | some cidr ↦
            let f' = seen (net.is_ipv6_cidr n.cidr) f in
            elim (add cidr pool) [
              | ok pool' ↦ pool_clusters cluster pool' f'
              | fail e ↦
                  let (p, g, errors) = pool_clusters cluster pool f' in
                  (p, g, cluster_taken n.cidr e ∷ errors)
            ]
      ]

  unfoldable pub pool_services : List String → List Subnet → List Subnet × List SubnetsError
  pool_services [] pool = (pool, [])
  pool_services (snet ∷ service) pool =
      let (skipped, later) = pool_services service pool in
      elim (net.parse_cidr snet) [
        | none ↦ (skipped, service_invalid snet ∷ later)
        | some cidr ↦ elim (add cidr pool) [
          | ok pool' ↦ pool_services service pool'
          | fail e ↦ (skipped, service_taken snet e ∷ later)
        ]
      ]

-- the join subnet: the new field, which must be the deprecated one if both are set
abbrev pub join_subnet : Option InternalSubnets → String
join_subnet none = ""
join_subnet (some s) = s.join

abbrev pub transit_switch_subnet : Option InternalSubnets → String
transit_switch_subnet none = ""
transit_switch_subnet (some s) = s.transit_switch

abbrev pub masquerade_subnet_v4 : Option GatewayConfig → String
masquerade_subnet_v4 none = ""
masquerade_subnet_v4 (some g) = g.masquerade_v4

abbrev pub masquerade_subnet_v6 : Option GatewayConfig → String
masquerade_subnet_v6 none = ""
masquerade_subnet_v6 (some g) = g.masquerade_v6

unfoldable pub join_request :
    SubnetName → String → Option InternalSubnets → Bool → List ClusterNetworkEntry → Request
join_request name old new has_family cluster =
    let join = join_subnet new in
    record {
      name = name;
      subnet = if join == "" then old else join;
      has_family = has_family;
      cluster = cluster;
      deprecated =
          if not (join == "") && (not (old == "") && not (old == join))
          then join_differs join ∷ []
          else [];
    }

abbrev pub plain_request : SubnetName → String → Bool → List ClusterNetworkEntry → Request
plain_request name subnet has_family cluster = record {
  name = name;
  subnet = subnet;
  has_family = has_family;
  cluster = cluster;
  deprecated = [];
}

-- the six subnets, in the order of the code
unfoldable pub requests : OvnKubernetesConfig → Families → List ClusterNetworkEntry → List (Request)
unfolding join_request
requests oc f cluster =
    join_request v4_join oc.v4_internal_subnet oc.ipv4 f.ipv4 cluster
    ∷ join_request v6_join oc.v6_internal_subnet oc.ipv6 f.ipv6 cluster
    ∷ plain_request v4_transit_switch (transit_switch_subnet oc.ipv4) f.ipv4 cluster
    ∷ plain_request v6_transit_switch (transit_switch_subnet oc.ipv6) f.ipv6 cluster
    ∷ plain_request v4_masquerade (masquerade_subnet_v4 oc.gateway) f.ipv4 []
    ∷ plain_request v6_masquerade (masquerade_subnet_v6 oc.gateway) f.ipv6 []
    ∷ []

module _ (net : NetLibrary) where
  unfoldable pub validate_ovn_kubernetes_subnets : NetworkSpec → Outcome Panic (List SubnetsError)
  unfolding pool_clusters pool_services check_requests requests
  validate_ovn_kubernetes_subnets conf = elim conf.ovn [
    | none ↦ ok []
    | some oc ↦
        let (pool, f, bad_clusters) = pool_clusters net conf.cluster_network [] no_families in
        let (pool', bad_services) = pool_services net conf.service_network pool in
        do
          (final, errors) ← check_requests net (requests oc f conf.cluster_network) pool'
          ok (bad_clusters ++ (bad_services ++ errors))
  ]
