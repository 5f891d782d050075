-- ===== src/Network/NodeSubnets/Capacity.antt =====
-- The size check of the subnets, by the numbers of nodes that the cluster networks have room for.
use native.Mathlib.Nat.{mod-eq_of_lt, add_assoc}
use cluster_network_operator.Prelude.{
  ℕ, ◌+◌, ◌-◌, ◌%◌, ◌^◌, ◌≤◌, ◌<◌, String, ◌≡◌, ap, ◌∙◌, inl, inr, Bool, true, false, not,
  Bool-cases, List, [], ◌∷◌, ◌==◌, ==_iff, bool_eq, ◌||◌, ◌&&◌, some, arith, ltb, leb, ok, fail,
  if◌then◌else◌,
}
use cluster_network_operator.Network.Subnets.{Subnet, width}
use cluster_network_operator.Network.Spec.{ClusterNetworkEntry, NetLibrary, IsNetLibrary}
use cluster_network_operator.Network.ClusterConfig.Loops.{Each}
use cluster_network_operator.Network.NodeSubnets.{
  negative_shift, int_mod, is_below, v4_nodes, is_v4_node_subnet_large_enough, v6_nodes,
  is_v6_node_subnet_large_enough, is_large_enough,
}

abbrev pub Parses : NetLibrary → ClusterNetworkEntry → Subnet → Type 0
Parses net entry n = net.parse_cidr entry.cidr ≡ some n

-- how many nodes the cluster networks of a family have room for
abbrev pub node_count : Bool → List ClusterNetworkEntry → List Subnet → ℕ
node_count v6 (e ∷ cluster) (n ∷ nets) =
    let rest = node_count v6 cluster nets in
    if n.ip.is_ipv6 == v6 then 2 ^ (e.host_prefix - n.ones) + rest else rest
node_count v6 [] nets = 0
node_count v6 (e ∷ cluster) [] = 0

-- no host prefix of the family is shorter than its network's
abbrev pub prefixes_fit : Bool → List ClusterNetworkEntry → List Subnet → Bool
prefixes_fit v6 (e ∷ cluster) (n ∷ nets) =
    (not (n.ip.is_ipv6 == v6) || leb n.ones e.host_prefix) && prefixes_fit v6 cluster nets
prefixes_fit v6 [] nets = true
prefixes_fit v6 (e ∷ cluster) [] = true

-- One entry: another family's does not count, and the others fit and add their nodes.
fit_step :
    (v6 : Bool) (e : ClusterNetworkEntry) (n : Subnet) (cluster : List ClusterNetworkEntry)
    (nets : List Subnet)
    → prefixes_fit v6 (e ∷ cluster) (n ∷ nets) ≡ true
    → (prefixes_fit v6 cluster nets ≡ true)
      × ((n.ip.is_ipv6 ≡ v6) → ltb e.host_prefix n.ones ≡ false)
fit_step v6 e n cluster nets h =
    (ground arith, λ same. ground (arith, ==_iff n.ip.is_ipv6 v6, same))

short_mask : (mask most : ℕ) → mask ≤ most → ltb most mask ≡ false
short_mask mask most h = ground arith

below : (a b : ℕ) → a < 2 ^ 63 → is_below (0 + a) b ≡ ltb (a + 3) b
unfolding is_below
below a b h = ground arith

module _ (net : NetLibrary) (library : IsNetLibrary net) where
  v4_nodes_fit :
      (cluster : List ClusterNetworkEntry) (nets : List Subnet) (acc : ℕ)
      → Each (Parses net) cluster nets
      → prefixes_fit false cluster nets ≡ true
      → acc + node_count false cluster nets < int_mod
      → v4_nodes net cluster acc ≡ ok (acc + node_count false cluster nets)
  unfolding v4_nodes
  v4_nodes_fit [] [] acc each fit small = ap ok (omega arith)
  v4_nodes_fit [] (n ∷ nets) acc each fit small = absurd each
  v4_nodes_fit (e ∷ cluster) [] acc each fit small = absurd each
  v4_nodes_fit (e ∷ cluster) (n ∷ nets) acc each fit small =
      let family = library.family_agrees e.cidr n each.0 in
      let mask = library.mask_agrees e.cidr n each.0 in
      let (fit', fits) = fit_step false e n cluster nets fit in
      elim (Bool-cases n.ip.is_ipv6) [
        | inl v6 ↦ rw (family, v6) (v4_nodes_fit cluster nets acc each.1 fit' (rw v6 at small))
        | inr v4 ↦
            let small' : acc + (2 ^ (e.host_prefix - n.ones) + node_count false cluster nets)
                < int_mod =
              rw v4 at small in
            rw (family, v4, mask)
              (rw (fits v4) (
                rw
                  (mod-eq_of_lt {n = acc + 2 ^ (e.host_prefix - n.ones)} {m = int_mod}
                    (omega (arith, small')))
                  (v4_nodes_fit cluster nets (acc + 2 ^ (e.host_prefix - n.ones)) each.1 fit'
                      (omega (arith, small'))
                    ∙ ap ok (
                        add_assoc acc (2 ^ (e.host_prefix - n.ones))
                          (node_count false cluster nets)))))
      ]

  v6_nodes_fit :
      (cluster : List ClusterNetworkEntry) (nets : List Subnet) (acc : ℕ)
      → Each (Parses net) cluster nets
      → prefixes_fit true cluster nets ≡ true
      → v6_nodes net cluster acc ≡ ok (acc + node_count true cluster nets)
  unfolding v6_nodes
  v6_nodes_fit [] [] acc each fit = ap ok (omega arith)
  v6_nodes_fit [] (n ∷ nets) acc each fit = absurd each
  v6_nodes_fit (e ∷ cluster) [] acc each fit = absurd each
  v6_nodes_fit (e ∷ cluster) (n ∷ nets) acc each fit =
      let family = library.family_agrees e.cidr n each.0 in
      let mask = library.mask_agrees e.cidr n each.0 in
      let (fit', fits) = fit_step true e n cluster nets fit in
      elim (Bool-cases n.ip.is_ipv6) [
        | inl v6 ↦
            rw (family, v6, mask)
              (rw (fits v6) (
                v6_nodes_fit cluster nets (acc + 2 ^ (e.host_prefix - n.ones)) each.1 fit'
                ∙ ap ok
                    (add_assoc acc (2 ^ (e.host_prefix - n.ones)) (node_count true cluster nets))))
        | inr v4 ↦ rw (family, v4) (v6_nodes_fit cluster nets acc each.1 fit')
      ]

  v4_large :
      (cluster : List ClusterNetworkEntry) (nets : List Subnet) (subnet : String) (s : Subnet)
      → Each (Parses net) cluster nets
      → net.parse_cidr subnet ≡ some s
      → s.ones ≤ 32
      → prefixes_fit false cluster nets ≡ true
      → node_count false cluster nets < 2 ^ 63
      → is_v4_node_subnet_large_enough net cluster subnet
        ≡ ok (ltb (node_count false cluster nets + 3) (2 ^ (32 - s.ones)))
  unfolding is_v4_node_subnet_large_enough
  v4_large cluster nets subnet s each parsed short fit small =
      rw
        (
          v4_nodes_fit cluster nets 0 each fit (omega (arith, small)),
          library.mask_agrees subnet s parsed,
        )
        (rw (short_mask s.ones 32 short) (ap ok (below _ _ small)))

  v6_large :
      (cluster : List ClusterNetworkEntry) (nets : List Subnet) (subnet : String) (s : Subnet)
      → Each (Parses net) cluster nets
      → net.parse_cidr subnet ≡ some s
      → s.ones ≤ 128
      → prefixes_fit true cluster nets ≡ true
      → is_v6_node_subnet_large_enough net cluster subnet
        ≡ ok (leb (node_count true cluster nets + 3) (2 ^ (128 - s.ones)))
  unfolding is_v6_node_subnet_large_enough
  v6_large cluster nets subnet s each parsed short fit =
      rw (v6_nodes_fit cluster nets 0 each fit, library.mask_agrees subnet s parsed)
        (rw (short_mask s.ones 128 short)
          (ap (λ c. ok (leb (c + 3) (2 ^ (128 - s.ones)))) (omega arith)))

  pub v4_nodes_unfit :
      (cluster : List ClusterNetworkEntry) (nets : List Subnet) (acc : ℕ)
      → Each (Parses net) cluster nets
      → prefixes_fit false cluster nets ≡ false
      → v4_nodes net cluster acc ≡ fail negative_shift
  unfolding v4_nodes
  v4_nodes_unfit [] nets acc each unfit = cc
  v4_nodes_unfit (e ∷ cluster) [] acc each unfit = absurd each
  v4_nodes_unfit (e ∷ cluster) (n ∷ nets) acc each unfit =
      let family = library.family_agrees e.cidr n each.0 in
      let mask = library.mask_agrees e.cidr n each.0 in
      elim (Bool-cases n.ip.is_ipv6) [
        | inl v6 ↦ rw (family, v6) (v4_nodes_unfit cluster nets acc each.1 (rw v6 at unfit))
        | inr v4 ↦ elim (Bool-cases (ltb e.host_prefix n.ones)) [
          | inl short ↦ rw (family, v4, mask) (rw short)
          | inr fits ↦
              rw (family, v4, mask)
                (rw fits (
                  v4_nodes_unfit cluster nets ((acc + 2 ^ (e.host_prefix - n.ones)) % int_mod)
                    each.1 (ground (arith, v4, fits, unfit))))
        ]
      ]

  -- Where the cluster networks parse, there are some, and no host prefix of the subnet's family is
  -- shorter than its network's, the size check of the subnet runs through: an IPv6 subnet passes it
  -- exactly if it has three addresses at least besides those of the nodes of the IPv6 networks, an IPv4
  -- subnet if it has more than three besides those of the nodes of the IPv4 networks, whose number must
  -- fit in an int. The subnet's prefix is not longer than an address.
  pub size_check :
      (e : ClusterNetworkEntry) (cluster : List ClusterNetworkEntry) (nets : List Subnet)
      (subnet : String) (s : Subnet)
      → Each (Parses net) (e ∷ cluster) nets
      → net.parse_cidr subnet ≡ some s
      → s.ones ≤ width s.ip.is_ipv6
      → prefixes_fit s.ip.is_ipv6 (e ∷ cluster) nets ≡ true
      → (s.ip.is_ipv6 ≡ false → node_count false (e ∷ cluster) nets < 2 ^ 63)
      → is_large_enough net (e ∷ cluster) subnet
        ≡ ok (
            if s.ip.is_ipv6
            then leb (node_count true (e ∷ cluster) nets + 3) (2 ^ (128 - s.ones))
            else ltb (node_count false (e ∷ cluster) nets + 3) (2 ^ (32 - s.ones)))
  unfolding is_large_enough
  size_check e cluster nets subnet s each parsed short fit small =
      let family = library.family_agrees subnet s parsed in
      elim (Bool-cases s.ip.is_ipv6) [
        | inl v6 ↦
            rw (family, v6)
              (v6_large (e ∷ cluster) nets subnet s each parsed (rw v6 at short) (rw v6 at fit))
        | inr v4 ↦
            rw (family, v4)
              (v4_large (e ∷ cluster) nets subnet s each parsed (rw v4 at short) (rw v4 at fit)
                (small v4))
      ]
