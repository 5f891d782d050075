-- ===== src/Network/NetworkChanges/Grown.antt =====
-- What may become of the cluster networks when there is no change of the stack.
use native.Mathlib.Nat.{div-div-eq-div-mul}
use cluster_network_operator.Prelude.{
  ℕ, ◌/◌, ◌≤◌, String, ◌≡◌, ◌↔◌, refl, sym, ap, subst, ◌∙◌, List, [], ◌∷◌, Option, none, some,
  arith, ==_iff, nat_eq, option_eq, is_some, if◌then◌else◌,
}
use cluster_network_operator.Network.Subnets.{Address, Subnet, width, block}
use cluster_network_operator.Network.Subnets.Overlap.{Contains, blocks_nest}
use cluster_network_operator.Network.Spec.{ClusterNetworkEntry, NetLibrary}
use cluster_network_operator.Network.Equal.{address_eq}
use cluster_network_operator.Network.NetworkChanges.{compare_ranges, compare_nets, compare_clusters}

same_ones :
    (s small l large : Subnet)
    → some small ≡ some s
    → some large ≡ some l
    → l.ones ≤ s.ones
    → large.ones ≤ small.ones
same_ones s small l large hs hl ones = ground arith

same_address {ℓ} : {A : Type ℓ} (a b : A) → some a ≡ some b → a ≡ b
same_address a b h = ground arith

-- A smaller mask around an address of the network has all its addresses.
wider :
    (small large : Subnet) (a x : Address)
    → large.ones ≤ small.ones
    → Contains small a
    → Contains large a
    → Contains small x
    → Contains large x
wider small large a x ones in_small in_large x_small =
    let family = in_small.0 ∙ sym in_large.0 in
    let (k, nest) = blocks_nest small large family (omega (arith, ones, ap width family)) in
    let coarse : (v : ℕ) → v / block large ≡ v / block small / k =
      λ v. ap (λ m. v / m) nest ∙ sym (div-div-eq-div-mul v (block small) k) in
    (
      sym family ∙ x_small.0,
      in_large.1
          ∙ (coarse a.value
              ∙ (ap (λ q. q / k) (sym in_small.1 ∙ x_small.1) ∙ sym (coarse x.value))),
    )

module _ (net : NetLibrary) (parse_ip : String → Option Address) where
  -- Both are networks, and the second one has the first one's host prefix, address and at most its mask.
  abbrev pub Grows : ClusterNetworkEntry → ClusterNetworkEntry → Type 0
  Grows e n =
      (small : Subnet) × (large : Subnet) × (net.parse_cidr e.cidr ≡ some small)
      × (net.parse_cidr n.cidr ≡ some large)
      × (e.host_prefix ≡ n.host_prefix)
      × (parse_ip e.cidr ≡ parse_ip n.cidr)
      × (large.ones ≤ small.ones)

  abbrev pub AllGrow : List ClusterNetworkEntry → List ClusterNetworkEntry → Type 0
  AllGrow [] next = Unit {0}
  AllGrow (e ∷ prev) [] = Unit {0}
  AllGrow (e ∷ prev) (n ∷ next) = Grows e n × AllGrow prev next

  parsed_iff :
      (e n : ClusterNetworkEntry) (small large : Subnet)
      → (compare_ranges net parse_ip e n small large ≡ none) ↔ (
          (e.host_prefix ≡ n.host_prefix)
          × (parse_ip e.cidr ≡ parse_ip n.cidr)
          × (large.ones ≤ small.ones))
  parsed_iff e n small large =
      ground (arith, ==_iff e.host_prefix n.host_prefix, ==_iff (parse_ip e.cidr) (parse_ip n.cidr))

  options_iff :
      (e n : ClusterNetworkEntry) (a b : Option Subnet)
      → (compare_nets net parse_ip e n a b ≡ none) ↔ (
          (small : Subnet) × (large : Subnet) × (a ≡ some small)
          × (b ≡ some large)
          × (e.host_prefix ≡ n.host_prefix)
          × (parse_ip e.cidr ≡ parse_ip n.cidr)
          × (large.ones ≤ small.ones))
  options_iff e n none b = ground arith
  options_iff e n (some small) none = ground arith
  options_iff e n (some small) (some large) = (
    λ h.
        let (prefixes, ips, ones) = (parsed_iff e n small large).0 h in
        (small, large, refl, refl, prefixes, ips, ones),
    λ (s, l, hs, hl, prefixes, ips, ones).
        (parsed_iff e n small large).1 (prefixes, ips, same_ones s small l large hs hl ones),
  )

  pub compare_nets_iff :
      (e n : ClusterNetworkEntry)
      → (compare_nets net parse_ip e n (net.parse_cidr e.cidr) (net.parse_cidr n.cidr) ≡ none)
        ↔ Grows e n
  compare_nets_iff e n = options_iff e n (net.parse_cidr e.cidr) (net.parse_cidr n.cidr)

  first_error :
      {E : Type 0} (first rest : Option E)
      → ((if is_some first then first else rest) ≡ none) ↔ ((first ≡ none) × (rest ≡ none))
  first_error none rest = ground arith
  first_error (some e) rest = ground arith

  pub compare_clusters_iff :
      (prev next : List ClusterNetworkEntry)
      → (compare_clusters net parse_ip prev next ≡ none) ↔ AllGrow prev next
  unfolding compare_clusters
  compare_clusters_iff [] next = ground arith
  compare_clusters_iff (e ∷ prev) [] = ground arith
  compare_clusters_iff (e ∷ prev) (n ∷ next) =
      let found = compare_nets net parse_ip e n (net.parse_cidr e.cidr) (net.parse_cidr n.cidr) in
      let step = first_error found (compare_clusters net parse_ip prev next) in
      let grows = compare_nets_iff e n in
      let rest = compare_clusters_iff prev next in
      (λ h. (grows.0 (step.0 h).0, rest.0 (step.0 h).1), λ (g, r). step.1 (grows.1 g, rest.1 r))

-- A cluster network that grows keeps its addresses: the address that is written lies in both.
pub Grows-keeps :
    (net : NetLibrary) (parse_ip : String → Option Address)
    → ((t : String) (s : Subnet)
        → net.parse_cidr t ≡ some s
        → (a : Address) × (parse_ip t ≡ some a) × Contains s a)
    → (e n : ClusterNetworkEntry) (small large : Subnet) → net.parse_cidr e.cidr ≡ some small
    → net.parse_cidr n.cidr ≡ some large
    → compare_nets net parse_ip e n (net.parse_cidr e.cidr) (net.parse_cidr n.cidr) ≡ none
    → (x : Address) → Contains small x
    → Contains large x
Grows-keeps net parse_ip written e n small large here there accepted x inside =
    let (s, t, hs, ht, prefixes, same, ones) = (compare_nets_iff net parse_ip e n).0 accepted in
    let (a, is_a, in_small) = written e.cidr small here in
    let (b, is_b, in_large) = written n.cidr large there in
    wider small large a x (same_ones s small t large (sym here ∙ hs) (sym there ∙ ht) ones) in_small
      (subst (Contains large) (same_address b a (sym is_b ∙ (sym same ∙ is_a))) in_large) inside
