-- ===== src/Network/NetworkChanges/Allowed.antt =====
-- The changes of the networks that are allowed.
use cluster_network_operator.Prelude.{
  String, ◌≡◌, ◌≢◌, ◌↔◌, ◌⊎◌, refl, sym, ap, inl, inr, Bool, true, false, not, ◌&&◌, List, [], ◌∷◌,
  Option, none, some, arith, ltb, ltb→lt, ◌<◌, ◌==◌, ==_iff, string_eq, nat_eq, bool_eq, list_eq,
  length, head?, is_some, if◌then◌else◌,
}
use cluster_network_operator.Network.Subnets.{Address}
use cluster_network_operator.Network.Spec.{
  ClusterNetworkEntry, NetworkSpec, NetLibrary, ovn_kubernetes,
}
use cluster_network_operator.Network.Equal.{cluster_network_entry_eq}
use cluster_network_operator.Network.ClusterConfig.{is_conversion_to_dual_stack_supported}
use cluster_network_operator.Network.NetworkChanges.{
  NetworkChangeError, Checked, sort_clusters, is_cluster_network_change_safe, compare_dual,
  compare_primary, compare_stacks, from_stacks, is_network_change_safe, primary_service_changed,
}
use cluster_network_operator.Network.NetworkChanges.Grown.{AllGrow, compare_clusters_iff}

pub taken {ℓ} :
    {A : Type ℓ} (b : Bool) (x y : A) {c : A}
    → (if b then x else y) ≡ c
    → ((b ≡ true) × (x ≡ c)) ⊎ ((b ≡ false) × (y ≡ c))
taken true x y h = inl (refl, h)
taken false x y h = inr (refl, h)

passed : (a c : Checked) → some a ≡ some c → c.error ≡ none → a.error ≡ none
passed a c h clean = ground (arith, h, clean)

refused :
    {e : NetworkChangeError} (a c : Checked)
    → some a ≡ some c
    → c.error ≡ none
    → a.error ≡ some e
    → ⊥
refused a c h clean failed = absurd (ground (arith, passed a c h clean, failed))

second_taken :
    (b : Bool) (e : NetworkChangeError) (x : Option (Option NetworkChangeError))
    → (if not b then some (some e) else x) ≡ some none
    → (b ≡ true) × (x ≡ some none)
second_taken b e x h = ground arith

module _ (net : NetLibrary) where
  -- The networks of the dual-stack configuration are the others, as far as both go, and after all of the
  -- others there are only networks of the other family.
  abbrev pub Extends : Bool → List ClusterNetworkEntry → List ClusterNetworkEntry → Type 0
  Extends v6 single [] = Unit {0}
  Extends v6 (s ∷ single) (d ∷ dual) = (s ≡ d) × Extends v6 single dual
  Extends v6 [] (d ∷ dual) = (net.is_ipv6_cidr d.cidr ≢ v6) × Extends v6 [] dual

  compare_dual_iff :
      (v6 : Bool) (single dual : List ClusterNetworkEntry)
      → (compare_dual net v6 single dual ≡ none) ↔ Extends v6 single dual
  unfolding compare_dual
  compare_dual_iff v6 [] [] = ground arith
  compare_dual_iff v6 (s ∷ single) [] = ground arith
  compare_dual_iff v6 (s ∷ single) (d ∷ dual) =
      ground (arith, ==_iff s d, compare_dual_iff v6 single dual)
  compare_dual_iff v6 [] (d ∷ dual) =
      ground (arith, ==_iff (net.is_ipv6_cidr d.cidr) v6, compare_dual_iff v6 [] dual)

  -- There are more service networks with two stacks, the primary one is the same, and so are the cluster
  -- networks but for additional ones, of the family that the first one is not of.
  abbrev pub IsStackChange :
      (single_service dual_service : List String) (single dual : List ClusterNetworkEntry) → Type 0
  IsStackChange single_service dual_service single dual =
      (length single_service < length dual_service)
      × (service : String) × (n : ClusterNetworkEntry) × (head? single_service ≡ some service)
      × (head? dual_service ≡ some service)
      × (head? single ≡ some n)
      × Extends (net.is_ipv6_cidr n.cidr) single dual

  stacks_lem :
      (single_service dual_service : List String) (single dual : List ClusterNetworkEntry)
      → ltb (length single_service) (length dual_service) ≡ true
      → compare_stacks net single_service dual_service single dual ≡ some none
      → IsStackChange single_service dual_service single dual
  unfolding compare_stacks
  stacks_lem [] dual_service single dual more h = absurd (ground arith)
  stacks_lem (s ∷ services) [] single dual more h = absurd (ground arith)
  stacks_lem (s ∷ services) (d ∷ services') [] dual more h = absurd (ground arith)
  stacks_lem (s ∷ services) (d ∷ services') (n ∷ single) dual more h =
      let (heads, rest) =
        second_taken (s == d) primary_service_changed (compare_primary net (n ∷ single) dual) h in
      (
        ltb→lt (length (s ∷ services)) (length (d ∷ services')) more,
        s,
        n,
        refl,
        ap some (sym ((==_iff s d).0 heads)),
        refl,
        (compare_dual_iff (net.is_ipv6_cidr n.cidr) (n ∷ single) dual).0 (ground (arith, rest)),
      )

  from_stacks_lem :
      (prev next : NetworkSpec) (o : Option (Option NetworkChangeError)) (c : Checked)
      → from_stacks prev next o ≡ some c
      → c.error ≡ none
      → o ≡ some none
  from_stacks_lem prev next none c h clean = absurd (ground arith)
  from_stacks_lem prev next (some e) c h clean = ground arith

module _ (net : NetLibrary) (parse_ip : String → Option Address)
    (text_before : String → String → Bool) where
  -- The cluster networks of ovn-kubernetes are as many as before, and grow, in the order of their texts.
  abbrev pub IsGrowth : NetworkSpec → NetworkSpec → Type 0
  IsGrowth prev next =
      (length prev.cluster_network ≡ length next.cluster_network)
      × (next.network_type ≡ ovn_kubernetes)
      × AllGrow net parse_ip (sort_clusters net parse_ip text_before prev).cluster_network
          (sort_clusters net parse_ip text_before next).cluster_network

  growth_lem :
      (prev next : NetworkSpec)
      → (is_cluster_network_change_safe net parse_ip text_before prev next).error ≡ none
      → IsGrowth prev next
  unfolding is_cluster_network_change_safe
  growth_lem prev next clean = ground (
    arith,
    ==_iff (length prev.cluster_network) (length next.cluster_network),
    ==_iff next.network_type ovn_kubernetes,
    compare_clusters_iff net parse_ip (sort_clusters net parse_ip text_before prev).cluster_network
        (sort_clusters net parse_ip text_before next).cluster_network,
  )

  abbrev pub IsAllowed : String → NetworkSpec → NetworkSpec → Type 0
  IsAllowed platform prev next =
      ((prev.cluster_network ≡ next.cluster_network)
        × (prev.service_network ≡ next.service_network))
      ⊎ ((prev.service_network ≡ next.service_network) × IsGrowth prev next)
      ⊎ ((is_conversion_to_dual_stack_supported platform ≡ true)
          × IsStackChange net prev.service_network next.service_network prev.cluster_network
              next.cluster_network)
      ⊎ IsStackChange net next.service_network prev.service_network next.cluster_network
          prev.cluster_network

  -- Outside of a migration, a change of the networks that is let pass, and that no panic ends, is one of
  -- these: nothing changes;
  -- the service networks are the same and the cluster networks of ovn-kubernetes grow; there are more
  -- service networks where the platform supports it, or fewer, and the first one is the same. Then the
  -- cluster networks of the side with more service networks are those of the other side, as far as both
  -- go, and all that it has beyond them are of another family than the other side's first one.
  pub is_network_change_safe-IsAllowed :
      (platform : String) (prev next : NetworkSpec) (c : Checked)
      → prev.migration ≡ none
      → is_network_change_safe net parse_ip text_before platform prev next ≡ some c
      → c.error ≡ none
      → IsAllowed platform prev next
  unfolding is_network_change_safe
  is_network_change_safe-IsAllowed platform prev next c still checked clean =
      let same_service = prev.service_network == next.service_network in
      let service = ==_iff prev.service_network next.service_network in
      let cluster = ==_iff prev.cluster_network next.cluster_network in
      elim (taken (is_some prev.migration) _ _ checked) [
        | inl (migrates, _) ↦ absurd (ground (arith, still, migrates))
        | inr (_, h) ↦
            elim (taken (prev.cluster_network == next.cluster_network && same_service) _ _ h) [
              | inl (same, _) ↦ inl (ground (arith, service, cluster, same))
              | inr (_, h') ↦
                  elim (taken (ltb (length prev.service_network) (length next.service_network)) _ _
                    h') [
                      | inl (more, up) ↦
                          elim (taken (not (is_conversion_to_dual_stack_supported platform)) _ _
                            up) [
                              | inl (_, failed) ↦ absurd (refused _ c failed clean refl)
                              | inr (supported, stacks) ↦ inr (
                                  inr (
                                    inl (
                                      ground (arith, supported),
                                      stacks_lem net _ _ _ _ more
                                          (from_stacks_lem net prev next _ c stacks clean),
                                    )))
                            ]
                      | inr (_, h'') ↦
                          elim (taken
                            (ltb (length next.service_network) (length prev.service_network)) _ _
                            h'') [
                              | inl (more, down) ↦ inr (
                                  inr (
                                    inr (
                                      stacks_lem net _ _ _ _ more
                                        (from_stacks_lem net prev next _ c down clean))))
                              | inr (_, last) ↦ elim (taken (not same_service) _ _ last) [
                                | inl (_, failed) ↦ absurd (refused _ c failed clean refl)
                                | inr (same, grown) ↦ inr (
                                    inl (
                                      ground (arith, service, same),
                                      growth_lem prev next (passed _ c grown clean),
                                    ))
                              ]
                            ]
                    ]
            ]
      ]
