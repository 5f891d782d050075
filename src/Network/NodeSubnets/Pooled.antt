-- ===== src/Network/NodeSubnets/Pooled.antt =====
-- The networks of the configuration, as the validation puts them into its pool.
use mathlib.Core.List.{append_assoc, append-nil}
use cluster_network_operator.Prelude.{
  String, ◌≡◌, refl, sym, ap, subst, ◌∙◌, inl, inr, List, [], ◌∷◌, ◌++◌, some, Option-cases, All,
  arith, Outcome-cases, string_eq,
}
use cluster_network_operator.Network.Subnets.{Subnet, add}
use cluster_network_operator.Network.Subnets.Pool.{Apart, AllApart, AllApart-append, add_iff}
use cluster_network_operator.Network.Spec.{
  ClusterNetworkEntry, NetLibrary, IsNetLibrary, Families, seen,
}
use cluster_network_operator.Network.ClusterConfig.Loops.{Each, FitsService, all_seen}
use cluster_network_operator.Network.NodeSubnets.{pool_clusters, pool_services}

module _ (net : NetLibrary) where
  services_step :
      (snet : String) (service : List String) (pool : List Subnet)
      → (pool_services net (snet ∷ service) pool).1 ≡ []
      → (n : Subnet) × (net.parse_cidr snet ≡ some n)
        × All (λ m. Apart m n) pool
        × (pool_services net (snet ∷ service) pool ≡ pool_services net service (pool ++ n ∷ []))
  unfolding pool_services
  services_step snet service pool h = elim (Option-cases (net.parse_cidr snet)) [
    | inl bad ↦ absurd (ground arith)
    | inr (n, parsed) ↦ elim (Outcome-cases (add n pool)) [
      | inl (pool', added) ↦
          let (apart, last) = (add_iff n pool pool').0 added in
          (
            n,
            parsed,
            apart,
            rw (parsed, pool_services)
                (rw (added, pool_services) (ap (pool_services net service) last)),
          )
      | inr (e, failed) ↦ absurd (ground arith)
    ]
  ]

  pub pool_services_sound :
      (service : List String) (pool : List Subnet)
      → AllApart pool
      → (pool_services net service pool).1 ≡ []
      → (nets : List Subnet) × Each (FitsService net.parse_cidr) service nets
        × AllApart (pool ++ nets)
        × ((pool_services net service pool).0 ≡ pool ++ nets)
  unfolding pool_services
  pool_services_sound [] pool apart h = ([], tt, rw append-nil apart, sym (append-nil pool))
  pool_services_sound (snet ∷ service) pool apart h =
      let (n, parsed, new, step) = services_step snet service pool h in
      let (nets, each, apart', result) =
        pool_services_sound service (pool ++ n ∷ []) (AllApart-append pool n apart new)
          (sym (ap (λ r. r.1) step) ∙ h) in
      (
        n ∷ nets,
        (parsed, each),
        subst AllApart (append_assoc pool (n ∷ []) nets) apart',
        ap (λ r. r.0) step ∙ (result ∙ append_assoc pool (n ∷ []) nets),
      )

  clusters_step :
      (entry : ClusterNetworkEntry) (cluster : List ClusterNetworkEntry) (pool : List Subnet)
      (f : Families)
      → (pool_clusters net (entry ∷ cluster) pool f).2 ≡ []
      → (n : Subnet) × (net.parse_cidr entry.cidr ≡ some n)
        × All (λ m. Apart m n) pool
        × (pool_clusters net (entry ∷ cluster) pool f
            ≡ pool_clusters net cluster (pool ++ n ∷ []) (seen (net.is_ipv6_cidr entry.cidr) f))
  unfolding pool_clusters
  clusters_step entry cluster pool f h = elim (Option-cases (net.parse_cidr entry.cidr)) [
    | inl bad ↦ absurd (ground arith)
    | inr (n, parsed) ↦ elim (Outcome-cases (add n pool)) [
      | inl (pool', added) ↦
          let (apart, last) = (add_iff n pool pool').0 added in
          (
            n,
            parsed,
            apart,
            rw (parsed, pool_clusters)
                (rw (added, pool_clusters)
                  (ap (λ p. pool_clusters net cluster p (seen (net.is_ipv6_cidr entry.cidr) f))
                    last)),
          )
      | inr (e, failed) ↦ absurd (ground arith)
    ]
  ]

  pub pool_clusters_sound :
      IsNetLibrary net
      → (cluster : List ClusterNetworkEntry) (pool : List Subnet) (f : Families) → AllApart pool
      → (pool_clusters net cluster pool f).2 ≡ []
      → (nets : List Subnet) × Each (λ entry n. net.parse_cidr entry.cidr ≡ some n) cluster nets
        × AllApart (pool ++ nets)
        × ((pool_clusters net cluster pool f).0 ≡ pool ++ nets)
        × ((pool_clusters net cluster pool f).1 ≡ all_seen nets f)
  unfolding pool_clusters
  pool_clusters_sound library [] pool f apart h =
      ([], tt, rw append-nil apart, sym (append-nil pool), refl)
  pool_clusters_sound library (entry ∷ cluster) pool f apart h =
      let (n, parsed, new, step) = clusters_step entry cluster pool f h in
      let (nets, each, apart', result, families) =
        pool_clusters_sound library cluster (pool ++ n ∷ []) (seen (net.is_ipv6_cidr entry.cidr) f)
          (AllApart-append pool n apart new) (sym (ap (λ r. r.2) step) ∙ h) in
      (
        n ∷ nets,
        (parsed, each),
        subst AllApart (append_assoc pool (n ∷ []) nets) apart',
        ap (λ r. r.0) step ∙ (result ∙ append_assoc pool (n ∷ []) nets),
        ap (λ r. r.1) step
            ∙ (families
                ∙ ap (λ b. all_seen nets (seen b f)) (library.family_agrees entry.cidr n parsed)),
      )
