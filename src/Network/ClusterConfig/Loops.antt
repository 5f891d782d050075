-- ===== src/Network/ClusterConfig/Loops.antt =====
-- The loops of ValidateClusterConfig, by the networks that the texts stand for.
use mathlib.Core.List.{append_assoc, append-nil}
use cluster_network_operator.Prelude.{
  ◌-◌, ◌≤◌, String, ◌≡◌, ◌↔◌, refl, sym, ap, subst, ◌∙◌, fun_ext, inl, inr, true, List, [], ◌∷◌,
  ◌++◌, Option, some, Option-cases, Bool-cases, All, arith, Outcome, ok, Outcome-cases,
  ok-injective, ◌>>=◌, ◌>>◌, >>=-eq-ok,
}
use cluster_network_operator.Network.Subnets.{Subnet, width, add}
use cluster_network_operator.Network.Subnets.Pool.{Apart, AllApart, AllApart-append, add_iff}
use cluster_network_operator.Network.Spec.{ClusterNetworkEntry, Families, seen}
use cluster_network_operator.Network.Pools.{PoolsError, Pools, uses_host_prefix}
use cluster_network_operator.Network.ClusterConfig.{
  add_to, check_host_prefix, add_service, add_services, add_cluster, add_clusters,
}

-- the pool and the families with one more network
abbrev pub with_net : Subnet → Pools → Pools
with_net n p = record { pool = p.pool ++ n ∷ []; families = seen n.ip.is_ipv6 p.families }

abbrev pub all_seen : List Subnet → Families → Families
all_seen [] f = f
all_seen (n ∷ nets) f = all_seen nets (seen n.ip.is_ipv6 f)

-- The prefix of the hosts lies in the network's mask, and leaves at least two bits.
abbrev pub HostPrefixFits : String → ClusterNetworkEntry → Subnet → Type 0
HostPrefixFits network_type entry n =
    uses_host_prefix network_type entry ≡ true
    → (n.ones ≤ entry.host_prefix) × (entry.host_prefix ≤ width n.ip.is_ipv6 - 2)

-- item by item, the networks are those of the list
abbrev pub Each {ℓ} : {X : Type ℓ} → (X → Subnet → Type 0) → List X → List Subnet → Type 0
Each Fits [] [] = Unit {0}
Each Fits (x ∷ xs) (n ∷ nets) = Fits x n × Each Fits xs nets
Each Fits [] (n ∷ nets) = ⊥
Each Fits (x ∷ xs) [] = ⊥

add_to_pool :
    (n : Subnet) (p q : Pools)
    → add_to n p ≡ ok q
    → (pool : List Subnet) × (add n p.pool ≡ ok pool)
      × (q ≡ record { pool = pool; families = seen n.ip.is_ipv6 p.families })
add_to_pool n p q h = elim (Outcome-cases (add n p.pool)) [
  | inl (pool, added) ↦ (pool, added, ground arith)
  | inr (e, failed) ↦ absurd (ground arith)
]

add_to_iff :
    (n : Subnet) (p q : Pools)
    → (add_to n p ≡ ok q) ↔ (All (λ m. Apart m n) p.pool × (q ≡ with_net n p))
add_to_iff n p q = (
  λ h.
      let (pool, added, result) = add_to_pool n p q h in
      let (apart, last) = (add_iff n p.pool pool).0 added in
      (apart, result ∙ ap (λ l. record { pool = l; families = seen n.ip.is_ipv6 p.families }) last),
  λ (apart, result).
      rw ((add_iff n p.pool (p.pool ++ n ∷ [])).1 (apart, refl), add_to) (ap ok (sym result)),
)

host_prefix_iff :
    (network_type : String) (entry : ClusterNetworkEntry) (n : Subnet)
    → (check_host_prefix network_type entry n ≡ ok tt) ↔ HostPrefixFits network_type entry n
host_prefix_iff network_type entry n = (fits, passes)
  where
    fits : check_host_prefix network_type entry n ≡ ok tt → HostPrefixFits network_type entry n
    fits h used = unfold check_host_prefix in ground arith

    passes : HostPrefixFits network_type entry n → check_host_prefix network_type entry n ≡ ok tt
    passes h = elim (Bool-cases (uses_host_prefix network_type entry)) [
      | inl used ↦ unfold check_host_prefix in ground (arith, h used)
      | inr not_used ↦ unfold check_host_prefix in ground arith
    ]

All_middle :
    (P : Subnet → Type 0) (before : List Subnet) (n : Subnet) (after : List Subnet)
    → All P (before ++ n ∷ after)
    → P n
All_middle P [] n after h = h.0
All_middle P (m ∷ before) n after h = All_middle P before n after h.1

apart_before :
    (before : List Subnet) (n : Subnet) (after : List Subnet)
    → AllApart (before ++ n ∷ after)
    → All (λ m. Apart m n) before
apart_before [] n after h = tt
apart_before (m ∷ before) n after h =
    (All_middle (Apart m) before n after h.0, apart_before before n after h.1)

-- A loop over items that each add one network: what holds of one step, for the whole loop.
module _ {X : Type 0} (step : X → Pools → Outcome PoolsError Pools) (Fits : X → Subnet → Type 0)
    (steps : (x : X) (p q : Pools)
      → (step x p ≡ ok q)
        ↔ ((n : Subnet) × Fits x n × All (λ m. Apart m n) p.pool × (q ≡ with_net n p))) where
  pub run : List X → Pools → Outcome PoolsError Pools
  run [] p = ok p
  run (x ∷ xs) p = step x p >>= λ p'. run xs p'

  abbrev pub with_nets : List Subnet → Pools → Pools
  with_nets nets p = record { pool = p.pool ++ nets; families = all_seen nets p.families }

  with_nets_step :
      (n : Subnet) (nets : List Subnet) (p : Pools)
      → with_nets nets (with_net n p) ≡ with_nets (n ∷ nets) p
  with_nets_step n nets p =
      ap (λ l. record { pool = l; families = all_seen nets (seen n.ip.is_ipv6 p.families) })
        (append_assoc p.pool (n ∷ []) nets)

  pub run_sound :
      (xs : List X) (p q : Pools)
      → AllApart p.pool
      → run xs p ≡ ok q
      → (nets : List Subnet) × Each Fits xs nets
        × AllApart (p.pool ++ nets)
        × (q ≡ with_nets nets p)
  unfolding run
  run_sound [] p q apart h = (
    [],
    tt,
    rw append-nil apart,
    sym (ok-injective h)
        ∙ ap (λ l. record { pool = l; families = p.families }) (sym (append-nil p.pool)),
  )
  run_sound (x ∷ xs) p q apart h =
      let (p', first, rest) = >>=-eq-ok (step x p) (λ p'. run xs p') h in
      let (n, fits, new, eq) = (steps x p p').0 first in
      let all = AllApart-append p.pool n apart new in
      let (nets, each, apart', eq') =
        run_sound xs (with_net n p) q all (subst (λ s. run xs s ≡ ok q) eq rest) in
      (
        n ∷ nets,
        (fits, each),
        subst AllApart (append_assoc p.pool (n ∷ []) nets) apart',
        eq' ∙ with_nets_step n nets p,
      )

  pub run_complete :
      (xs : List X) (nets : List Subnet) (p : Pools)
      → AllApart (p.pool ++ nets)
      → Each Fits xs nets
      → run xs p ≡ ok (with_nets nets p)
  unfolding run
  run_complete [] [] p apart each =
      ap (λ l. ok (record { pool = l; families = p.families })) (sym (append-nil p.pool))
  run_complete (x ∷ xs) (n ∷ nets) p apart each =
      let first =
        (steps x p (with_net n p)).1 (n, each.0, apart_before p.pool n nets apart, refl) in
      rw first (
        run_complete xs nets (with_net n p)
          (subst AllApart (sym (append_assoc p.pool (n ∷ []) nets)) apart) each.1
        ∙ ap ok (with_nets_step n nets p))
  run_complete [] (n ∷ nets) p apart each = absurd each
  run_complete (x ∷ xs) [] p apart each = absurd each

module _ (parse_cidr : String → Option Subnet) where
  abbrev pub FitsService : String → Subnet → Type 0
  FitsService snet n = parse_cidr snet ≡ some n

  abbrev pub FitsCluster : String → ClusterNetworkEntry → Subnet → Type 0
  FitsCluster network_type entry n =
      (parse_cidr entry.cidr ≡ some n) × HostPrefixFits network_type entry n

  service_parsed :
      (snet : String) (p q : Pools)
      → add_service parse_cidr snet p ≡ ok q
      → (n : Subnet) × (parse_cidr snet ≡ some n) × (add_to n p ≡ ok q)
  unfolding add_service
  service_parsed snet p q h = elim (Option-cases (parse_cidr snet)) [
    | inl bad ↦ absurd (ground arith)
    | inr (n, parsed) ↦ (n, parsed, rw (parsed, add_service) at h)
  ]

  cluster_parsed :
      (network_type : String) (entry : ClusterNetworkEntry) (p q : Pools)
      → add_cluster parse_cidr network_type entry p ≡ ok q
      → (n : Subnet) × (parse_cidr entry.cidr ≡ some n)
        × (check_host_prefix network_type entry n ≡ ok tt)
        × (add_to n p ≡ ok q)
  unfolding add_cluster
  cluster_parsed network_type entry p q h = elim (Option-cases (parse_cidr entry.cidr)) [
    | inl bad ↦ absurd (ground arith)
    | inr (n, parsed) ↦
        let h' : (check_host_prefix network_type entry n >> add_to n p) ≡ ok q =
          rw (parsed, add_cluster) at h in
        let (done, checked, added) =
          >>=-eq-ok (check_host_prefix network_type entry n) (λ done. add_to n p) h' in
        (n, parsed, checked, added)
  ]

  pub service_iff :
      (snet : String) (p q : Pools)
      → (add_service parse_cidr snet p ≡ ok q)
        ↔ ((n : Subnet) × FitsService snet n × All (λ m. Apart m n) p.pool × (q ≡ with_net n p))
  service_iff snet p q = (
    λ h.
        let (n, parsed, added) = service_parsed snet p q h in
        (n, parsed, ((add_to_iff n p q).0 added).0, ((add_to_iff n p q).0 added).1),
    λ (n, parsed, apart, result).
        unfold add_service in rw (parsed, add_service) ((add_to_iff n p q).1 (apart, result)),
  )

  pub cluster_iff :
      (network_type : String) (entry : ClusterNetworkEntry) (p q : Pools)
      → (add_cluster parse_cidr network_type entry p ≡ ok q) ↔ (
          (n : Subnet) × FitsCluster network_type entry n
          × All (λ m. Apart m n) p.pool
          × (q ≡ with_net n p))
  cluster_iff network_type entry p q = (
    λ h.
        let (n, parsed, checked, added) = cluster_parsed network_type entry p q h in
        let (apart, result) = (add_to_iff n p q).0 added in
        (n, (parsed, (host_prefix_iff network_type entry n).0 checked), apart, result),
    λ (n, (parsed, fits), apart, result).
        unfold add_cluster in
        rw (parsed, add_cluster)
          (rw ((host_prefix_iff network_type entry n).1 fits)
            ((add_to_iff n p q).1 (apart, result))),
  )

  -- the loops of the code are such loops
  pub add_services-run :
      (service : List String) (p : Pools)
      → add_services parse_cidr service p
        ≡ run (add_service parse_cidr) FitsService service_iff service p
  unfolding add_services run
  add_services-run [] p = refl
  add_services-run (snet ∷ service) p =
      ap (λ k. add_service parse_cidr snet p >>= k) (fun_ext (λ p'. add_services-run service p'))

  pub add_clusters-run :
      (network_type : String) (cluster : List ClusterNetworkEntry) (p : Pools)
      → add_clusters parse_cidr network_type cluster p
        ≡ run
            (add_cluster parse_cidr network_type)
            (FitsCluster network_type)
            (cluster_iff network_type)
            cluster
            p
  unfolding add_clusters run
  add_clusters-run network_type [] p = refl
  add_clusters-run network_type (entry ∷ cluster) p =
      ap (λ k. add_cluster parse_cidr network_type entry p >>= k)
        (fun_ext (λ p'. add_clusters-run network_type cluster p'))
