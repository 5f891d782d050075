-- ===== src/Network/ClusterConfig/Accepted.antt =====
-- What ValidateClusterConfig accepts.
use cluster_network_operator.Prelude.{
  String, ◌≡◌, ◌↔◌, ◌≢◌, ◌⊎◌, refl, sym, ap, subst, ◌∙◌, inl, inr, Bool, true, false, ◌&&◌, ◌||◌,
  not, List, [], ◌∷◌, ◌++◌, Option, All, arith, Outcome, ok, is_ok, fail_if, Outcome-cases,
  ok-injective, ◌>>◌, >>=-eq-ok, length, ◌==◌, string_eq, eq_iff,
}
use cluster_network_operator.Network.Subnets.{Subnet}
use cluster_network_operator.Network.Subnets.Pool.{Apart, AllApart}
use cluster_network_operator.Network.Spec.{ClusterNetworkEntry, NetworkSpec, Families, no_families}
use cluster_network_operator.Network.Pools.{
  PoolsError, Pools, is_nil, differ, cluster_empty, families_differ, network_type_required,
  platform_not_dual, validate_ip_pools,
}
use cluster_network_operator.Network.ClusterConfig.{
  add_service, add_services, add_cluster, add_clusters, check_service_count, check_networks,
  ClusterSpec, is_supported_dual_stack_platform, validate_cluster_config,
}
use cluster_network_operator.Network.ClusterConfig.Agreement.{validate_ip_pools_agrees}
use cluster_network_operator.Network.ClusterConfig.Loops.{
  Each, FitsService, FitsCluster, all_seen, run_sound, run_complete, service_iff, cluster_iff,
  add_services-run, add_clusters-run,
}

-- one service network, or two of both families
abbrev pub CountFits : List String → Families → Type 0
CountFits service f =
    (length service ≡ 1) ⊎ ((length service ≡ 2) × (f.ipv4 ≡ true) × (f.ipv6 ≡ true))

All_prefix : (P : Subnet → Type 0) (xs ys : List Subnet) → All P (xs ++ ys) → All P xs
All_prefix P [] ys h = tt
All_prefix P (x ∷ xs) ys h = (h.0, All_prefix P xs ys h.1)

AllApart-prefix : (xs ys : List Subnet) → AllApart (xs ++ ys) → AllApart xs
AllApart-prefix [] ys h = tt
AllApart-prefix (x ∷ xs) ys h = (All_prefix (Apart x) xs ys h.0, AllApart-prefix xs ys h.1)

-- the tests on the network type and the platform, for any outcome of the four conditions
abbrev last_tests : (untyped v4 v6 supported : Bool) → PoolsError → Outcome PoolsError (Unit {0})
last_tests untyped v4 v6 supported e = do
  fail_if untyped network_type_required
  fail_if ((v4 && v6 || v4 && v6) && not supported) e

last_tests_pass :
    (untyped v4 v6 supported : Bool) (e : PoolsError)
    → last_tests untyped v4 v6 supported e ≡ ok tt
    → (untyped ≡ false) × ((v4 ≡ true) → (v6 ≡ true) → supported ≡ true)
last_tests_pass untyped v4 v6 supported e h = (ground arith, λ h4 h6. ground arith)

pass_last_tests :
    (untyped v4 v6 supported : Bool) (e : PoolsError)
    → untyped ≡ false
    → ((v4 ≡ true) → (v6 ≡ true) → supported ≡ true)
    → last_tests untyped v4 v6 supported e ≡ ok tt
pass_last_tests untyped true true supported e typed dual = ground (arith, dual refl refl)
pass_last_tests untyped true false supported e typed dual = ground arith
pass_last_tests untyped false v6 supported e typed dual = ground arith

module _ (parse_cidr : String → Option Subnet) where
  -- The texts are networks that pairwise share no address, service and cluster networks together;
  -- the host prefixes fit; there are one or two service networks and some cluster network, of the
  -- same families.
  pub record AreValid (service : List String) (network_type : String)
      (cluster : List ClusterNetworkEntry) : Type 0 where
    pub services : List Subnet
    pub clusters : List Subnet
    pub services_parsed : Each (FitsService parse_cidr) service services
    pub clusters_parsed : Each (FitsCluster parse_cidr network_type) cluster clusters
    pub apart : AllApart (services ++ clusters)
    pub count : CountFits service (all_seen services no_families)
    pub some_cluster : cluster ≢ []
    pub same_families : all_seen clusters no_families ≡ all_seen services no_families

  count_iff :
      (service : List String) (f : Families)
      → (check_service_count service f ≡ ok tt) ↔ CountFits service f
  unfolding check_service_count
  count_iff service f = ground arith

  differ_iff : (a b : Families) → (differ a b ≡ false) ↔ (a ≡ b)
  differ_iff a b = ground arith

  nil_iff : (cluster : List ClusterNetworkEntry) → (is_nil cluster ≡ false) ↔ (cluster ≢ [])
  nil_iff [] = ground arith
  nil_iff (c ∷ cluster) = ground arith

  tests_pass :
      (none_given differing : Bool) (f g : Families × Families)
      → (fail_if none_given cluster_empty >> (fail_if differing families_differ >> ok f)) ≡ ok g
      → (none_given ≡ false) × (differing ≡ false)
  tests_pass none_given differing f g h = ground arith

  abbrev first : Pools
  first = record { pool = []; families = no_families }

  -- after the service networks, the families of the cluster networks are counted anew
  abbrev second : List Subnet → Pools
  second services = record { pool = services; families = no_families }

  module _ (service : List String) (network_type : String)
      (cluster : List ClusterNetworkEntry) where
    check_networks_sound :
        (f : Families × Families)
        → check_networks parse_cidr service network_type cluster ≡ ok f
        → AreValid service network_type cluster
    unfolding check_networks
    check_networks_sound f h =
        let (p, added, h1) = >>=-eq-ok (add_services parse_cidr service first) _ h in
        let (u, counted, h2) = >>=-eq-ok (check_service_count service p.families) _ h1 in
        let (q, more, h3) =
          >>=-eq-ok (add_clusters parse_cidr network_type cluster (second p.pool)) _ h2 in
        let (services, each, apart, eq) =
          run_sound (add_service parse_cidr) (FitsService parse_cidr) (service_iff parse_cidr)
            service first p tt (sym (add_services-run parse_cidr service first) ∙ added) in
        let (clusters, each', apart', eq') =
          run_sound (add_cluster parse_cidr network_type) (FitsCluster parse_cidr network_type)
            (cluster_iff parse_cidr network_type) cluster (second p.pool) q
            (subst (λ s. AllApart s.pool) (sym eq) apart)
            (sym (add_clusters-run parse_cidr network_type cluster (second p.pool)) ∙ more) in
        let (given, same) = tests_pass (is_nil cluster) (differ q.families p.families) _ f h3 in
        record {
          services = services;
          clusters = clusters;
          services_parsed = each;
          clusters_parsed = each';
          apart = subst (λ s. AllApart (s.pool ++ clusters)) eq apart';
          count =
              subst (λ s. CountFits service s.families) eq
                ((count_iff service p.families).0 counted);
          some_cluster = (nil_iff cluster).0 given;
          same_families =
              ap (λ s. s.families) (sym eq')
              ∙ ((differ_iff q.families p.families).0 same ∙ ap (λ s. s.families) eq);
        }

    check_networks_complete :
        (v : AreValid service network_type cluster)
        → let f = all_seen v.services no_families in
          check_networks parse_cidr service network_type cluster ≡ ok (f, f)
    unfolding check_networks
    check_networks_complete v =
        let f = all_seen v.services no_families in
        let added =
          add_services-run parse_cidr service first
          ∙ run_complete (add_service parse_cidr) (FitsService parse_cidr) (service_iff parse_cidr)
              service v.services first (AllApart-prefix v.services v.clusters v.apart)
              v.services_parsed in
        let more =
          add_clusters-run parse_cidr network_type cluster (second v.services)
          ∙ run_complete (add_cluster parse_cidr network_type) (FitsCluster parse_cidr network_type)
              (cluster_iff parse_cidr network_type) cluster v.clusters (second v.services) v.apart
              v.clusters_parsed in
        rw added (
          rw ((count_iff service f).1 v.count) (
            rw more (
              rw ((nil_iff cluster).1 v.some_cluster) (
                rw ((differ_iff (all_seen v.clusters no_families) f).1 v.same_families)
                  (ap (λ g. ok (f, g)) v.same_families)))))

  -- the platform runs two IP families, where the networks are of two
  abbrev pub DualSupported : (String → Bool) → String → Families → Type 0
  DualSupported enabled platform f =
      (f.ipv4 ≡ true) → (f.ipv6 ≡ true) → is_supported_dual_stack_platform enabled platform ≡ true

  abbrev tests_of :
      (String → Bool) → String → String → Families × Families → Outcome PoolsError (Unit {0})
  tests_of enabled platform network_type (s, c) = do
    fail_if (network_type == "") network_type_required
    fail_if
        ((s.ipv4 && s.ipv6 || c.ipv4 && c.ipv6)
          && not (is_supported_dual_stack_platform enabled platform))
        (platform_not_dual platform)

  last_tests_iff :
      (enabled : String → Bool) (platform network_type : String) (f : Families)
      → ((fail_if (network_type == "") network_type_required
            >> fail_if
                ((f.ipv4 && f.ipv6 || f.ipv4 && f.ipv6)
                  && not (is_supported_dual_stack_platform enabled platform))
                (platform_not_dual platform))
          ≡ ok tt)
        ↔ ((network_type ≢ "") × DualSupported enabled platform f)
  last_tests_iff enabled platform network_type f =
      let untyped = network_type == "" in
      let supported = is_supported_dual_stack_platform enabled platform in
      let e = platform_not_dual platform in
      (
        λ h. (
          λ empty. cc (
            (last_tests_pass untyped f.ipv4 f.ipv6 supported e h).0,
            (eq_iff network_type "").1 empty,
          ),
          (last_tests_pass untyped f.ipv4 f.ipv6 supported e h).1,
        ),
        λ (typed, dual). pass_last_tests untyped f.ipv4 f.ipv6 supported e (not_empty typed) dual,
      )
    where
      not_empty : network_type ≢ "" → (network_type == "") ≡ false
      not_empty typed = ground (arith, eq_iff network_type "")

  -- ValidateClusterConfig accepts a configuration exactly if its networks are valid: the texts are
  -- networks of which no two share an address, the host prefixes fit, and there are one or two service
  -- networks and some cluster network, of the same families. Besides, there is a network type, and a
  -- platform that supports two IP families where the networks are of two.
  pub validate_cluster_config_iff :
      (enabled : String → Bool) (platform : String) (conf : ClusterSpec)
      → (validate_cluster_config parse_cidr enabled platform conf ≡ ok tt) ↔ (
          (v : AreValid conf.service_network conf.network_type conf.cluster_network)
          × (conf.network_type ≢ "")
          × DualSupported enabled platform (all_seen v.services no_families))
  unfolding validate_cluster_config
  validate_cluster_config_iff enabled platform conf =
      let service = conf.service_network in
      let check = check_networks parse_cidr service conf.network_type conf.cluster_network in
      (
        λ h.
            let (f, passed, rest) = >>=-eq-ok check _ h in
            let v = check_networks_sound service conf.network_type conf.cluster_network f passed in
            let given = ok-injective (
              sym passed
              ∙ check_networks_complete service conf.network_type conf.cluster_network v) in
            let tests =
              (last_tests_iff enabled platform conf.network_type
                  (all_seen v.services no_families)).0
                (subst
                  (λ (g : Families × Families).
                    tests_of enabled platform conf.network_type g ≡ ok tt)
                  given rest) in
            (v, tests.0, tests.1),
        λ (v, typed, supported).
            rw (check_networks_complete service conf.network_type conf.cluster_network v) (
              (last_tests_iff enabled platform conf.network_type
                  (all_seen v.services no_families)).1
                (typed, supported)),
      )

  -- validateIPPools collects no error exactly if the networks of the configuration are valid.
  pub validate_ip_pools_iff :
      (conf : NetworkSpec)
      → (validate_ip_pools parse_cidr conf ≡ [])
        ↔ AreValid conf.service_network conf.network_type conf.cluster_network
  validate_ip_pools_iff conf =
      let service = conf.service_network in
      let agrees = validate_ip_pools_agrees parse_cidr conf in
      (
        λ none_found.
            elim (Outcome-cases
              (check_networks parse_cidr service conf.network_type conf.cluster_network)) [
                | inl (f, passed) ↦
                    check_networks_sound service conf.network_type conf.cluster_network f passed
                | inr (e, failed) ↦ absurd (cc (agrees.0 none_found, ap is_ok failed))
              ],
        λ v.
            agrees.1
              (ap is_ok (check_networks_complete service conf.network_type conf.cluster_network v)),
      )
