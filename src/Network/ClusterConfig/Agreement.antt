-- ===== src/Network/ClusterConfig/Agreement.antt =====
-- The two validations of the same networks compared: validateIPPools and ValidateClusterConfig.
use cluster_network_operator.Prelude.{
  String, ◌≡◌, ◌↔◌, ◌≢◌, ap, refl, ◌&&◌, inl, inr, Bool, true, List, [], ◌∷◌, ◌++◌, Option, arith,
  Outcome, ok, fail, is_ok, Outcome-cases, ◌>>=◌, ◌>>◌, fail_if, append_nil_iff,
}
use cluster_network_operator.Network.Subnets.{Subnet}
use cluster_network_operator.Network.Spec.{ClusterNetworkEntry, NetworkSpec, Families, no_families}
use cluster_network_operator.Network.Pools.{
  PoolsError, Pools, cluster_empty, families_differ, error_if, differ, is_nil, host_prefix_errors,
  service_count_errors, service_step, scan_services, cluster_step, scan_clusters, validate_ip_pools,
}
use cluster_network_operator.Network.ClusterConfig.{
  check_host_prefix, check_service_count, add_service, add_services, add_cluster, add_clusters,
  check_networks,
}

-- a step that collects errors, followed by others, against the same with an early return
chain_agrees :
    (collected : Pools × List PoolsError) (checked : Outcome PoolsError Pools)
    (collect : Pools → Pools × List PoolsError) (check : Pools → Outcome PoolsError Pools)
    (q : Pools)
    → ((p : Pools) → (collected ≡ (p, [])) ↔ (checked ≡ ok p))
    → ((p : Pools) → (collect p ≡ (q, [])) ↔ (check p ≡ ok q))
    → (◌≡◌ {A = Pools × List PoolsError}
        ((collect collected.0).0, collected.1 ++ (collect collected.0).1)
        (q, []))
      ↔ ((checked >>= check) ≡ ok q)
chain_agrees (p, errors) (ok p') collect check q step rest =
    ground (arith, step p, step p', rest p', append_nil_iff errors (collect p).1)
chain_agrees (p, errors) (fail e) collect check q step rest =
    ground (arith, step p, append_nil_iff errors (collect p).1)

-- the tests after both loops, where neither has failed
tests_agree :
    (count : List PoolsError) (check : Outcome PoolsError (Unit {0})) (none_given differing : Bool)
    (f : Families × Families)
    → (count ≡ []) ↔ (check ≡ ok tt)
    → let errors = count ++ error_if none_given cluster_empty in
      (errors ++ error_if (is_nil errors && differing) families_differ ≡ []) ↔ (
        is_ok (
          check
          >> (fail_if none_given cluster_empty >> (fail_if differing families_differ >> ok f)))
        ≡ true)
tests_agree [] (ok u) none_given differing f h = ground arith
tests_agree [] (fail e) none_given differing f h = ground arith
tests_agree (c ∷ count) (ok u) none_given differing f h = ground arith
tests_agree (c ∷ count) (fail e) none_given differing f h = ground arith

-- a loop that has failed
failed_agree :
    (before failed after more : List PoolsError) (check : Outcome PoolsError (Unit {0}))
    (e : PoolsError)
    → failed ≢ []
    → ((before ++ (failed ++ after)) ++ more ≡ [])
      ↔ (is_ok {A = Families × Families} (check >> fail e) ≡ true)
failed_agree before [] after more check e some_error = absurd (some_error refl)
failed_agree [] (x ∷ failed) after more (ok u) e some_error = ground arith
failed_agree [] (x ∷ failed) after more (fail e') e some_error = ground arith
failed_agree (b ∷ before) (x ∷ failed) after more (ok u) e some_error = ground arith
failed_agree (b ∷ before) (x ∷ failed) after more (fail e') e some_error = ground arith

-- what a loop collects is not empty if the other one fails
collects_error :
    (collected : Pools × List PoolsError) (checked : Outcome PoolsError Pools) (e : PoolsError)
    → checked ≡ fail e
    → ((p : Pools) → (collected ≡ (p, [])) ↔ (checked ≡ ok p))
    → collected.1 ≢ []
collects_error (p, errors) checked e failed agrees none_collected =
    cc (failed, (agrees p).0 (ap (λ l. (p, l)) none_collected))

module _ (parse_cidr : String → Option Subnet) where
  service_step_agrees :
      (snet : String) (p q : Pools)
      → (service_step parse_cidr snet p ≡ (q, [])) ↔ (add_service parse_cidr snet p ≡ ok q)
  unfolding service_step add_service
  service_step_agrees snet p q = ground arith

  host_prefix_agrees :
      (network_type : String) (entry : ClusterNetworkEntry) (cidr : Subnet)
      → (host_prefix_errors network_type entry cidr ≡ [])
        ↔ (check_host_prefix network_type entry cidr ≡ ok tt)
  unfolding host_prefix_errors check_host_prefix
  host_prefix_agrees network_type entry cidr = ground arith

  count_agrees :
      (service : List String) (f : Families)
      → (service_count_errors service f ≡ []) ↔ (check_service_count service f ≡ ok tt)
  unfolding service_count_errors check_service_count
  count_agrees service f = ground arith

  cluster_step_agrees :
      (network_type : String) (entry : ClusterNetworkEntry) (p q : Pools)
      → (cluster_step parse_cidr network_type entry p ≡ (q, []))
        ↔ (add_cluster parse_cidr network_type entry p ≡ ok q)
  unfolding cluster_step add_cluster
  cluster_step_agrees network_type entry p q = ground arith

  scan_services_agree :
      (service : List String) (p q : Pools)
      → (scan_services parse_cidr service p ≡ (q, [])) ↔ (add_services parse_cidr service p ≡ ok q)
  unfolding scan_services add_services
  scan_services_agree [] p q = ground arith
  scan_services_agree (snet ∷ service) p q =
      chain_agrees (service_step parse_cidr snet p) (add_service parse_cidr snet p)
        (scan_services parse_cidr service) (add_services parse_cidr service) q
        (service_step_agrees snet p) (λ p'. scan_services_agree service p' q)

  scan_clusters_agree :
      (network_type : String) (cluster : List ClusterNetworkEntry) (p q : Pools)
      → (scan_clusters parse_cidr network_type cluster p ≡ (q, []))
        ↔ (add_clusters parse_cidr network_type cluster p ≡ ok q)
  unfolding scan_clusters add_clusters
  scan_clusters_agree network_type [] p q = ground arith
  scan_clusters_agree network_type (entry ∷ cluster) p q =
      chain_agrees (cluster_step parse_cidr network_type entry p)
        (add_cluster parse_cidr network_type entry p)
        (scan_clusters parse_cidr network_type cluster)
        (add_clusters parse_cidr network_type cluster) q (cluster_step_agrees network_type entry p)
        (λ p'. scan_clusters_agree network_type cluster p' q)

  -- validateIPPools finds no error in a configuration exactly if ValidateClusterConfig gets past the
  -- networks of the cluster's configuration with the same networks and type, although one collects
  -- all errors and the other returns at the first.
  pub validate_ip_pools_agrees :
      (conf : NetworkSpec)
      → (validate_ip_pools parse_cidr conf ≡ []) ↔ (
          is_ok
            (check_networks parse_cidr conf.service_network conf.network_type conf.cluster_network)
          ≡ true)
  unfolding validate_ip_pools check_networks
  validate_ip_pools_agrees conf =
      let start : Pools = record { pool = []; families = no_families } in
      let service = conf.service_network in
      elim (Outcome-cases (add_services parse_cidr service start)) [
        | inl (p, added) ↦
            let second : Pools = record { pool = p.pool; families = no_families } in
            rw ((scan_services_agree service start p).1 added, added)
              (elim (Outcome-cases
                (add_clusters parse_cidr conf.network_type conf.cluster_network second)) [
                  | inl (q, more) ↦
                      rw
                        (
                          (scan_clusters_agree conf.network_type conf.cluster_network second q).1
                              more,
                          more,
                        )
                        (tests_agree (service_count_errors service p.families)
                          (check_service_count service p.families) (is_nil conf.cluster_network)
                          (differ q.families p.families) (p.families, q.families)
                          (count_agrees service p.families))
                  | inr (e, failed) ↦ rw failed (
                      failed_agree (service_count_errors service p.families)
                        (scan_clusters parse_cidr conf.network_type conf.cluster_network second).1 _
                        _ (check_service_count service p.families) e
                        (collects_error _ _ e failed
                          (scan_clusters_agree conf.network_type conf.cluster_network second)))
                ])
        | inr (e, failed) ↦ rw failed (
            failed_agree [] (scan_services parse_cidr service start).1 _ _ (ok tt) e
              (collects_error _ _ e failed (scan_services_agree service start)))
      ]
