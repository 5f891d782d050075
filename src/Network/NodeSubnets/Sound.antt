-- ===== src/Network/NodeSubnets/Sound.antt =====
-- What it means that validateOVNKubernetesSubnets has nothing to say.
use mathlib.Core.List.{append_assoc, append-nil}
use cluster_network_operator.Prelude.{
  String, ◌≡◌, sym, ap, subst, ◌∙◌, inl, inr, Bool, true, false, not, Bool-cases, List, [], ◌∷◌,
  ◌++◌, some, Option-cases, All, arith, ok, fail, ok-injective, >>=-eq-ok, if◌then◌else◌, ◌==◌,
  string_eq, append_nil_iff,
}
use cluster_network_operator.Network.Subnets.{Subnet, add}
use cluster_network_operator.Network.Subnets.Pool.{Apart, AllApart, AllApart-append, add_iff}
use cluster_network_operator.Network.Spec.{
  ClusterNetworkEntry, NetworkSpec, OvnKubernetesConfig, NetLibrary, IsNetLibrary, Families,
  no_families,
}
use cluster_network_operator.Network.ClusterConfig.Loops.{Each, FitsService, all_seen}
use cluster_network_operator.Network.NodeSubnets.{
  SubnetName, SubnetsError, Request, family_mismatch, not_large_enough, taken, is_large_enough,
  validate_ovn_kubernetes_subnet, check_request, check_requests, pool_clusters, pool_services,
  requests, validate_ovn_kubernetes_subnets,
}
use cluster_network_operator.Network.NodeSubnets.Pooled.{pool_services_sound, pool_clusters_sound}

placed :
    (name : SubnetName) (subnet : String) (n : Subnet) (pool after : List Subnet) (enough : Bool)
    → ◌≡◌ {A = List Subnet × List SubnetsError}
        (if not enough then (pool, not_large_enough name subnet ∷ []) else (elim (add n pool) [
          | ok pool' ↦ (pool', [])
          | fail e ↦ (pool, taken name subnet e ∷ [])
        ]))
        (after, [])
    → (enough ≡ true) × (add n pool ≡ ok after)
placed name subnet n pool after true h = ground arith
placed name subnet n pool after false h = ground arith

all_nil :
    (r : Request) (pool : List Subnet) (errors : List SubnetsError) (after : List Subnet)
    → ◌≡◌ {A = List Subnet × List SubnetsError}
        (
          pool,
          r.deprecated
              ++ ((if r.has_family then [] else family_mismatch r.name r.subnet ∷ []) ++ errors),
        )
        (after, [])
    → (r.deprecated ≡ []) × (r.has_family ≡ true) × (errors ≡ []) × (pool ≡ after)
all_nil r pool errors after h =
    let mismatch = if r.has_family then [] else family_mismatch r.name r.subnet ∷ [] in
    let (deprecated, rest) =
      (append_nil_iff r.deprecated (mismatch ++ errors)).0 (ap (λ p. p.1) h) in
    let (family, none_left) = (append_nil_iff mismatch errors).0 rest in
    (deprecated, ground arith, none_left, ap (λ p. p.0) h)

module _ (net : NetLibrary) where
  -- A subnet that is named: it parses, the family of its field is that of a cluster network, it is the
  -- deprecated field's if that is set too, and it is large enough.
  abbrev pub IsUsable : Request → Subnet → Type 0
  IsUsable r n =
      (net.parse_cidr r.subnet ≡ some n)
      × (r.has_family ≡ true)
      × (r.deprecated ≡ [])
      × (is_large_enough net r.cluster r.subnet ≡ ok true)

  -- the requests that name a subnet
  abbrev pub named : List Request → List Request
  named [] = []
  named (r ∷ rs) = if r.subnet == "" then named rs else r ∷ named rs

  subnet_sound :
      (name : SubnetName) (subnet : String) (cluster : List ClusterNetworkEntry)
      (pool after : List Subnet)
      → validate_ovn_kubernetes_subnet net name subnet cluster pool ≡ ok (after, [])
      → (n : Subnet) × (net.parse_cidr subnet ≡ some n)
        × (is_large_enough net cluster subnet ≡ ok true)
        × All (λ m. Apart m n) pool
        × (after ≡ pool ++ n ∷ [])
  unfolding validate_ovn_kubernetes_subnet
  subnet_sound name subnet cluster pool after h = elim (Option-cases (net.parse_cidr subnet)) [
    | inl bad ↦ absurd (cc (sym (rw (bad, validate_ovn_kubernetes_subnet) at h)))
    | inr (n, parsed) ↦
        let (enough, sized, rest) =
          >>=-eq-ok (is_large_enough net cluster subnet) _
            (rw (parsed, validate_ovn_kubernetes_subnet) at h) in
        let (is_enough, added) = placed name subnet n pool after enough (ok-injective rest) in
        let (apart, last) = (add_iff n pool after).0 added in
        (n, parsed, sized ∙ ap ok is_enough, apart, last)
  ]

  request_sound :
      (r : Request) (pool after : List Subnet)
      → (r.subnet == "") ≡ false
      → check_request net r pool ≡ ok (after, [])
      → (n : Subnet) × IsUsable r n × All (λ m. Apart m n) pool × (after ≡ pool ++ n ∷ [])
  unfolding check_request
  request_sound r pool after given h =
      let ((pool', errors), checked, rest) =
        >>=-eq-ok (validate_ovn_kubernetes_subnet net r.name r.subnet r.cluster pool) _
          (rw (given, check_request) at h) in
      let (deprecated, family, no_errors, same) =
        all_nil r pool' errors after (ok-injective rest) in
      let (n, parsed, sized, apart, last) =
        subnet_sound r.name r.subnet r.cluster pool after
          (checked ∙ ap ok (ap (λ p. (p, errors)) same ∙ ap (λ e. (after, e)) no_errors)) in
      (n, (parsed, family, deprecated, sized), apart, last)

  named_skip :
      (r : Request) (rs : List Request) → (r.subnet == "") ≡ true → named (r ∷ rs) ≡ named rs
  named_skip r rs h = rw h

  named_take :
      (r : Request) (rs : List Request) → (r.subnet == "") ≡ false → named (r ∷ rs) ≡ r ∷ named rs
  named_take r rs h = rw h

  unnamed_pool :
      (r : Request) (pool after : List Subnet)
      → (r.subnet == "") ≡ true
      → check_request net r pool ≡ ok (after, [])
      → after ≡ pool
  unfolding check_request
  unnamed_pool r pool after unnamed h =
      sym (ap (λ p. p.0) (ok-injective (rw (unnamed, check_request) at h)))

  check_requests_sound :
      (rs : List Request) (pool final : List Subnet)
      → AllApart pool
      → check_requests net rs pool ≡ ok (final, [])
      → (nets : List Subnet) × Each IsUsable (named rs) nets
        × AllApart (pool ++ nets)
        × (final ≡ pool ++ nets)
  unfolding check_requests
  check_requests_sound [] pool final apart h =
      ([], tt, rw append-nil apart, ap (λ p. p.0) (sym (ok-injective h)) ∙ sym (append-nil pool))
  check_requests_sound (r ∷ rs) pool final apart h =
      let ((pool', errors), first, rest) = >>=-eq-ok (check_request net r pool) _ h in
      let ((final', later), others, both) = >>=-eq-ok (check_requests net rs pool') _ rest in
      let (no_errors, no_later) =
        (append_nil_iff errors later).0 (ap (λ p. p.1) (ok-injective both)) in
      let same : check_requests net rs pool' ≡ ok (final, []) =
        others
        ∙ ap ok (
            ap (λ f. (f, later)) (ap (λ p. p.0) (ok-injective both))
            ∙ ap (λ l. (final, l)) no_later) in
      let first' : check_request net r pool ≡ ok (pool', []) =
        first ∙ ap (λ e. ok (pool', e)) no_errors in
      elim (Bool-cases (r.subnet == "")) [
        | inl unnamed ↦
            let (nets, each, apart', result) = check_requests_sound rs pool final apart (
              subst (λ p. check_requests net rs p ≡ ok (final, []))
                (unnamed_pool r pool pool' unnamed first') same) in
            (
              nets,
              subst (λ l. Each IsUsable l nets) (sym (named_skip r rs unnamed)) each,
              apart',
              result,
            )
        | inr given ↦
            let (n, usable, new, last) = request_sound r pool pool' given first' in
            let (nets, each, apart', result) =
              check_requests_sound rs (pool ++ n ∷ []) final (AllApart-append pool n apart new)
                (subst (λ p. check_requests net rs p ≡ ok (final, [])) last same) in
            (
              n ∷ nets,
              subst (λ l. Each IsUsable l (n ∷ nets)) (sym (named_take r rs given)) (usable, each),
              subst AllApart (append_assoc pool (n ∷ []) nets) apart',
              result ∙ append_assoc pool (n ∷ []) nets,
            )
      ]

  abbrev clusters_of : NetworkSpec → List Subnet × Families × List SubnetsError
  clusters_of conf = pool_clusters net conf.cluster_network [] no_families

  abbrev services_of : NetworkSpec → List Subnet × List SubnetsError
  services_of conf = pool_services net conf.service_network (clusters_of conf).0

  none_found :
      (conf : NetworkSpec) (oc : OvnKubernetesConfig)
      → conf.ovn ≡ some oc
      → validate_ovn_kubernetes_subnets net conf ≡ ok []
      → ((clusters_of conf).2 ≡ [])
        × ((services_of conf).1 ≡ [])
        × ((final : List Subnet) × (check_requests net
                (requests oc (clusters_of conf).1 conf.cluster_network)
                (services_of conf).0
              ≡ ok (final, [])))
  unfolding validate_ovn_kubernetes_subnets
  none_found conf oc configured h =
      let bad_clusters = (clusters_of conf).2 in
      let bad_services = (services_of conf).1 in
      let ((final, errors), checked, all) =
        >>=-eq-ok
          (check_requests net (requests oc (clusters_of conf).1 conf.cluster_network)
            (services_of conf).0)
          (λ r. ok (bad_clusters ++ (bad_services ++ r.1)))
          (rw (configured, validate_ovn_kubernetes_subnets) at h) in
      let (c, rest) = (append_nil_iff bad_clusters (bad_services ++ errors)).0 (ok-injective all) in
      let (s, e) = (append_nil_iff bad_services errors).0 rest in
      (c, s, (final, checked ∙ ap (λ l. ok (final, l)) e))

  -- Where validateOVNKubernetesSubnets runs through and finds no error: the cluster and the service
  -- networks parse; every subnet that the configuration names for ovn-kubernetes itself parses,
  -- stands in a field for an IP family of which there is a cluster network (whatever its own family
  -- is), is the deprecated field's if that is set too, and passes the size check; and no two of all
  -- these networks share an address.
  pub validate_ovn_kubernetes_subnets_sound :
      IsNetLibrary net
      → (conf : NetworkSpec) (oc : OvnKubernetesConfig) → conf.ovn ≡ some oc
      → validate_ovn_kubernetes_subnets net conf ≡ ok []
      → (clusters services own : List Subnet) × Each
          (λ entry n. net.parse_cidr entry.cidr ≡ some n)
          conf.cluster_network
          clusters
        × Each (FitsService net.parse_cidr) conf.service_network services
        × Each IsUsable
            (named (requests oc (all_seen clusters no_families) conf.cluster_network))
            own
        × AllApart ((clusters ++ services) ++ own)
  validate_ovn_kubernetes_subnets_sound library conf oc configured h =
      let (no_bad_cluster, no_bad_service, (final, checked)) = none_found conf oc configured h in
      let (clusters, each, apart, pool, families) =
        pool_clusters_sound net library conf.cluster_network [] no_families tt no_bad_cluster in
      let (services, each', apart', pool') =
        pool_services_sound net conf.service_network (clusters_of conf).0
          (subst AllApart (sym pool) apart) no_bad_service in
      let whole = pool' ∙ ap (λ p. p ++ services) pool in
      let (own, usable, apart'', last) =
        check_requests_sound (requests oc (all_seen clusters no_families) conf.cluster_network)
          (clusters ++ services) final (subst (λ p. AllApart (p ++ services)) pool apart')
          (ap (λ f. check_requests net (requests oc f conf.cluster_network) (clusters ++ services))
              (sym families)
            ∙ (ap (check_requests net (requests oc (clusters_of conf).1 conf.cluster_network))
                  (sym whole)
                ∙ checked)) in
      (clusters, services, own, each, each', usable, apart'')
