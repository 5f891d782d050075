-- ===== src/Tests/Rollouts.antt =====
-- An upgrade from "4.17" to "4.18", a downgrade back, and a conversion to dual stack.
use cluster_network_operator.Prelude.{
  String, ◌≡◌, ◌≢◌, refl, inl, true, false, Bool, List, [], ◌∷◌, none, some, arith, eq_iff,
}
use cluster_network_operator.Version.{compare_versions, upgrade}
use cluster_network_operator.Ovn.Status.{UpdateStatus, OvnBootstrapResult}
use cluster_network_operator.Ovn.Upgrade.{
  decide_rollout, after_prepull, after_upgrade, should_update_ovnk_on_ip_family_change,
  single_stack, dual_stack, ip_family_mode_from_config,
}
use cluster_network_operator.Ovn.Upgrade.Order.{node_update_needs_image}
use cluster_network_operator.Ovn.Cluster.{Cluster, here, next, reconciled, reconcile}
use cluster_network_operator.Ovn.Cluster.Invariant.{
  Ordered, Reach-upgrade, Converting, Reach-conversion,
}
use cluster_network_operator.Ovn.Cluster.Convergence.{AtVersion, rounds, rounds-upgrade}
use cluster_network_operator.Tests.Releases.{releases}

abbrev service_network : List String
service_network = "172.30.0.0/16" ∷ []

abbrev running : String → String → Bool → UpdateStatus
running version mode progressing = record {
  version = version;
  ip_family_mode = mode;
  progressing = progressing;
}

abbrev cluster : String → Cluster
cluster version = record {
  node = running version single_stack false;
  control_plane = running version single_stack false;
  pre_puller = none;
}

abbrev pulled : OvnBootstrapResult
pulled = record {
  control_plane_update_status = some (running "4.17" single_stack false);
  node_update_status = some (running "4.17" single_stack false);
  pre_puller_update_status = some (running "4.18" single_stack false);
}

older : compare_versions releases "4.17" "4.18" ≡ upgrade
unfolding compare_versions
older = refl

single : single_stack ≡ ip_family_mode_from_config service_network
unfolding ip_family_mode_from_config
single = refl

differ : (running "4.17" single_stack false).version ≢ "4.18"
differ = ground (arith, eq_iff "4.17" "4.18")

Reach-upgrade_example :
    let d = reconcile releases service_network "4.18" (cluster "4.17") in
    Ordered "4.17" "4.18" d.node d.control_plane
Reach-upgrade_example =
    Reach-upgrade releases service_network "4.17" "4.18" older (single, single) (inl (refl, refl))
      (next here (reconciled (cluster "4.17")))

rounds-upgrade_example :
    AtVersion "4.18" (rounds releases service_network "4.18" 4 (cluster "4.17"))
rounds-upgrade_example =
    rounds-upgrade releases service_network "4.17" "4.18" older 0 (cluster "4.17") (single, single)
      (inl (refl, refl))

pulled_node : (decide_rollout releases pulled service_network "4.18").node ≡ true
unfolding decide_rollout after_prepull after_upgrade should_update_ovnk_on_ip_family_change
    ip_family_mode_from_config compare_versions
pulled_node = refl

node_update_needs_image_example :
    (p : UpdateStatus) × (some (running "4.18" single_stack false) ≡ some p)
    × (p.version ≡ "4.18")
    × (p.progressing ≡ false)
node_update_needs_image_example =
    node_update_needs_image releases pulled service_network "4.18"
      (running "4.17" single_stack false) refl differ pulled_node

abbrev both_families : List String
both_families = "172.30.0.0/16" ∷ "fd02::/112" ∷ []

converts : single_stack ≢ ip_family_mode_from_config both_families
unfolding ip_family_mode_from_config
converts = ground (arith, eq_iff single_stack dual_stack)

Reach-conversion_example :
    Converting single_stack
      (ip_family_mode_from_config both_families)
      (reconcile releases both_families "4.18" (cluster "4.17"))
Reach-conversion_example =
    Reach-conversion releases both_families single_stack "4.18"
      (ground (arith, eq_iff single_stack "")) converts (inl (refl, refl))
      (next here (reconciled (cluster "4.17")))
