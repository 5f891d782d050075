-- ===== src/Ovn/Upgrade/Order.antt =====
-- What the rollout decisions guarantee at one reconciliation.
use cluster_network_operator.Prelude.{
  String, ◌≡◌, refl, ◌≢◌, ◌⊎◌, inl, inr, Option-cases, Bool, true, false, Option, none, some, List,
  arith, eq_iff,
}
use cluster_network_operator.Version.{
  Semver, VersionChange, upgrade, same, downgrade, unknown, compare_versions,
}
use cluster_network_operator.Ovn.Status.{UpdateStatus, OvnBootstrapResult}
use cluster_network_operator.Ovn.Upgrade.{
  Update, ip_family_mode_from_config, should_update_ovnk_on_ip_family_change, upgrade_table,
  upgrade_update, should_update_ovnk_on_upgrade, prepull_update, should_update_ovnk_on_prepull,
  after_prepull, after_upgrade, decide_rollout,
}

prepull_update_ready :
    (node : UpdateStatus) (o : Option UpdateStatus) (release : String)
    → node.version ≢ release
    → (prepull_update node o release).node ≡ true
    → (p : UpdateStatus) × (o ≡ some p) × (p.version ≡ release) × (p.progressing ≡ false)
unfolding prepull_update
prepull_update_ready node none release older updated = ground (arith, eq_iff node.version release)
prepull_update_ready node (some p) release older updated = (
  p,
  refl,
  ground (arith, eq_iff node.version release, eq_iff p.version release),
  ground (arith, eq_iff node.version release, eq_iff p.version release),
)

after_prepull-node :
    (semver : Semver) (ovn : OvnBootstrapResult) (release : String) (u : Update)
    (node : UpdateStatus)
    → ovn.node_update_status ≡ some node
    → (after_prepull semver ovn release u).node ≡ true
    → (prepull_update node ovn.pre_puller_update_status release).node ≡ true
unfolding after_prepull should_update_ovnk_on_prepull
after_prepull-node semver ovn release u node e h = ground arith

-- A node daemonset that runs another version than the release is updated only once there is a
-- pre-puller of the release's version whose status is not progressing: it has pulled the image on the
-- nodes, or its rollout hangs.
pub node_update_needs_image :
    (semver : Semver) (ovn : OvnBootstrapResult) (service_network : List String) (release : String)
    (node : UpdateStatus)
    → ovn.node_update_status ≡ some node
    → node.version ≢ release
    → (decide_rollout semver ovn service_network release).node ≡ true
    → (p : UpdateStatus) × (ovn.pre_puller_update_status ≡ some p)
      × (p.version ≡ release)
      × (p.progressing ≡ false)
unfolding decide_rollout
node_update_needs_image semver ovn service_network release node running older updated =
    prepull_update_ready node ovn.pre_puller_update_status release older
      (after_prepull-node semver ovn release _ node running updated)

abbrev Advances : Update → Type 0
Advances u = (u.node ≡ true) ⊎ (u.control_plane ≡ true)

family-Advances :
    (ovn : OvnBootstrapResult) (mode : String)
    → Advances (should_update_ovnk_on_ip_family_change ovn mode)
unfolding should_update_ovnk_on_ip_family_change
family-Advances ovn mode = ground arith

upgrade_table-Advances :
    (control_plane node : VersionChange) (p q : Bool)
    → Advances (upgrade_table control_plane node p q)
unfolding upgrade_table
upgrade_table-Advances upgrade n p q = ground arith
upgrade_table-Advances same n p q = ground arith
upgrade_table-Advances downgrade n p q = ground arith
upgrade_table-Advances unknown n p q = ground arith

upgrade_update-Advances :
    (semver : Semver) (node control_plane : UpdateStatus) (release : String)
    → Advances (upgrade_update semver node control_plane release)
unfolding upgrade_update
upgrade_update-Advances semver node control_plane release = ground (
  arith,
  upgrade_table-Advances (compare_versions semver control_plane.version release)
      (compare_versions semver node.version release) node.progressing control_plane.progressing,
)

upgrade-Advances :
    (semver : Semver) (ovn : OvnBootstrapResult) (release : String)
    → Advances (should_update_ovnk_on_upgrade semver ovn release)
unfolding should_update_ovnk_on_upgrade
upgrade-Advances semver ovn release = elim (Option-cases ovn.node_update_status) [
  | inl e ↦ rw (e, should_update_ovnk_on_upgrade) (inl refl)
  | inr (n, e) ↦ elim (Option-cases ovn.control_plane_update_status) [
    | inl e' ↦ rw (e, e', should_update_ovnk_on_upgrade) (inl refl)
    | inr (c, e') ↦
        rw (e, e', should_update_ovnk_on_upgrade) (upgrade_update-Advances semver n c release)
  ]
]

after_upgrade-Advances :
    (semver : Semver) (ovn : OvnBootstrapResult) (release : String) (u : Update)
    → Advances u
    → Advances (after_upgrade semver ovn release u)
unfolding after_upgrade
after_upgrade-Advances semver ovn release u a = ground (arith, upgrade-Advances semver ovn release)

after_prepull-Advances :
    (semver : Semver) (ovn : OvnBootstrapResult) (release : String) (u : Update)
    → Advances u
    → let r = after_prepull semver ovn release u in
      ((r.node ≡ true) ⊎ (r.control_plane ≡ true) ⊎ (r.pre_pull ≡ true))
      × ((r.node ≡ false) ⊎ (r.pre_pull ≡ false))
unfolding after_prepull should_update_ovnk_on_prepull
after_prepull-Advances semver ovn release u a = ground arith

-- Every reconciliation moves something forward: it updates the node or the control plane, or it
-- pulls the image for the node. It never does the last together with an update of the node.
pub rollout_advances :
    (semver : Semver) (ovn : OvnBootstrapResult) (service_network : List String) (release : String)
    → let r = decide_rollout semver ovn service_network release in
      ((r.node ≡ true) ⊎ (r.control_plane ≡ true) ⊎ (r.pre_pull ≡ true))
      × ((r.node ≡ false) ⊎ (r.pre_pull ≡ false))
unfolding decide_rollout
rollout_advances semver ovn service_network release = after_prepull-Advances semver ovn release _ (
    after_upgrade-Advances semver ovn release _
      (family-Advances ovn (ip_family_mode_from_config service_network)))
