-- ===== src/Ovn/Cluster/Invariant.antt =====
-- The order in which node and control plane change in the reachable clusters: in an upgrade, in a
-- downgrade, and in a conversion between IP families.
use cluster_network_operator.Prelude.{
  String, ◌≡◌, ◌≢◌, ◌⊎◌, inl, inr, Bool-cases, false, List, length, arith, eq_iff, ◌==◌, nat_eq,
  string_eq,
}
use cluster_network_operator.Version.{Semver, upgrade, same, downgrade, compare_versions}
use cluster_network_operator.Ovn.Status.{UpdateStatus}
use cluster_network_operator.Ovn.Upgrade.{
  ip_family_mode_from_config, should_update_ovnk_on_ip_family_change, upgrade_update, after_upgrade,
  after_prepull, decide_rollout,
}
use cluster_network_operator.Ovn.Cluster.{
  Cluster, observed, reconcile, reconciled, progress, Reach, here, next,
}

pub compare_versions_self : (semver : Semver) (v : String) → compare_versions semver v v ≡ same
unfolding compare_versions
compare_versions_self semver v = ground (arith, eq_iff v v)

pub mode_nonempty :
    (service_network : List String) → (ip_family_mode_from_config service_network == "") ≡ false
unfolding ip_family_mode_from_config
mode_nonempty sn = elim (Bool-cases (length sn == 2)) [ inl two ↦ rw two | inr other ↦ rw other ]

-- one of the three phases of moving `first` and then `second` from `old` to `release`
abbrev pub Ordered : String → String → UpdateStatus → UpdateStatus → Type 0
Ordered old release first second =
    ((first.version ≡ old) × (second.version ≡ old))
    ⊎ ((first.version ≡ release) × (second.version ≡ old))
    ⊎ ((first.version ≡ release) × (second.version ≡ release))

-- both objects have the IP family that the configuration asks for
abbrev pub FamilySettled : List String → Cluster → Type 0
FamilySettled service_network c =
    (c.node.ip_family_mode ≡ ip_family_mode_from_config service_network)
    × (c.control_plane.ip_family_mode ≡ ip_family_mode_from_config service_network)

-- With no conversion going on, the rollout is decided by the versions alone.
pub decide_rollout-settled :
    (semver : Semver) (service_network : List String) (release : String) (c : Cluster)
    → FamilySettled service_network c
    → decide_rollout semver (observed c) service_network release
      ≡ after_prepull semver
          (observed c)
          release
          (upgrade_update semver c.node c.control_plane release)
unfolding should_update_ovnk_on_ip_family_change after_upgrade decide_rollout
decide_rollout-settled semver service_network release c f = ground (
  arith,
  mode_nonempty service_network,
  eq_iff c.node.ip_family_mode (ip_family_mode_from_config service_network),
  eq_iff c.control_plane.ip_family_mode (ip_family_mode_from_config service_network),
)

-- one of the three phases of converting the control plane and then the node from the mode `old`
abbrev pub Converting : String → String → Cluster → Type 0
Converting old mode c =
    ((c.control_plane.ip_family_mode ≡ old) × (c.node.ip_family_mode ≡ old))
    ⊎ ((c.control_plane.ip_family_mode ≡ mode) × (c.node.ip_family_mode ≡ old))
    ⊎ ((c.control_plane.ip_family_mode ≡ mode) × (c.node.ip_family_mode ≡ mode))

module _ (semver : Semver) (service_network : List String) (old release : String)
    (c : Cluster) where
  -- An object that is rolled out has the configured mode then.
  reconcile-modes :
      let d = reconcile semver service_network release c in
      let mode = ip_family_mode_from_config service_network in
      ((d.node.ip_family_mode ≡ c.node.ip_family_mode) ⊎ (d.node.ip_family_mode ≡ mode))
      × ((d.control_plane.ip_family_mode ≡ c.control_plane.ip_family_mode)
          ⊎ (d.control_plane.ip_family_mode ≡ mode))
  unfolding reconcile
  reconcile-modes = ground arith

  -- While the control plane has another mode, it is rolled out, and the node is not.
  reconcile-first :
      old ≢ ""
      → old ≢ ip_family_mode_from_config service_network
      → c.control_plane.ip_family_mode ≡ old
      → c.node.ip_family_mode ≡ old
      → let d = reconcile semver service_network release c in
        (d.control_plane.ip_family_mode ≡ ip_family_mode_from_config service_network)
        × (d.node.ip_family_mode ≡ old)
  unfolding reconcile decide_rollout should_update_ovnk_on_ip_family_change after_upgrade
      after_prepull
  reconcile-first named other first second = ground (
    arith,
    eq_iff c.node.ip_family_mode "",
    eq_iff c.control_plane.ip_family_mode "",
    eq_iff c.control_plane.ip_family_mode (ip_family_mode_from_config service_network),
  )

  reconcile-Converting :
      let mode = ip_family_mode_from_config service_network in
      old ≢ ""
      → old ≢ mode
      → Converting old mode c
      → Converting old mode (reconcile semver service_network release c)
  reconcile-Converting named other (inl (first, second)) =
      inr (inl (reconcile-first named other first second))
  reconcile-Converting named other (inr phase) = ground (arith, reconcile-modes)

module _ (semver : Semver) (service_network : List String) (old release : String) where
  -- Converting from the mode `old`, which is annotated, to the configured one, whatever the versions
  -- are: in every cluster reached by reconciliations and by objects that start or stop progressing,
  -- the control plane and the node have one of the two modes, and the node has the new one only if
  -- the control plane has.
  pub Reach-conversion :
      {c d : Cluster}
      → old ≢ ""
      → old ≢ ip_family_mode_from_config service_network
      → Converting old (ip_family_mode_from_config service_network) c
      → Reach semver service_network release c d
      → Converting old (ip_family_mode_from_config service_network) d
  Reach-conversion named other o here = o
  Reach-conversion named other o (next r (reconciled d)) =
      reconcile-Converting semver service_network old release d named other
        (Reach-conversion named other o r)
  Reach-conversion named other o (next r (progress d n p q)) = Reach-conversion named other o r

module _ (semver : Semver) (service_network : List String) (old release : String) where
  reconcile-FamilySettled :
      (c : Cluster)
      → FamilySettled service_network c
      → FamilySettled service_network (reconcile semver service_network release c)
  unfolding reconcile
  reconcile-FamilySettled c h = ground arith

  reconcile-upgrade :
      (c : Cluster)
      → compare_versions semver old release ≡ upgrade
      → FamilySettled service_network c
      → Ordered old release c.node c.control_plane
      → let d = reconcile semver service_network release c in
        Ordered old release d.node d.control_plane
  unfolding reconcile after_prepull upgrade_update
  reconcile-upgrade c h f o = ground (
    arith,
    decide_rollout-settled semver service_network release c f,
    compare_versions_self semver release,
    eq_iff c.node.version release,
    eq_iff c.control_plane.version release,
    eq_iff old release,
  )

  reconcile-downgrade :
      (c : Cluster)
      → compare_versions semver old release ≡ downgrade
      → FamilySettled service_network c
      → Ordered old release c.control_plane c.node
      → let d = reconcile semver service_network release c in
        Ordered old release d.control_plane d.node
  unfolding reconcile after_prepull upgrade_update
  reconcile-downgrade c h f o = ground (
    arith,
    decide_rollout-settled semver service_network release c f,
    compare_versions_self semver release,
    eq_iff c.node.version release,
    eq_iff c.control_plane.version release,
    eq_iff old release,
  )

  Reach-FamilySettled :
      {c d : Cluster}
      → Reach semver service_network release c d
      → FamilySettled service_network c
      → FamilySettled service_network d
  Reach-FamilySettled here f = f
  Reach-FamilySettled (next r (reconciled d)) f =
      reconcile-FamilySettled d (Reach-FamilySettled r f)
  Reach-FamilySettled (next r (progress d n p q)) f = Reach-FamilySettled r f

  -- Upgrading from `old` to `release`, with no conversion between IP families going on: in every
  -- cluster reached by reconciliations and by objects that start or stop progressing, the node and
  -- the control plane are at one of the two versions, and the control plane is at the new one only
  -- if the node is.
  pub Reach-upgrade :
      {c d : Cluster}
      → compare_versions semver old release ≡ upgrade
      → FamilySettled service_network c
      → Ordered old release c.node c.control_plane
      → Reach semver service_network release c d
      → Ordered old release d.node d.control_plane
  Reach-upgrade h f o here = o
  Reach-upgrade h f o (next r (reconciled d)) =
      reconcile-upgrade d h (Reach-FamilySettled r f) (Reach-upgrade h f o r)
  Reach-upgrade h f o (next r (progress d n p q)) = Reach-upgrade h f o r

  -- Downgrading from `old` to `release`, with no conversion between IP families going on: in every
  -- cluster reached by reconciliations and by objects that start or stop progressing, the control
  -- plane and the node are at one of the two versions, and the node is at the new one only if the
  -- control plane is.
  pub Reach-downgrade :
      {c d : Cluster}
      → compare_versions semver old release ≡ downgrade
      → FamilySettled service_network c
      → Ordered old release c.control_plane c.node
      → Reach semver service_network release c d
      → Ordered old release d.control_plane d.node
  Reach-downgrade h f o here = o
  Reach-downgrade h f o (next r (reconciled d)) =
      reconcile-downgrade d h (Reach-FamilySettled r f) (Reach-downgrade h f o r)
  Reach-downgrade h f o (next r (progress d n p q)) = Reach-downgrade h f o r
