-- ===== src/Ovn/Upgrade.antt =====
-- The rollout decisions of `renderOVNKubernetes`: the conversion between IP families, the order of
-- node and control plane in upgrades and downgrades, and the pre-pulling of the image.
pub mod Order
use cluster_network_operator.Prelude.{
  ℕ, String, Bool, true, false, ◌&&◌, ◌||◌, Option, none, some, List, ◌==◌, nat_eq, string_eq,
  length, if◌then◌else◌,
}
use cluster_network_operator.Version.{
  Semver, VersionChange, upgrade, same, downgrade, unknown, compare_versions,
}
use cluster_network_operator.Ovn.Status.{UpdateStatus, OvnBootstrapResult}

abbrev pub single_stack : String
single_stack = "single-stack"

abbrev pub dual_stack : String
dual_stack = "dual-stack"

-- the mode that the configuration's service networks ask for
unfoldable pub ip_family_mode_from_config : List String → String
ip_family_mode_from_config service_network =
    if length service_network == 2 then dual_stack else single_stack

-- `updateNode` and `updateControlPlane`
pub record Update : Type 0 where
  pub node : Bool
  pub control_plane : Bool

abbrev pub both : Update
both = record { node = true; control_plane = true }

abbrev pub only_node : Update
only_node = record { node = true; control_plane = false }

abbrev pub only_control_plane : Update
only_control_plane = record { node = false; control_plane = true }

-- the tests of `shouldUpdateOVNKonIPFamilyChange` once both objects exist
unfoldable pub ip_family_update : UpdateStatus → UpdateStatus → String → Update
ip_family_update node control_plane mode =
    if node.ip_family_mode == "" || control_plane.ip_family_mode == ""
    then both
    else if node.ip_family_mode == mode && control_plane.ip_family_mode == mode
    then both
    else if control_plane.ip_family_mode == mode
    then (if control_plane.progressing then only_control_plane else both)
    else only_control_plane

unfoldable pub should_update_ovnk_on_ip_family_change : OvnBootstrapResult → String → Update
unfolding ip_family_update
should_update_ovnk_on_ip_family_change ovn mode = elim ovn.node_update_status [
  | none ↦ both
  | some node ↦ elim ovn.control_plane_update_status [
    | none ↦ both
    | some control_plane ↦ ip_family_update node control_plane mode
  ]
]

abbrev pub is_unknown : VersionChange → Bool
is_unknown unknown = true
is_unknown _ = false

-- the nine cases: the deltas of the control plane and of the node, and what is progressing
unfoldable pub upgrade_table : VersionChange → VersionChange → Bool → Bool → Update
upgrade_table upgrade upgrade node_progressing control_plane_progressing = only_node
upgrade_table upgrade same node_progressing control_plane_progressing =
    if node_progressing then only_node else both
upgrade_table downgrade downgrade node_progressing control_plane_progressing = only_control_plane
upgrade_table same downgrade node_progressing control_plane_progressing =
    if control_plane_progressing then only_control_plane else both
upgrade_table _ _ node_progressing control_plane_progressing = both

module _ (semver : Semver) where
  -- the tests of `shouldUpdateOVNKonUpgrade` once both objects exist
  unfoldable pub upgrade_update : UpdateStatus → UpdateStatus → String → Update
  unfolding upgrade_table
  upgrade_update node control_plane release =
      let control_plane_delta = compare_versions semver control_plane.version release in
      let node_delta = compare_versions semver node.version release in
      if node.version == release && control_plane.version == release
      then both
      else if is_unknown control_plane_delta || is_unknown node_delta
      then both
      else upgrade_table control_plane_delta node_delta node.progressing control_plane.progressing

  unfoldable pub should_update_ovnk_on_upgrade : OvnBootstrapResult → String → Update
  unfolding upgrade_update
  should_update_ovnk_on_upgrade ovn release = elim ovn.node_update_status [
    | none ↦ both
    | some node ↦ elim ovn.control_plane_update_status [
      | none ↦ both
      | some control_plane ↦ upgrade_update node control_plane release
    ]
  ]

-- `updateNode` and `renderPrepull`
pub record Prepull : Type 0 where
  pub node : Bool
  pub render : Bool

-- the tests of `shouldUpdateOVNKonPrepull` once the node daemonset exists
unfoldable pub prepull_update : UpdateStatus → Option UpdateStatus → String → Prepull
prepull_update node pre_puller release =
    if node.version == release then record { node = true; render = false } else elim pre_puller [
      | none ↦ record { node = false; render = true }
      | some p ↦
          if p.version == release
          then (if p.progressing
              then record { node = false; render = true }
              else record { node = true; render = false })
          else record { node = false; render = true }
    ]

unfoldable pub should_update_ovnk_on_prepull : OvnBootstrapResult → String → Prepull
unfolding prepull_update
should_update_ovnk_on_prepull ovn release = elim ovn.node_update_status [
  | none ↦ record { node = true; render = false }
  | some node ↦ prepull_update node ovn.pre_puller_update_status release
]

-- What `renderOVNKubernetes` decides from the three: an upgrade is looked at only if no conversion
-- holds anything back, and the pre-puller only if the node is to be updated.
pub record Rollout : Type 0 where
  pub node : Bool
  pub control_plane : Bool
  pub pre_pull : Bool

module _ (semver : Semver) where
  unfoldable pub after_upgrade : OvnBootstrapResult → String → Update → Update
  unfolding should_update_ovnk_on_upgrade
  after_upgrade ovn release u =
      if u.node && u.control_plane then should_update_ovnk_on_upgrade semver ovn release else u

  unfoldable pub after_prepull : OvnBootstrapResult → String → Update → Rollout
  unfolding should_update_ovnk_on_prepull
  after_prepull ovn release u =
      let p = should_update_ovnk_on_prepull ovn release in
      if u.node
      then record { node = p.node; control_plane = u.control_plane; pre_pull = p.render }
      else record { node = false; control_plane = u.control_plane; pre_pull = false }

  unfoldable pub decide_rollout : OvnBootstrapResult → List String → String → Rollout
  decide_rollout ovn service_network release =
      let mode = ip_family_mode_from_config service_network in
      after_prepull ovn release
        (after_upgrade ovn release (should_update_ovnk_on_ip_family_change ovn mode))
