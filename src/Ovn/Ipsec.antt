-- ===== src/Ovn/Ipsec.antt =====
-- IPsec in ovn-kubernetes: the mode of the configuration, the machine configs that enable it on the
-- hosts (also pkg/util/machineconfig and pkg/util/k8s/ownerref.go), and what is rendered for it.
pub mod Laws
use cluster_network_operator.Prelude.{
  ℕ, String, Bool, true, false, ◌&&◌, ◌||◌, not, Option, none, some, List, [], ◌∷◌, map, ◌==◌,
  nat_eq, string_eq, option_eq, length, any, Dict, is_some, lookup, if◌then◌else◌,
}

abbrev pub disabled : String
disabled = "Disabled"

abbrev pub full : String
full = "Full"

-- `conf.IPsecConfig`: nil, or a mode that may be empty
unfoldable pub get_ipsec_mode : Option String → String
get_ipsec_mode none = disabled
get_ipsec_mode (some mode) = if mode == "" then full else mode

unfoldable pub is_ipsec_legacy_api : Option String → Bool
is_ipsec_legacy_api none = true
is_ipsec_legacy_api (some mode) = mode == ""

pub record OwnerReference : Type 0 where
  pub api_version : String
  pub kind : String
  pub name : String
  pub controller : Option Bool

pub record MachineConfig : Type 0 where
  pub name : String
  pub annotations : Dict String String
  pub owner_references : List OwnerReference

pub record MachineConfigPoolStatus : Type 0 where
  pub machine_count : ℕ
  pub updated_machine_count : ℕ
  pub source : List String  -- the names in Configuration.Source

unfoldable pub is_controller : Option Bool → Bool
is_controller none = false
is_controller (some b) = b

unfoldable pub contains_network_owner_ref : List OwnerReference → Bool
unfolding is_controller
contains_network_owner_ref = any (λ r.
    r.api_version == "operator.openshift.io/v1"
    && r.kind == "Network"
    && is_controller r.controller
    && r.name == "cluster")

-- every entry of the second map is in the first
unfoldable pub is_subset : Dict String String → Dict String String → Bool
is_subset annotations [] = true
is_subset annotations ((k, v) ∷ wanted) =
    lookup k annotations == some v && is_subset annotations wanted

abbrev pub user_defined_annotation : Dict String String
user_defined_annotation = ("user-ipsec-machine-config", "true") ∷ []

unfoldable pub is_user_defined_ipsec_machine_config : MachineConfig → Bool
unfolding is_subset lookup
is_user_defined_ipsec_machine_config mc = is_subset mc.annotations user_defined_annotation

-- sets.Set.IsSuperset
unfoldable pub is_superset : List String → List String → Bool
is_superset have [] = true
is_superset have (n ∷ wanted) = any (λ m. m == n) have && is_superset have wanted

unfoldable pub are_machine_configs_rendered_on_pool : MachineConfigPoolStatus → List String → Bool
unfolding is_superset
are_machine_configs_rendered_on_pool pool names =
    pool.machine_count == pool.updated_machine_count && is_superset pool.source names

-- `InfraStatus`; a nil list of machine configs is `none`
pub record InfraStatus : Type 0 where
  pub hosted_control_plane : Bool  -- HostedControlPlane is not nil
  pub master_machine_configs : Option (List MachineConfig)
  pub worker_machine_configs : Option (List MachineConfig)
  pub master_pools : List MachineConfigPoolStatus
  pub worker_pools : List MachineConfigPoolStatus
  pub machine_config_operator_ready : Bool

abbrev pub items {ℓ} : {A : Type ℓ} → Option (List A) → List A
items none = []
items (some xs) = xs

unfoldable pub is_cno_ipsec_machine_config_present : InfraStatus → Bool
unfolding contains_network_owner_ref
is_cno_ipsec_machine_config_present infra =
    any (λ mc. contains_network_owner_ref mc.owner_references) (items infra.master_machine_configs)
    && any (λ mc. contains_network_owner_ref mc.owner_references)
        (items infra.worker_machine_configs)

unfoldable pub is_user_defined_ipsec_machine_config_present : InfraStatus → Bool
is_user_defined_ipsec_machine_config_present infra =
    any is_user_defined_ipsec_machine_config (items infra.master_machine_configs)
    && any is_user_defined_ipsec_machine_config (items infra.worker_machine_configs)

-- the loop over the pools of one role
unfoldable pub rendered_on_all : List MachineConfigPoolStatus → List String → Bool
rendered_on_all [] names = true
rendered_on_all (pool ∷ pools) names =
    are_machine_configs_rendered_on_pool pool names && rendered_on_all pools names

unfoldable pub is_ipsec_machine_config_active : InfraStatus → Bool
is_ipsec_machine_config_active infra =
    if not (is_some infra.master_machine_configs) || not (is_some infra.worker_machine_configs)
    then false
    else if length infra.master_pools == 0 || length infra.worker_pools == 0
    then false
    else rendered_on_all infra.master_pools (names_of infra.master_machine_configs)
      && rendered_on_all infra.worker_pools (names_of infra.worker_machine_configs)
  where
    names_of : Option (List MachineConfig) → List String
    names_of mcs = map (λ mc. mc.name) (items mcs)

-- the results of `shouldRenderIPsec`
pub record RenderIpsec : Type 0 where
  pub cno_machine_config : Bool
  pub daemon_set : Bool
  pub ovn : Bool
  pub host_daemon_set : Bool
  pub containerized_daemon_set : Bool
  pub create_wait_only : Bool

-- OVN IPsec counts as active only where machine configs, or a hosted cluster, can have activated it.
unfoldable pub is_ovn_ipsec_active : InfraStatus → Option Bool → Bool
is_ovn_ipsec_active infra ipsec_update_status =
    active_or_rolling_out ipsec_update_status
    && (is_cno_ipsec_machine_config_present infra
        || is_user_defined_ipsec_machine_config_present infra
        || infra.hosted_control_plane)
  where
    active_or_rolling_out : Option Bool → Bool
    active_or_rolling_out none = false
    active_or_rolling_out (some b) = b

-- `ipsec_update_status` is IsOVNIPsecActiveOrRollingOut of `OVN.IPsecUpdateStatus`, if that exists.
unfoldable pub should_render_ipsec : Option String → InfraStatus → Option Bool → RenderIpsec
should_render_ipsec ipsec_config infra ipsec_update_status =
    let mode = get_ipsec_mode ipsec_config in
    let hosted = infra.hosted_control_plane in
    let cno_present = is_cno_ipsec_machine_config_present infra in
    let user_present = is_user_defined_ipsec_machine_config_present infra in
    let active = is_ovn_ipsec_active infra ipsec_update_status in
    let daemon_set = active || mode == full in
    let wanted = (not (mode == disabled) || daemon_set) && not hosted && not user_present in
    let host = daemon_set && not hosted in
    let containerized = daemon_set && hosted || not (is_ipsec_machine_config_active infra) in
    let ovn = (host || containerized || active) && mode == full in
    record {
      cno_machine_config = wanted && (cno_present || infra.machine_config_operator_ready);
      daemon_set = daemon_set;
      ovn = ovn;
      host_daemon_set = host;
      containerized_daemon_set = containerized;
      create_wait_only = active && not ovn;
    }
