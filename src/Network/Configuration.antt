-- ===== src/Network/Configuration.antt =====
-- render.go: the operator's configuration is validated as a whole, gets its defaults, and is compared
-- with the one before; also whether the MTU is to be probed.
pub mod Filled
pub mod Probe
pub mod Safe
use cluster_network_operator.Prelude.{
  ℕ, String, Bool, true, false, not, ◌&&◌, List, [], ◌∷◌, ◌++◌, map, Option, none, some, ◌==◌,
  string_eq, nat_eq, bool_eq, option_eq, Outcome, ok, fail, ◌>>=◌, if◌then◌else◌,
}
use cluster_network_operator.Network.Subnets.{Address}
use cluster_network_operator.Network.Spec.{
  OvnKubernetesConfig, Migration, NetworkSpec, NetLibrary, ovn_kubernetes,
}
use cluster_network_operator.Network.Equal.{network_spec_eq}
use cluster_network_operator.Network.Pools.{PoolsError, error_if, is_nil, validate_ip_pools}
use cluster_network_operator.Network.NodeSubnets.{Panic}
use cluster_network_operator.Network.OvnConfig.{OvnError, validate_ovn_kubernetes}
use cluster_network_operator.Network.OvnDefaults.{or_default, or_text, fill_ovn_kubernetes_defaults}
use cluster_network_operator.Network.OvnChanges.{
  ChangeError, type_changed, disable_multi_network_changed, is_ovn_kubernetes_change_safe,
}
use cluster_network_operator.Network.KubeProxy.{
  ProxyLibrary, ProxyError, validate_kube_proxy, fill_kube_proxy_defaults,
}
use cluster_network_operator.Network.NetworkChanges.{
  NetworkChangeError, Checked, unsorted, is_network_change_safe,
}

pub data ConfigError : Type 0 where
  pools : PoolsError → ConfigError
  ovn : OvnError → ConfigError
  proxy : ProxyError → ConfigError
  multus_missing type_migration feature_migration : ConfigError

unfoldable pub validate_multus : NetworkSpec → List ConfigError
validate_multus conf =
    error_if (or_default false conf.disable_multi_network && not (is_nil conf.additional_networks))
      multus_missing

abbrev pub migration_config_errors : Option Migration → List ConfigError
migration_config_errors none = []
migration_config_errors (some m) =
    error_if (not (m.network_type == "")) type_migration ++ error_if m.features feature_migration

unfoldable pub validate_migration : NetworkSpec → List ConfigError
validate_migration conf = migration_config_errors conf.migration

unfoldable pub fill_default_network_defaults :
    ℕ → NetworkSpec → Option NetworkSpec → ℕ → Option NetworkSpec
fill_default_network_defaults default_mtu conf previous host_mtu =
    if conf.network_type == ovn_kubernetes
    then fill_ovn_kubernetes_defaults default_mtu conf previous host_mtu
    else some conf

unfoldable pub fill_own_defaults : NetworkSpec → NetworkSpec
fill_own_defaults conf = record conf {
  disable_multi_network = some (or_default false conf.disable_multi_network);
  use_multi_network_policy = some (or_default false conf.use_multi_network_policy);
  log_level = or_text "Normal" conf.log_level;
}

module _ (net : NetLibrary) where
  unfoldable pub validate_default_network : NetworkSpec → Outcome Panic (List OvnError)
  validate_default_network conf =
      if conf.network_type == ovn_kubernetes then validate_ovn_kubernetes net conf else ok []

  unfoldable pub validate : ProxyLibrary → NetworkSpec → Outcome Panic (List ConfigError)
  unfolding validate_default_network validate_multus validate_migration
  validate lib conf = do
    errors ← validate_default_network conf
    ok (
        map pools (validate_ip_pools net.parse_cidr conf)
        ++ (map ovn errors
            ++ (validate_multus conf
                ++ (map proxy (validate_kube_proxy lib conf) ++ validate_migration conf))))

  abbrev pub then_proxy : Option NetworkSpec → Option NetworkSpec
  then_proxy none = none
  then_proxy (some conf) = fill_kube_proxy_defaults net conf

  unfoldable pub fill_defaults : ℕ → NetworkSpec → Option NetworkSpec → ℕ → Option NetworkSpec
  unfolding fill_own_defaults fill_default_network_defaults
  fill_defaults default_mtu conf previous host_mtu =
      then_proxy
        (fill_default_network_defaults default_mtu (fill_own_defaults conf) previous host_mtu)

-- whether a configuration of ovn-kubernetes lacks an MTU that is not 0
abbrev pub lacks_mtu : Option OvnKubernetesConfig → Bool
lacks_mtu none = true
lacks_mtu (some oc) = or_default 0 oc.mtu == 0

unfoldable pub needs_mtu : Option NetworkSpec → Bool
needs_mtu none = true
needs_mtu (some c) = if c.network_type == ovn_kubernetes then lacks_mtu c.ovn else false

unfoldable pub need_mtu_probe : Option NetworkSpec → NetworkSpec → Bool
unfolding needs_mtu
need_mtu_probe prev next = needs_mtu prev && needs_mtu (some next)

pub data UnsafeError : Type 0 where
  networks : NetworkChangeError → UnsafeError
  settings : ChangeError → UnsafeError

abbrev pub network_errors : Option NetworkChangeError → List UnsafeError
network_errors none = []
network_errors (some e) = networks e ∷ []

-- also whether the MTU or the port of ovn-kubernetes changes
module _ (net : NetLibrary) (parse_ip : String → Option Address)
    (text_before : String → String → Bool) where
  unfoldable pub is_default_network_change_safe :
      NetworkSpec → NetworkSpec → Option (List ChangeError)
  is_default_network_change_safe prev next =
      if not (prev.network_type == next.network_type)
      then some (type_changed ∷ [])
      else if prev.network_type == ovn_kubernetes
      then is_ovn_kubernetes_change_safe net prev next
      else some []

  -- the errors of the settings, after those of the networks
  abbrev pub with_settings :
      Checked → Option (List ChangeError) → Option (List UnsafeError × NetworkSpec)
  with_settings c none = none
  with_settings c (some errors) = some (
    network_errors c.error
        ++ (map settings errors
            ++ error_if (not (c.prev.disable_multi_network == c.next.disable_multi_network))
                (settings disable_multi_network_changed)),
    c.next,
  )

  abbrev pub check_settings : Option Checked → Option (List UnsafeError × NetworkSpec)
  check_settings none = none
  check_settings (some c) = with_settings c (is_default_network_change_safe c.prev c.next)

  -- the errors, and the new configuration, whose cluster networks may be in another order
  unfoldable pub is_change_safe :
      String → Option NetworkSpec → NetworkSpec → Option (List UnsafeError × NetworkSpec)
  unfolding is_default_network_change_safe
  is_change_safe platform none next = some ([], next)
  is_change_safe platform (some prev) next =
      if prev == next
      then some ([], next)
      else check_settings (is_network_change_safe net parse_ip text_before platform prev next)
