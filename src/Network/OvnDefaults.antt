-- ===== src/Network/OvnDefaults.antt =====
-- ovn_kubernetes.go: the defaults of the configuration of ovn-kubernetes. `none` is the panic of the
-- code, when there is no MTU of the host.
pub mod Filled
use cluster_network_operator.Prelude.{
  ℕ, ◌+◌, ◌-◌, ◌%◌, ◌^◌, String, Bool, true, false, not, ◌&&◌, ◌||◌, List, [], ◌∷◌, ◌++◌, Option,
  none, some, Outcome, ok, fail, ◌>>=◌, ◌==◌, string_eq, nat_eq, bool_eq, option_eq, ltb, length,
  any, if◌then◌else◌,
}
use cluster_network_operator.Ovn.Ipsec.{get_ipsec_mode, full}
use cluster_network_operator.Network.Spec.{
  ClusterNetworkEntry, HybridOverlayConfig, PolicyAuditConfig, OvnKubernetesConfig, MtuValues,
  MtuMigration, Migration, NetworkSpec, NetLibrary, Families, no_families, seen,
}
use cluster_network_operator.Network.Equal.{hybrid_overlay_config_eq}
use cluster_network_operator.Network.Pools.{error_if, differ, is_nil}
use cluster_network_operator.Network.NodeSubnets.{
  Panic, SubnetsError, validate_ovn_kubernetes_subnets,
}
use cluster_network_operator.Network.ClusterConfig.{mtu_of}
use cluster_network_operator.Network.OvnConfig.{uint32_mod, no_overlay, get_ovn_encap_overhead}

abbrev pub empty_config : OvnKubernetesConfig
empty_config = record {
  mtu = none;
  geneve_port = none;
  hybrid_overlay = none;
  ipsec = none;
  policy_audit = none;
  gateway = none;
  v4_internal_subnet = "";
  v6_internal_subnet = "";
  ipv4 = none;
  ipv6 = none;
  transport = "";
}

abbrev pub config_or_empty : Option OvnKubernetesConfig → OvnKubernetesConfig
config_or_empty none = empty_config
config_or_empty (some oc) = oc

abbrev pub or_default {ℓ} : {A : Type ℓ} → A → Option A → A
or_default d none = d
or_default d (some a) = a

abbrev pub or_text : String → String → String
or_text d s = if s == "" then d else s

-- the MTU that the configuration before has
abbrev pub previous_mtu : Option NetworkSpec → Option ℕ
previous_mtu none = none
previous_mtu (some previous) = mtu_of previous.ovn

-- the MTU when none is configured: the previous, or the host's less the overhead; `default_mtu` is the
-- result of GetDefaultMTU, 0 if it has none
unfoldable pub chosen_mtu : ℕ → OvnKubernetesConfig → Option ℕ → ℕ → Option ℕ
unfolding get_ovn_encap_overhead
chosen_mtu default_mtu sc (some mtu) host_mtu = some mtu
chosen_mtu default_mtu sc none host_mtu =
    let host = if host_mtu == 0 then default_mtu else host_mtu in
    if host == 0
    then none
    else if sc.transport == no_overlay
    then some (host % uint32_mod)
    else some ((host % uint32_mod + uint32_mod - get_ovn_encap_overhead sc) % uint32_mod)

-- sc.MTU after the first part of fillOVNKubernetesDefaults
abbrev pub or_chosen : Option ℕ → Option ℕ → Option ℕ
or_chosen (some mtu) chosen = some mtu
or_chosen none chosen = chosen

abbrev pub filled_mtu : ℕ → OvnKubernetesConfig → Option NetworkSpec → ℕ → Option ℕ
filled_mtu default_mtu sc previous host_mtu =
    or_chosen sc.mtu (chosen_mtu default_mtu sc (previous_mtu previous) host_mtu)

unfoldable pub fill_policy_audit : Option PolicyAuditConfig → PolicyAuditConfig
fill_policy_audit none = record {
  rate_limit = some 20;
  max_file_size = some 50;
  destination = "null";
  syslog_facility = "local0";
}
fill_policy_audit (some p) = record {
  rate_limit = some (or_default 20 p.rate_limit);
  max_file_size = some (or_default 50 p.max_file_size);
  destination = or_text "null" p.destination;
  syslog_facility = or_text "local0" p.syslog_facility;
}

-- the fields after the MTU is set
abbrev pub fill_fields : OvnKubernetesConfig → ℕ → OvnKubernetesConfig
fill_fields sc mtu = record sc {
  mtu = some mtu;
  geneve_port = some (or_default 6081 sc.geneve_port);
  policy_audit = some (fill_policy_audit sc.policy_audit);
}

-- the configuration with its defaults, by the MTU
abbrev pub with_mtu : NetworkSpec → OvnKubernetesConfig → Option ℕ → Option NetworkSpec
with_mtu conf sc none = none
with_mtu conf sc (some mtu) = some (record conf { ovn = some (fill_fields sc mtu) })

unfoldable pub fill_ovn_kubernetes_defaults :
    ℕ → NetworkSpec → Option NetworkSpec → ℕ → Option NetworkSpec
unfolding chosen_mtu fill_policy_audit
fill_ovn_kubernetes_defaults default_mtu conf previous host_mtu =
    let sc = config_or_empty conf.ovn in
    with_mtu conf sc (filled_mtu default_mtu sc previous host_mtu)
