-- ===== src/Network/ProxyConfiguration.antt =====
-- pkg/util/k8s/kubeproxy.go: the configuration of kube-proxy from its arguments, and the error for
-- arguments that no getter uses; kube_proxy.go: the sources of the arguments.
pub mod Untouched
pub mod Unused
use cluster_network_operator.Prelude.{
  ℕ, String, Bool, true, false, not, List, [], ◌∷◌, map, Option, none, some, ◌==◌, string_eq,
  nat_eq, Dict, length, is_some, if◌then◌else◌, Outcome, ok, fail,
}
use cluster_network_operator.Network.Spec.{ClusterNetworkEntry, ProxyConfig}
use cluster_network_operator.Network.Pools.{is_nil}
use cluster_network_operator.Network.ProxyArguments.{
  Arguments, merge_kube_proxy_arguments, ArgumentError, unused, KpcArgs, Getter, ◌>>=◌, return, ℤ,
  pos, negsuc, ArgumentLibrary, get_string, get_address, get_cidr, get_cidr_list, get_string_list,
  get_opt_int32, get_bool, get_opt_bool, get_duration, get_port_range, get_address_and_port,
  get_feature_gates,
}

pub record IptablesConfig : Type 0 where
  pub masquerade_bit : Option ℤ
  pub masquerade_all : Bool
  pub localhost_node_ports : Option Bool
  pub sync_period : ℤ
  pub min_sync_period : ℤ

pub record NftablesConfig : Type 0 where
  pub masquerade_bit : Option ℤ
  pub masquerade_all : Bool
  pub sync_period : ℤ
  pub min_sync_period : ℤ

pub record IpvsConfig : Type 0 where
  pub sync_period : ℤ
  pub min_sync_period : ℤ
  pub scheduler : String
  pub exclude_cidrs : Option (List String)
  pub strict_arp : Bool
  pub tcp_timeout : ℤ
  pub tcp_fin_timeout : ℤ
  pub udp_timeout : ℤ

pub record ConntrackConfig : Type 0 where
  pub max_per_core : Option ℤ
  pub min : Option ℤ
  pub tcp_established_timeout : Option ℤ
  pub tcp_close_wait_timeout : Option ℤ
  pub tcp_be_liberal : Bool

-- the fields that come first
pub record AddressConfig : Type 0 where
  pub feature_gates : Option (Dict String Bool)
  pub bind_address : String
  pub healthz_bind_address : String
  pub metrics_bind_address : String
  pub enable_profiling : Bool
  pub cluster_cidr : String

-- the fields that come last
pub record DetectConfig : Type 0 where
  pub config_sync_period : ℤ
  pub node_port_addresses : Option (List String)
  pub show_hidden_metrics : String
  pub detect_local_mode : String
  pub bridge_interface : String
  pub interface_name_prefix : String

pub record KubeProxyConfiguration : Type 0 where
  pub address : AddressConfig
  pub iptables : IptablesConfig
  pub nftables : NftablesConfig
  pub ipvs : IpvsConfig
  pub mode : String
  pub port_range : String
  pub conntrack : ConntrackConfig
  pub detect : DetectConfig

-- a duration that is not 0
abbrev pub not_zero : ℤ → Option ℤ
not_zero (pos n) = if n == 0 then none else some (pos n)
not_zero (negsuc n) = some (negsuc n)

module _ (lib : ArgumentLibrary) where
  unfoldable pub address_config : Getter AddressConfig
  unfolding get_feature_gates get_address_and_port
  address_config = do
    feature_gates ← get_feature_gates lib "feature-gates"
    bind_address ← get_address lib "bind-address"
    healthz_bind_address ← get_address_and_port lib "healthz-bind-address" "healthz-port" "10256"
    metrics_bind_address ← get_address_and_port lib "metrics-bind-address" "metrics-port" "10249"
    enable_profiling ← get_bool lib "enable-profiling"
    cluster_cidr ← get_cidr lib "cluster-cidr"
    return (record {
      feature_gates = feature_gates;
      bind_address = bind_address;
      healthz_bind_address = healthz_bind_address;
      metrics_bind_address = metrics_bind_address;
      enable_profiling = enable_profiling;
      cluster_cidr = cluster_cidr;
    })

  unfoldable pub iptables_config : Getter IptablesConfig
  iptables_config = do
    masquerade_bit ← get_opt_int32 lib "iptables-masquerade-bit"
    masquerade_all ← get_bool lib "masquerade-all"
    localhost_node_ports ← get_opt_bool lib "iptables-localhost-nodeports"
    sync_period ← get_duration lib "iptables-sync-period"
    min_sync_period ← get_duration lib "iptables-min-sync-period"
    return (record {
      masquerade_bit = masquerade_bit;
      masquerade_all = masquerade_all;
      localhost_node_ports = localhost_node_ports;
      sync_period = sync_period;
      min_sync_period = min_sync_period;
    })

  unfoldable pub nftables_config : Getter NftablesConfig
  nftables_config = do
    masquerade_bit ← get_opt_int32 lib "nftables-masquerade-bit"
    masquerade_all ← get_bool lib "nftables-masquerade-all"
    sync_period ← get_duration lib "nftables-sync-period"
    min_sync_period ← get_duration lib "nftables-min-sync-period"
    return (record {
      masquerade_bit = masquerade_bit;
      masquerade_all = masquerade_all;
      sync_period = sync_period;
      min_sync_period = min_sync_period;
    })

  unfoldable pub ipvs_config : Getter IpvsConfig
  ipvs_config = do
    sync_period ← get_duration lib "ipvs-sync-period"
    min_sync_period ← get_duration lib "ipvs-min-sync-period"
    scheduler ← get_string lib "ipvs-scheduler"
    exclude_cidrs ← get_cidr_list lib "ipvs-exclude-cidrs"
    strict_arp ← get_bool lib "ipvs-strict-arp"
    tcp_timeout ← get_duration lib "ipvs-tcp-timeout"
    tcp_fin_timeout ← get_duration lib "ipvs-tcp-fin-timeout"
    udp_timeout ← get_duration lib "ipvs-udp-timeout"
    return (record {
      sync_period = sync_period;
      min_sync_period = min_sync_period;
      scheduler = scheduler;
      exclude_cidrs = exclude_cidrs;
      strict_arp = strict_arp;
      tcp_timeout = tcp_timeout;
      tcp_fin_timeout = tcp_fin_timeout;
      udp_timeout = udp_timeout;
    })

  unfoldable pub conntrack_config : Getter ConntrackConfig
  conntrack_config = do
    max_per_core ← get_opt_int32 lib "conntrack-max-per-core"
    min ← get_opt_int32 lib "conntrack-min"
    established ← get_duration lib "conntrack-tcp-timeout-established"
    close_wait ← get_duration lib "conntrack-tcp-timeout-close-wait"
    tcp_be_liberal ← get_bool lib "conntrack-tcp-be-liberal"
    return (record {
      max_per_core = max_per_core;
      min = min;
      tcp_established_timeout = not_zero established;
      tcp_close_wait_timeout = not_zero close_wait;
      tcp_be_liberal = tcp_be_liberal;
    })

  unfoldable pub detect_config : Getter DetectConfig
  detect_config = do
    config_sync_period ← get_duration lib "config-sync-period"
    nodeport_addresses ← get_string_list lib "nodeport-addresses"
    node_port_addresses ← get_string_list lib "node-port-addresses"
    show_hidden_metrics ← get_string lib "show-hidden-metrics-for-version"
    detect_local_mode ← get_string lib "detect-local-mode"
    bridge_interface ← get_string lib "pod-bridge-interface"
    interface_name_prefix ← get_string lib "pod-interface-name-prefix"
    return (record {
      config_sync_period = config_sync_period;
      node_port_addresses =
          if is_some nodeport_addresses then nodeport_addresses else node_port_addresses;
      show_hidden_metrics = show_hidden_metrics;
      detect_local_mode = detect_local_mode;
      bridge_interface = bridge_interface;
      interface_name_prefix = interface_name_prefix;
    })

  -- all getters, in the order of the code
  unfoldable pub configuration : Getter KubeProxyConfiguration
  unfolding address_config iptables_config nftables_config ipvs_config conntrack_config
      detect_config
  configuration = do
    address ← address_config
    iptables ← iptables_config
    nftables ← nftables_config
    ipvs ← ipvs_config
    mode ← get_string lib "proxy-mode"
    port_range ← get_port_range lib "proxy-port-range"
    conntrack ← conntrack_config
    detect ← detect_config
    return (record {
      address = address;
      iptables = iptables;
      nftables = nftables;
      ipvs = ipvs;
      mode = mode;
      port_range = port_range;
      conntrack = conntrack;
      detect = detect;
    })

  abbrev pub keys : Arguments → List String
  keys = map (λ entry. entry.0)

  -- getError
  unfoldable pub get_error : KpcArgs → List ArgumentError
  get_error ka =
      if not (is_nil ka.errs)
      then ka.errs
      else if is_nil ka.args
      then []
      else unused (keys ka.args) ∷ []

  -- GenerateKubeProxyConfiguration up to the last step, which writes the result as YAML
  unfoldable pub generate_kube_proxy_configuration :
      Arguments → Outcome (List ArgumentError) KubeProxyConfiguration
  unfolding configuration get_error
  generate_kube_proxy_configuration args =
      let (kpc, ka) =
        configuration (record { args = merge_kube_proxy_arguments args []; errs = [] }) in
      let errors = get_error ka in if is_nil errors then ok kpc else fail errors

  -- what comes first of the arguments: the addresses and the period of the configuration
  unfoldable pub own_arguments : ProxyConfig → List ClusterNetworkEntry → Arguments
  own_arguments p [] =
      ("bind-address", p.bind_address ∷ [])
      ∷ ("iptables-sync-period", p.iptables_sync_period ∷ [])
      ∷ []
  own_arguments p (n ∷ []) =
      ("bind-address", p.bind_address ∷ [])
      ∷ ("cluster-cidr", n.cidr ∷ [])
      ∷ ("iptables-sync-period", p.iptables_sync_period ∷ [])
      ∷ []
  own_arguments p (n ∷ m ∷ cluster) =
      ("bind-address", p.bind_address ∷ [])
      ∷ ("iptables-sync-period", p.iptables_sync_period ∷ [])
      ∷ []

  -- the arguments of kubeProxyConfiguration, each over those before
  unfoldable pub proxy_arguments_of :
      Arguments → ProxyConfig → List ClusterNetworkEntry → Arguments → Arguments
  unfolding own_arguments
  proxy_arguments_of plugin_defaults p cluster plugin_overrides =
      merge_kube_proxy_arguments
        (merge_kube_proxy_arguments
          (merge_kube_proxy_arguments (own_arguments p cluster) plugin_defaults) p.proxy_arguments)
        plugin_overrides

  unfoldable pub kube_proxy_configuration :
      Arguments
      → ProxyConfig
      → List ClusterNetworkEntry
      → Arguments
      → Outcome (List ArgumentError) KubeProxyConfiguration
  unfolding proxy_arguments_of generate_kube_proxy_configuration
  kube_proxy_configuration plugin_defaults p cluster plugin_overrides =
      generate_kube_proxy_configuration
        (proxy_arguments_of plugin_defaults p cluster plugin_overrides)
