-- ===== src/Network/KubeProxy.antt =====
-- kube_proxy.go: the configuration of kube-proxy is validated and gets its defaults.
use cluster_network_operator.Prelude.{
  String, Bool, true, false, not, ◌&&◌, ◌||◌, List, [], ◌∷◌, ◌++◌, Option, none, some, ◌==◌,
  string_eq, list_eq, Dict, lookup, is_some, if◌then◌else◌,
}
use cluster_network_operator.Network.Spec.{
  ClusterNetworkEntry, ProxyConfig, NetworkSpec, NetLibrary, ovn_kubernetes,
}
use cluster_network_operator.Network.Pools.{error_if, is_nil}
use cluster_network_operator.Network.OvnDefaults.{or_default}

-- net.ParseIP and time.ParseDuration, by whether they accept a text
pub record ProxyLibrary : Type 0 where
  pub is_ip : String → Bool
  pub is_duration : String → Bool

pub data ProxyError : Type 0 where
  options_not_allowed : String → ProxyError
  sync_period_invalid bind_address_invalid : ProxyError
  metrics_port_overridden healthz_port_overridden feature_gates_overridden : ProxyError

unfoldable pub uses_kube_proxy : NetworkSpec → Bool
uses_kube_proxy conf = not (conf.network_type == ovn_kubernetes)

-- noKubeProxyConfig, on a configuration that is set
unfoldable pub is_default_proxy_config : ProxyConfig → Bool
is_default_proxy_config p =
    if not (p.iptables_sync_period == "") || not (is_nil p.proxy_arguments)
    then false
    else p.bind_address == "" || (p.bind_address == "0.0.0.0" || p.bind_address == "::")

unfoldable pub no_kube_proxy_config : NetworkSpec → Bool
unfolding is_default_proxy_config
no_kube_proxy_config conf = elim conf.kube_proxy [
  | none ↦ true
  | some p ↦ is_default_proxy_config p
]

-- a port that is given, and is not the one value that is allowed
abbrev pub port_overridden : String → Option (List String) → Bool
port_overridden allowed none = false
port_overridden allowed (some values) = not (values == (allowed ∷ []))

unfoldable pub argument_errors : Dict String (List String) → List ProxyError
argument_errors arguments =
    error_if (port_overridden "9101" (lookup "metrics-port" arguments)) metrics_port_overridden
    ++ (error_if (port_overridden "10256" (lookup "healthz-port" arguments)) healthz_port_overridden
        ++ error_if (is_some (lookup "feature-gates" arguments)) feature_gates_overridden)

module _ (lib : ProxyLibrary) where
  unfoldable pub proxy_config_errors : ProxyConfig → List ProxyError
  unfolding argument_errors
  proxy_config_errors p =
      error_if (not (p.iptables_sync_period == "") && not (lib.is_duration p.iptables_sync_period))
        sync_period_invalid
      ++ (error_if (not (p.bind_address == "") && not (lib.is_ip p.bind_address))
            bind_address_invalid
          ++ argument_errors p.proxy_arguments)

  unfoldable pub validate_kube_proxy : NetworkSpec → List ProxyError
  unfolding uses_kube_proxy no_kube_proxy_config proxy_config_errors
  validate_kube_proxy conf = elim conf.kube_proxy [
    | none ↦ []
    | some p ↦
        if not (uses_kube_proxy conf)
        then error_if (not (no_kube_proxy_config conf)) (options_not_allowed conf.network_type)
        else proxy_config_errors p
  ]

abbrev pub empty_proxy : ProxyConfig
empty_proxy = record { iptables_sync_period = ""; bind_address = ""; proxy_arguments = [] }

abbrev pub proxy_or_empty : Option ProxyConfig → ProxyConfig
proxy_or_empty none = empty_proxy
proxy_or_empty (some p) = p

abbrev pub with_address : NetworkSpec → ProxyConfig → Option String → Option NetworkSpec
with_address conf p none = none
with_address conf p (some address) =
    some (record conf { kube_proxy = some (record p { bind_address = address }) })

abbrev pub with_deployed : NetworkSpec → Bool → NetworkSpec
with_deployed conf deploy = record conf { deploy_kube_proxy = some deploy }

module _ (net : NetLibrary) where
  -- the address of the first cluster network's family, or none if it is no network; `none` for the
  -- panic when there is no cluster network
  unfoldable pub default_bind_address : List ClusterNetworkEntry → Option String
  default_bind_address [] = none
  default_bind_address (n ∷ cluster) = elim (net.parse_cidr n.cidr) [
    | none ↦ some ""
    | some s ↦ some (if s.ip.is_ipv6 then "::" else "0.0.0.0")
  ]

  abbrev pub filled_address : String → List ClusterNetworkEntry → Option String
  filled_address address cluster =
      if address == "" then default_bind_address cluster else some address

  -- the settings of a kube-proxy that is deployed, and nothing for one that is not
  abbrev pub deployed_proxy : NetworkSpec → Bool → Option NetworkSpec
  deployed_proxy conf false = some conf
  deployed_proxy conf true =
      let p = proxy_or_empty conf.kube_proxy in
      with_address conf p (filled_address p.bind_address conf.cluster_network)

  unfoldable pub fill_kube_proxy_defaults : NetworkSpec → Option NetworkSpec
  unfolding uses_kube_proxy default_bind_address
  fill_kube_proxy_defaults conf =
      let deploy = or_default (uses_kube_proxy conf) conf.deploy_kube_proxy in
      deployed_proxy (with_deployed conf deploy) deploy
