-- ===== src/Network/Spec.antt =====
-- The configuration (`NetworkSpec` of the operator's API and of the cluster's), with the fields that
-- pkg/network reads, and what its functions use of package net and of k8s.io/utils/net.
use cluster_network_operator.Prelude.{
  ℕ, String, ◌≡◌, Bool, true, false, List, Option, some, Dict, string_eq,
}
use cluster_network_operator.Network.Subnets.{Subnet}

pub record ClusterNetworkEntry : Type 0 where
  pub cidr : String
  pub host_prefix : ℕ

pub record HybridOverlayConfig : Type 0 where
  pub cluster_network : List ClusterNetworkEntry
  pub vxlan_port : Option ℕ

pub record PolicyAuditConfig : Type 0 where
  pub rate_limit : Option ℕ
  pub max_file_size : Option ℕ
  pub destination : String
  pub syslog_facility : String

pub record InternalSubnets : Type 0 where
  pub transit_switch : String
  pub join : String

-- the masquerade subnets of the gateway's configuration
pub record GatewayConfig : Type 0 where
  pub masquerade_v4 : String
  pub masquerade_v6 : String

pub record OvnKubernetesConfig : Type 0 where
  pub mtu : Option ℕ
  pub geneve_port : Option ℕ
  pub hybrid_overlay : Option HybridOverlayConfig
  pub ipsec : Option String
  pub policy_audit : Option PolicyAuditConfig
  pub gateway : Option GatewayConfig
  pub v4_internal_subnet : String
  pub v6_internal_subnet : String
  pub ipv4 : Option InternalSubnets
  pub ipv6 : Option InternalSubnets
  pub transport : String

pub record ProxyConfig : Type 0 where
  pub iptables_sync_period : String
  pub bind_address : String
  pub proxy_arguments : Dict String (List String)

pub record MtuValues : Type 0 where
  pub to : Option ℕ
  pub from : Option ℕ

pub record MtuMigration : Type 0 where
  pub network : Option MtuValues
  pub machine : Option MtuValues

-- `features` says whether the pointer to the features is set.
pub record Migration : Type 0 where
  pub mtu : Option MtuMigration
  pub network_type : String
  pub features : Bool

pub record StaticAddress : Type 0 where
  pub address : String
  pub gateway : String

pub record StaticRoute : Type 0 where
  pub destination : String
  pub gateway : String

pub record StaticIpamConfig : Type 0 where
  pub addresses : List StaticAddress
  pub routes : List StaticRoute

pub record IpamConfig : Type 0 where
  pub type : String
  pub static_config : Option StaticIpamConfig

pub record SimpleMacvlanConfig : Type 0 where
  pub mode : String
  pub ipam : Option IpamConfig

pub record AdditionalNetwork : Type 0 where
  pub type : String
  pub name : String
  pub raw_config : String
  pub macvlan : Option SimpleMacvlanConfig

-- `operv1.NetworkSpec`
pub record NetworkSpec : Type 0 where
  pub cluster_network : List ClusterNetworkEntry
  pub service_network : List String
  pub network_type : String  -- DefaultNetwork.Type
  pub ovn : Option OvnKubernetesConfig  -- DefaultNetwork.OVNKubernetesConfig
  pub additional_networks : List AdditionalNetwork
  pub disable_multi_network : Option Bool
  pub use_multi_network_policy : Option Bool
  pub deploy_kube_proxy : Option Bool
  pub kube_proxy : Option ProxyConfig
  pub migration : Option Migration
  pub log_level : String
  pub management_state : String

abbrev pub ovn_kubernetes : String
ovn_kubernetes = "OVNKubernetes"

-- net.ParseCIDR (the network of its result), utilnet.IsIPv6CIDRString, and the number after the first
-- slash of a text (strings.Split and strconv.Atoi; 0 for what is no number, `none` without a slash)
pub record NetLibrary : Type 0 where
  pub parse_cidr : String → Option Subnet
  pub is_ipv6_cidr : String → Bool
  pub mask_text : String → Option ℕ

-- On texts that parse, the three agree.
pub record IsNetLibrary (net : NetLibrary) : Type 0 where
  pub family_agrees :
      (s : String) (n : Subnet) → net.parse_cidr s ≡ some n → net.is_ipv6_cidr s ≡ n.ip.is_ipv6
  pub mask_agrees :
      (s : String) (n : Subnet) → net.parse_cidr s ≡ some n → net.mask_text s ≡ some n.ones

-- which IP families have been seen in a list of networks
pub record Families : Type 0 where
  pub ipv4 : Bool
  pub ipv6 : Bool

abbrev pub no_families : Families
no_families = record { ipv4 = false; ipv6 = false }

abbrev pub seen : Bool → Families → Families
seen true f = record f { ipv6 = true }
seen false f = record f { ipv4 = true }
