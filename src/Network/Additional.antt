-- ===== src/Network/Additional.antt =====
-- The additional networks: additional_networks.go validates them, and DeprecatedCanonicalize of
-- render.go gives the words of the configuration their capitals.
pub mod Capitals
pub mod Valid
use cluster_network_operator.Prelude.{
  String, Bool, true, false, not, ◌&&◌, ◌||◌, List, [], ◌∷◌, ◌++◌, map, Option, none, some, ◌==◌,
  string_eq, any, if◌then◌else◌,
}
use cluster_network_operator.Network.Spec.{
  StaticAddress, StaticRoute, StaticIpamConfig, IpamConfig, SimpleMacvlanConfig, AdditionalNetwork,
  NetworkSpec, ovn_kubernetes,
}
use cluster_network_operator.Network.Pools.{error_if}

pub data AdditionalError : Type 0 where
  name_empty : AdditionalError
  config_invalid address_invalid route_invalid gateway_invalid : String → AdditionalError
  ipam_type_invalid mode_invalid type_unknown : String → AdditionalError

-- json.Unmarshal into a map, net.ParseCIDR and net.ParseIP, by whether they accept a text
pub record AdditionalLibrary : Type 0 where
  pub is_json : String → Bool
  pub is_cidr : String → Bool
  pub is_ip : String → Bool

module _ (lib : AdditionalLibrary) where
  unfoldable pub validate_raw : AdditionalNetwork → List AdditionalError
  validate_raw conf =
      error_if (conf.name == "") name_empty
      ++ error_if (not (lib.is_json conf.raw_config)) (config_invalid conf.raw_config)

  abbrev pub gateway_errors : String → List AdditionalError
  gateway_errors gateway =
      error_if (not (gateway == "") && not (lib.is_ip gateway)) (gateway_invalid gateway)

  unfoldable pub address_errors : List StaticAddress → List AdditionalError
  address_errors [] = []
  address_errors (a ∷ addresses) =
      error_if (not (lib.is_cidr a.address)) (address_invalid a.address)
      ++ (gateway_errors a.gateway ++ address_errors addresses)

  unfoldable pub route_errors : List StaticRoute → List AdditionalError
  route_errors [] = []
  route_errors (r ∷ routes) =
      error_if (not (lib.is_cidr r.destination)) (route_invalid r.destination)
      ++ (gateway_errors r.gateway ++ route_errors routes)

  unfoldable pub validate_static_ipam_config : StaticIpamConfig → List AdditionalError
  unfolding address_errors route_errors
  validate_static_ipam_config conf = address_errors conf.addresses ++ route_errors conf.routes

  abbrev pub static_errors : Option StaticIpamConfig → List AdditionalError
  static_errors none = []
  static_errors (some conf) = validate_static_ipam_config conf

  unfoldable pub validate_ipam_config : IpamConfig → List AdditionalError
  unfolding validate_static_ipam_config
  validate_ipam_config conf =
      if conf.type == "Static"
      then static_errors conf.static_config
      else error_if (not (conf.type == "DHCP")) (ipam_type_invalid conf.type)

  abbrev pub ipam_errors : Option IpamConfig → List AdditionalError
  ipam_errors none = []
  ipam_errors (some conf) = validate_ipam_config conf

  abbrev pub macvlan_modes : List String
  macvlan_modes = "Bridge" ∷ "Private" ∷ "VEPA" ∷ "Passthru" ∷ []

  abbrev pub macvlan_errors : Option SimpleMacvlanConfig → List AdditionalError
  macvlan_errors none = []
  macvlan_errors (some conf) =
      ipam_errors conf.ipam
      ++ error_if (not (conf.mode == "") && not (any (λ m. m == conf.mode) macvlan_modes))
          (mode_invalid conf.mode)

  unfoldable pub validate_simple_macvlan_config : AdditionalNetwork → List AdditionalError
  unfolding validate_ipam_config
  validate_simple_macvlan_config conf =
      error_if (conf.name == "") name_empty ++ macvlan_errors conf.macvlan

  abbrev pub validate_additional_network : AdditionalNetwork → List AdditionalError
  validate_additional_network an =
      if an.type == "Raw"
      then validate_raw an
      else if an.type == "SimpleMacvlan"
      then validate_simple_macvlan_config an
      else type_unknown an.type ∷ []

  unfoldable pub validate_additional_networks : List AdditionalNetwork → List AdditionalError
  unfolding validate_raw validate_simple_macvlan_config
  validate_additional_networks [] = []
  validate_additional_networks (an ∷ networks) =
      validate_additional_network an ++ validate_additional_networks networks

-- strings.ToLower
module _ (to_lower : String → String) where
  -- the word that a text is but for its capitals, or else the text
  unfoldable pub capitalize : List String → String → String
  capitalize [] s = s
  capitalize (word ∷ words) s =
      let rest = capitalize words s in if to_lower s == to_lower word then word else rest

  unfoldable pub canonicalize_ipam : IpamConfig → IpamConfig
  unfolding capitalize
  canonicalize_ipam conf = record conf { type = capitalize ("DHCP" ∷ "Static" ∷ []) conf.type }

  abbrev pub canonicalize_ipams : Option IpamConfig → Option IpamConfig
  canonicalize_ipams none = none
  canonicalize_ipams (some conf) = some (canonicalize_ipam conf)

  unfoldable pub canonicalize_macvlan : SimpleMacvlanConfig → SimpleMacvlanConfig
  unfolding canonicalize_ipam
  canonicalize_macvlan conf = record conf {
    mode = capitalize ("Bridge" ∷ "Private" ∷ "VEPA" ∷ "Passthru" ∷ []) conf.mode;
    ipam = canonicalize_ipams conf.ipam;
  }

  abbrev pub canonicalize_macvlans : Option SimpleMacvlanConfig → Option SimpleMacvlanConfig
  canonicalize_macvlans none = none
  canonicalize_macvlans (some conf) = some (canonicalize_macvlan conf)

  -- one turn of the loop; the type that decides about the configuration is that of the loop's copy, from
  -- before it was corrected
  unfoldable pub canonicalize_network : AdditionalNetwork → AdditionalNetwork
  unfolding canonicalize_macvlan
  canonicalize_network an = record an {
    type = capitalize ("Raw" ∷ "SimpleMacvlan" ∷ []) an.type;
    macvlan = if an.type == "SimpleMacvlan" then canonicalize_macvlans an.macvlan else an.macvlan;
  }

  -- also strings.EqualFold
  unfoldable pub deprecated_canonicalize : (String → String → Bool) → NetworkSpec → NetworkSpec
  unfolding canonicalize_network
  deprecated_canonicalize equal_fold conf = record conf {
    network_type =
        if equal_fold conf.network_type ovn_kubernetes then ovn_kubernetes else conf.network_type;
    additional_networks = map canonicalize_network conf.additional_networks;
  }
