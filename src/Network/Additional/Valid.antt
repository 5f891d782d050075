-- ===== src/Network/Additional/Valid.antt =====
-- Which additional networks are accepted.
use cluster_network_operator.Prelude.{
  String, ◌≡◌, ◌≢◌, ◌↔◌, ◌⊎◌, ◌∙◌, sym, refl, true, false, not, ◌&&◌, Bool-cases, List, [], ◌∷◌,
  ◌++◌, append_nil_iff, All, Option, none, some, ◌==◌, ==_iff, string_eq, any, arith, inl, inr,
}
use cluster_network_operator.Network.Spec.{
  StaticAddress, StaticRoute, StaticIpamConfig, IpamConfig, SimpleMacvlanConfig, AdditionalNetwork,
}
use cluster_network_operator.Network.Pools.{error_if}
use cluster_network_operator.Network.OvnChanges.Kept.{error_if_iff}
use cluster_network_operator.Network.Additional.{
  AdditionalError, name_empty, config_invalid, address_invalid, route_invalid, gateway_invalid,
  ipam_type_invalid, type_unknown, mode_invalid, AdditionalLibrary, validate_raw, gateway_errors,
  address_errors, route_errors, validate_static_ipam_config, static_errors, validate_ipam_config,
  ipam_errors, macvlan_modes, macvlan_errors, validate_simple_macvlan_config,
  validate_additional_network, validate_additional_networks,
}

module _ (lib : AdditionalLibrary) where
  abbrev pub IsGateway : String → Type 0
  IsGateway gateway = (gateway ≡ "") ⊎ (lib.is_ip gateway ≡ true)

  abbrev pub IsStatic : StaticIpamConfig → Type 0
  IsStatic conf =
      All (λ a. (lib.is_cidr a.address ≡ true) × IsGateway a.gateway) conf.addresses
      × All (λ r. (lib.is_cidr r.destination ≡ true) × IsGateway r.gateway) conf.routes

  abbrev pub IsStaticOption : Option StaticIpamConfig → Type 0
  IsStaticOption none = Unit {0}
  IsStaticOption (some conf) = IsStatic conf

  -- the type is one of the two, and a static configuration has networks and addresses
  abbrev pub IsIpam : Option IpamConfig → Type 0
  IsIpam none = Unit {0}
  IsIpam (some conf) =
      ((conf.type ≡ "Static") × IsStaticOption conf.static_config) ⊎ (conf.type ≡ "DHCP")

  abbrev pub IsMacvlan : Option SimpleMacvlanConfig → Type 0
  IsMacvlan none = Unit {0}
  IsMacvlan (some conf) =
      IsIpam conf.ipam × ((conf.mode ≡ "") ⊎ (any (λ m. m == conf.mode) (macvlan_modes lib) ≡ true))

  -- A name, and the configuration that belongs to the type.
  abbrev pub IsAdditional : AdditionalNetwork → Type 0
  IsAdditional an =
      (an.name ≢ "")
      × (((an.type ≡ "Raw") × (lib.is_json an.raw_config ≡ true))
          ⊎ ((an.type ≡ "SimpleMacvlan") × IsMacvlan an.macvlan))

  IsGateway-iff : (gateway : String) → (gateway_errors lib gateway ≡ []) ↔ IsGateway gateway
  IsGateway-iff gateway = ground (
    arith,
    error_if_iff (not (gateway == "") && not (lib.is_ip gateway)) (gateway_invalid gateway),
    ==_iff gateway "",
  )

  cidr_iff :
      (cidr : String) (e : AdditionalError)
      → (error_if (not (lib.is_cidr cidr)) e ≡ []) ↔ (lib.is_cidr cidr ≡ true)
  cidr_iff cidr e = ground (arith, error_if_iff (not (lib.is_cidr cidr)) e)

  addresses_iff :
      (addresses : List StaticAddress)
      → (address_errors lib addresses ≡ [])
        ↔ All (λ a. (lib.is_cidr a.address ≡ true) × IsGateway a.gateway) addresses
  unfolding address_errors
  addresses_iff [] = ground arith
  addresses_iff (a ∷ addresses) =
      let bad = error_if (not (lib.is_cidr a.address)) (address_invalid a.address) in
      let rest = address_errors lib addresses in
      ground (
        arith,
        append_nil_iff bad (gateway_errors lib a.gateway ++ rest),
        append_nil_iff (gateway_errors lib a.gateway) rest,
        cidr_iff a.address (address_invalid a.address),
        IsGateway-iff a.gateway,
        addresses_iff addresses,
      )

  routes_iff :
      (routes : List StaticRoute)
      → (route_errors lib routes ≡ [])
        ↔ All (λ r. (lib.is_cidr r.destination ≡ true) × IsGateway r.gateway) routes
  unfolding route_errors
  routes_iff [] = ground arith
  routes_iff (r ∷ routes) =
      let bad = error_if (not (lib.is_cidr r.destination)) (route_invalid r.destination) in
      let rest = route_errors lib routes in
      ground (
        arith,
        append_nil_iff bad (gateway_errors lib r.gateway ++ rest),
        append_nil_iff (gateway_errors lib r.gateway) rest,
        cidr_iff r.destination (route_invalid r.destination),
        IsGateway-iff r.gateway,
        routes_iff routes,
      )

  static_iff : (o : Option StaticIpamConfig) → (static_errors lib o ≡ []) ↔ IsStaticOption o
  unfolding validate_static_ipam_config
  static_iff none = ground arith
  static_iff (some conf) = ground (
    arith,
    append_nil_iff (address_errors lib conf.addresses) (route_errors lib conf.routes),
    addresses_iff conf.addresses,
    routes_iff conf.routes,
  )

  different : (s t u : String) → (t == u) ≡ false → s ≡ t → s ≢ u
  different s t u h k l = absurd (ground (arith, h, (==_iff t u).1 (sym k ∙ l)))

  IsIpam-iff : (o : Option IpamConfig) → (ipam_errors lib o ≡ []) ↔ IsIpam o
  unfolding validate_ipam_config
  IsIpam-iff none = ground arith
  IsIpam-iff (some conf) = elim (Bool-cases (conf.type == "Static")) [
    | inl h ↦
        let type = (==_iff conf.type "Static").0 h in
        let same : validate_ipam_config lib conf ≡ static_errors lib conf.static_config =
          rw h refl in
        ground (
          arith,
          same,
          static_iff conf.static_config,
          type,
          different conf.type "Static" "DHCP" refl type,
        )
    | inr h ↦
        let bad = not (conf.type == "DHCP") in
        let same : validate_ipam_config lib conf ≡ error_if bad (ipam_type_invalid conf.type) =
          rw h refl in
        ground (
          arith,
          same,
          error_if_iff bad (ipam_type_invalid conf.type),
          ==_iff conf.type "DHCP",
          ==_iff conf.type "Static",
          h,
        )
  ]

  IsMacvlan-iff : (o : Option SimpleMacvlanConfig) → (macvlan_errors lib o ≡ []) ↔ IsMacvlan o
  IsMacvlan-iff none = ground arith
  IsMacvlan-iff (some conf) =
      let modes = any (λ m. m == conf.mode) (macvlan_modes lib) in
      let bad = not (conf.mode == "") && not modes in
      ground (
        arith,
        append_nil_iff (ipam_errors lib conf.ipam) (error_if bad (mode_invalid conf.mode)),
        IsIpam-iff conf.ipam,
        error_if_iff bad (mode_invalid conf.mode),
        ==_iff conf.mode "",
      )

  named_iff : (name : String) → (error_if (name == "") name_empty ≡ []) ↔ (name ≢ "")
  named_iff name = ground (arith, error_if_iff (name == "") name_empty, ==_iff name "")

  network_iff :
      (an : AdditionalNetwork) → (validate_additional_network lib an ≡ []) ↔ IsAdditional an
  unfolding validate_raw validate_simple_macvlan_config
  network_iff an = elim (Bool-cases (an.type == "Raw")) [
    | inl h ↦
        let type = (==_iff an.type "Raw").0 h in
        let bad = not (lib.is_json an.raw_config) in
        let unnamed = error_if (an.name == "") name_empty in
        let same : validate_additional_network lib an
            ≡ unnamed ++ error_if bad (config_invalid an.raw_config) =
          rw h refl in
        ground (
          arith,
          same,
          append_nil_iff unnamed (error_if bad (config_invalid an.raw_config)),
          named_iff an.name,
          error_if_iff bad (config_invalid an.raw_config),
          type,
          different an.type "Raw" "SimpleMacvlan" refl type,
        )
    | inr h ↦ elim (Bool-cases (an.type == "SimpleMacvlan")) [
      | inl k ↦
          let type = (==_iff an.type "SimpleMacvlan").0 k in
          let unnamed = error_if (an.name == "") name_empty in
          let same : validate_additional_network lib an ≡ unnamed ++ macvlan_errors lib an.macvlan =
            rw h (rw k refl) in
          ground (
            arith,
            same,
            append_nil_iff unnamed (macvlan_errors lib an.macvlan),
            named_iff an.name,
            IsMacvlan-iff an.macvlan,
            type,
            different an.type "SimpleMacvlan" "Raw" refl type,
          )
      | inr k ↦
          let same : validate_additional_network lib an ≡ type_unknown an.type ∷ [] =
            rw h (rw k refl) in
          ground (arith, same, ==_iff an.type "Raw", ==_iff an.type "SimpleMacvlan", h, k)
    ]
  ]

  -- The additional networks are accepted exactly when each has a name, and is a raw one whose
  -- configuration parses, or a macvlan one whose mode, IPAM type, addresses, routes and gateways are valid.
  pub validate_additional_networks_iff :
      (networks : List AdditionalNetwork)
      → (validate_additional_networks lib networks ≡ []) ↔ All IsAdditional networks
  unfolding validate_additional_networks
  validate_additional_networks_iff [] = ground arith
  validate_additional_networks_iff (an ∷ networks) = ground (
    arith,
    append_nil_iff (validate_additional_network lib an) (validate_additional_networks lib networks),
    network_iff an,
    validate_additional_networks_iff networks,
  )
