-- ===== src/Network/ProxyConfiguration/Untouched.antt =====
-- What the getters do to the arguments that they are not for.
use cluster_network_operator.Prelude.{
  String, ◌≡◌, refl, ◌∙◌, inl, inr, false, Bool-cases, List, [], ◌∷◌, All, Option, none, some, ◌==◌,
  string_eq, lookup, remove, lookup-remove, arith,
}
use cluster_network_operator.Network.Pools.{is_nil}
use cluster_network_operator.Network.ProxyArguments.{
  Arguments, ArgumentError, invalid, KpcArgs, Getter, ◌>>=◌, return, has_value, get, or_error,
  parsed, ArgumentLibrary, joined_address, get_address_and_port, values_of_gates, get_feature_gates,
}
use cluster_network_operator.Network.ProxyConfiguration.{
  address_config, iptables_config, nftables_config, ipvs_config, conntrack_config, detect_config,
  configuration,
}

-- None of the keys is the key.
abbrev pub IsNoneOf : String → List String → Type 0
IsNoneOf k known = All (λ key. (key == k) ≡ false) known

abbrev pub address_keys : List String
address_keys =
    "feature-gates" ∷ "bind-address" ∷ "healthz-bind-address" ∷ "healthz-port"
    ∷ "metrics-bind-address" ∷ "metrics-port" ∷ "enable-profiling" ∷ "cluster-cidr" ∷ []

abbrev pub iptables_keys : List String
iptables_keys =
    "iptables-masquerade-bit" ∷ "masquerade-all" ∷ "iptables-localhost-nodeports"
    ∷ "iptables-sync-period" ∷ "iptables-min-sync-period" ∷ []

abbrev pub nftables_keys : List String
nftables_keys =
    "nftables-masquerade-bit" ∷ "nftables-masquerade-all" ∷ "nftables-sync-period"
    ∷ "nftables-min-sync-period" ∷ []

abbrev pub ipvs_keys : List String
ipvs_keys =
    "ipvs-sync-period" ∷ "ipvs-min-sync-period" ∷ "ipvs-scheduler" ∷ "ipvs-exclude-cidrs"
    ∷ "ipvs-strict-arp" ∷ "ipvs-tcp-timeout" ∷ "ipvs-tcp-fin-timeout" ∷ "ipvs-udp-timeout" ∷ []

abbrev pub other_keys : List String
other_keys = "proxy-mode" ∷ "proxy-port-range" ∷ []

abbrev pub conntrack_keys : List String
conntrack_keys =
    "conntrack-max-per-core" ∷ "conntrack-min" ∷ "conntrack-tcp-timeout-established"
    ∷ "conntrack-tcp-timeout-close-wait" ∷ "conntrack-tcp-be-liberal" ∷ []

abbrev pub detect_keys : List String
detect_keys =
    "config-sync-period" ∷ "nodeport-addresses" ∷ "node-port-addresses"
    ∷ "show-hidden-metrics-for-version" ∷ "detect-local-mode" ∷ "pod-bridge-interface"
    ∷ "pod-interface-name-prefix" ∷ []

-- The getter leaves the values of the key as they are.
unfoldable pub Untouched {ℓ} : {A : Type ℓ} → String → Getter A → Type 0
Untouched k m = (s : KpcArgs) → lookup k (m s).1.args ≡ lookup k s.args

module _ (k : String) where
  Untouched-bind {ℓ κ} :
      {A : Type ℓ} {B : Type κ} (m : Getter A) (f : A → Getter B)
      → Untouched k m
      → ((a : A) → Untouched k (f a))
      → Untouched k (m >>= f)
  unfolding Untouched ◌>>=◌
  Untouched-bind m f first rest s = rest (m s).0 (m s).1 ∙ first s

  Untouched-return {ℓ} : {A : Type ℓ} (a : A) → Untouched k (return a)
  unfolding Untouched return
  Untouched-return a s = refl

  removed :
      (key : String) (args : Arguments)
      → (key == k) ≡ false
      → lookup k (remove key args) ≡ lookup k args
  removed key args other = lookup-remove key k args ∙ rw other refl

  Untouched-get : (key : String) → (key == k) ≡ false → Untouched k (get key)
  unfolding Untouched get
  Untouched-get key other s = elim (Bool-cases (has_value (lookup key s.args))) [
    | inl h ↦ rw h (removed key s.args other)
    | inr h ↦ rw h refl
  ]

  Untouched-or_error {ℓ} :
      {A : Type ℓ} (unset : A) (e : ArgumentError) (o : Option A) → Untouched k (or_error unset e o)
  unfolding Untouched
  Untouched-or_error unset e none s = refl
  Untouched-or_error unset e (some a) s = refl

  Untouched-parsed {ℓ} :
      {A : Type ℓ} (unset : A) (parse : String → Option A) (key : String)
      → (key == k) ≡ false
      → Untouched k (parsed unset parse key)
  unfolding Untouched parsed
  Untouched-parsed unset parse key other s =
      let value = (get key s).0 in
      let s' = (get key s).1 in
      elim (Bool-cases (value == "")) [
        | inl h ↦ rw h (Untouched-get key other s)
        | inr h ↦ rw h (
            Untouched-or_error unset (invalid key value) (parse value) s'
            ∙ Untouched-get key other s)
      ]

ruleset untouched_rules = (Untouched-bind, Untouched-return, Untouched-parsed, Untouched-get)

module _ (k : String) (lib : ArgumentLibrary) where
  gates-Untouched : (key : String) → (key == k) ≡ false → Untouched k (get_feature_gates lib key)
  unfolding Untouched get_feature_gates
  gates-Untouched key other s =
      elim (Bool-cases (is_nil (values_of_gates lib (lookup key s.args)))) [
        | inl h ↦ rw h refl
        | inr h ↦ rw h (removed k key s.args other)
      ]

  joined-Untouched :
      (address_key port_key default address port : String)
      → Untouched k (joined_address lib address_key port_key default address port)
  unfolding Untouched
  joined-Untouched address_key port_key default address port s = ground arith

  port-Untouched :
      (address_key port_key default : String)
      → (address_key == k) ≡ false
      → (port_key == k) ≡ false
      → Untouched k (get_address_and_port lib address_key port_key default)
  unfolding get_address_and_port
  port-Untouched address_key port_key default a b = search (untouched_rules, joined-Untouched)

  address-Untouched : IsNoneOf k address_keys → Untouched k (address_config lib)
  unfolding address_config
  address-Untouched (a, (b, (c, (d, (e, (f, (g, (h, _)))))))) =
      search (untouched_rules, gates-Untouched, port-Untouched) depth 16

  iptables-Untouched : IsNoneOf k iptables_keys → Untouched k (iptables_config lib)
  unfolding iptables_config
  iptables-Untouched (a, (b, (c, (d, (e, _))))) = search untouched_rules depth 16

  nftables-Untouched : IsNoneOf k nftables_keys → Untouched k (nftables_config lib)
  unfolding nftables_config
  nftables-Untouched (a, (b, (c, (d, _)))) = search untouched_rules depth 16

  ipvs-Untouched : IsNoneOf k ipvs_keys → Untouched k (ipvs_config lib)
  unfolding ipvs_config
  ipvs-Untouched (a, (b, (c, (d, (e, (f, (g, (h, _)))))))) = search untouched_rules depth 20

  conntrack-Untouched : IsNoneOf k conntrack_keys → Untouched k (conntrack_config lib)
  unfolding conntrack_config
  conntrack-Untouched (a, (b, (c, (d, (e, _))))) = search untouched_rules depth 16

  detect-Untouched : IsNoneOf k detect_keys → Untouched k (detect_config lib)
  unfolding detect_config
  detect-Untouched (a, (b, (c, (d, (e, (f, (g, _))))))) = search untouched_rules depth 20

-- The key is none of those that the configuration is made of.
abbrev pub IsUnknown : String → Type 0
IsUnknown k =
    IsNoneOf k address_keys
    × IsNoneOf k iptables_keys
    × IsNoneOf k nftables_keys
    × IsNoneOf k ipvs_keys
    × IsNoneOf k other_keys
    × IsNoneOf k conntrack_keys
    × IsNoneOf k detect_keys

pub configuration-Untouched :
    (k : String) (lib : ArgumentLibrary) → IsUnknown k → Untouched k (configuration lib)
unfolding configuration
configuration-Untouched k lib
      (address, iptables, nftables, ipvs, (mode, (range, _)), conntrack, detect) =
    search
      (
        untouched_rules, address-Untouched, iptables-Untouched, nftables-Untouched, ipvs-Untouched,
        conntrack-Untouched, detect-Untouched,
      )
      depth 24
