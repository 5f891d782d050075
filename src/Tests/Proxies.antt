-- ===== src/Tests/Proxies.antt =====
-- Proxies, additional networks and the MTU of a host.
use cluster_network_operator.Prelude.{
  ℕ, ◌≤◌, ◌<◌, String, ◌≡◌, refl, inl, true, false, List, [], ◌∷◌, All, Option, none, some,
  string_eq, nat_eq, if◌then◌else◌, ◌==◌, ==_iff, lookup, ok, fail, arith,
}
use cluster_network_operator.Network.Spec.{AdditionalNetwork}
use cluster_network_operator.Network.ProxyArguments.{Arguments, ArgumentError, ArgumentLibrary}
use cluster_network_operator.Network.ProxyConfiguration.{generate_kube_proxy_configuration}
use cluster_network_operator.Network.ProxyConfiguration.Unused.{
  generate_kube_proxy_configuration-unused,
}
use cluster_network_operator.Network.Additional.{
  AdditionalLibrary, validate_additional_networks, canonicalize_network,
}
use cluster_network_operator.Network.Additional.Valid.{
  IsAdditional, validate_additional_networks_iff,
}
use cluster_network_operator.Network.Additional.Capitals.{corrected, canonicalize_network-twice}
use cluster_network_operator.Network.HostMtu.{Route, get_default_mtu}
use cluster_network_operator.Network.HostMtu.Least.{IsIn, default_links, get_default_mtu-least}
use cluster_network_operator.NoProxy.{
  InstallConfig, Infrastructure, NetworkStatus, TextLibrary, elem, all_platform_values, merged_set,
}
use cluster_network_operator.NoProxy.Contents.{IsDistinct, no_proxy_entries, merged_set-elem}

abbrev texts : TextLibrary
texts = record {
  parse_install_config = λ s. none;
  is_cidr = λ s. true;
  hostname = λ url. some "api-int.example.org";
  split_commas = λ s. "example.org" ∷ "" ∷ "localhost" ∷ [];
}

abbrev install : InstallConfig
install = record { machine_cidr = ""; machine_network = "10.0.0.0/16" ∷ "0.0.0.0/0" ∷ [] }

abbrev infra : Infrastructure
infra = record {
  internal_url = "https://api-int.example.org:6443";
  platform = some (record { type = "OpenStack"; aws_region = none; azure = none });
}

abbrev networks : NetworkStatus
networks = record { service_network = "172.30.0.0/16" ∷ []; cluster_network = "10.128.0.0/14" ∷ [] }

abbrev merged : List String
merged =
    "example.org" ∷ "10.128.0.0/14" ∷ "169.254.169.254" ∷ "172.30.0.0/16" ∷ "api-int.example.org"
    ∷ "10.0.0.0/16" ∷ ".cluster.local" ∷ ".svc" ∷ "localhost" ∷ "127.0.0.1" ∷ []

merges : merged_set texts false "" install infra networks "example.org,,localhost" ≡ ok merged
unfolding merged_set
merges = refl

merged_set-elem_example :
    (values : List String) × (all_platform_values infra.platform ≡ ok values)
    × IsDistinct merged
    × ((x : String)
        → elem x merged
          ≡ elem x (
              no_proxy_entries texts false "" install infra networks "example.org,,localhost"
                values))
merged_set-elem_example =
    merged_set-elem texts false "" install infra networks "example.org,,localhost" merged merges

abbrev arguments : ArgumentLibrary
arguments = record {
  is_ip = λ s. true;
  is_cidr = λ s. true;
  is_uint16 = λ s. true;
  is_port_range = λ s. true;
  join_host_port = λ host port. host;
  split_commas = λ s. s ∷ [];
  parse_int32 = λ s. none;
  parse_bool = λ s. none;
  parse_duration = λ s. none;
  set_gates = λ s gates. (gates, true);
}

abbrev given : Arguments
given = ("proxy-mode", "iptables" ∷ []) ∷ ("cleanup", "true" ∷ []) ∷ []

found : lookup "cleanup" given ≡ some ("true" ∷ [])
unfolding lookup
found = refl

generate_kube_proxy_configuration-unused_example :
    (errors : List ArgumentError) × (generate_kube_proxy_configuration arguments given
      ≡ fail errors)
generate_kube_proxy_configuration-unused_example =
    generate_kube_proxy_configuration-unused arguments "cleanup" "true" [] given
      (
        (refl, (refl, (refl, (refl, (refl, (refl, (refl, (refl, tt)))))))),
        (refl, (refl, (refl, (refl, (refl, tt))))),
        (refl, (refl, (refl, (refl, tt)))),
        (refl, (refl, (refl, (refl, (refl, (refl, (refl, (refl, tt)))))))),
        (refl, (refl, tt)),
        (refl, (refl, (refl, (refl, (refl, tt))))),
        (refl, (refl, (refl, (refl, (refl, (refl, (refl, tt))))))),
      )
      found

abbrev macvlan : String → AdditionalNetwork
macvlan type = record {
  type = type;
  name = "extra";
  raw_config = "";
  macvlan = some (record { mode = "bridge"; ipam = none });
}

-- the lower case of the three words of the example
abbrev lower : String → String
lower s = elim (s == "SimpleMacvlan") [
  | true ↦ "simplemacvlan"
  | false ↦ elim (s == "Bridge") [ true ↦ "bridge" | false ↦ s ]
]

canonicalize_network-twice_example :
    (canonicalize_network lower (macvlan "simplemacvlan") ≡ macvlan "SimpleMacvlan")
    × (canonicalize_network lower (macvlan "SimpleMacvlan")
        ≡ corrected lower (macvlan "simplemacvlan"))
    × (canonicalize_network lower (corrected lower (macvlan "simplemacvlan"))
        ≡ corrected lower (macvlan "simplemacvlan"))
canonicalize_network-twice_example =
    canonicalize_network-twice lower (macvlan "simplemacvlan") refl
      (λ e. let same : false ≡ true = (==_iff "simplemacvlan" "Raw").1 e in ground (arith, same))
      refl

abbrev parsers : AdditionalLibrary
parsers = record { is_json = λ s. true; is_cidr = λ s. true; is_ip = λ s. true }

abbrev extra : AdditionalNetwork
extra = record (macvlan "SimpleMacvlan") { macvlan = none }

validates : validate_additional_networks parsers (extra ∷ []) ≡ []
unfolding validate_additional_networks
validates = refl

validate_additional_networks_iff_example : All (IsAdditional parsers) (extra ∷ [])
validate_additional_networks_iff_example =
    (validate_additional_networks_iff parsers (extra ∷ [])).0 validates

-- two default routes, by a link of 1500 bytes and by two links of which one has 1450
abbrev routes : List Route
routes =
    record { is_default = true; link_index = 2; multi_path = [] }
    ∷ record { is_default = true; link_index = 0; multi_path = 2 ∷ 3 ∷ [] }
    ∷ []

abbrev links : ℕ → Option ℕ
links i = if i == 3 then some 1450 else some 1500

determines : get_default_mtu links (some routes) ≡ ok 1450
unfolding get_default_mtu
determines = refl

get_default_mtu-least_example :
    (0 < 1450)
    × (1450 ≤ 65536)
    × ((i : ℕ) × IsIn i (default_links routes) × (links i ≡ some 1450))
    × (1450 ≤ 1500)
get_default_mtu-least_example =
    get_default_mtu-least links routes 1450 2 1500 determines (inl refl) refl (omega arith)
