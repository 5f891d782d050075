-- ===== src/Tests/Addresses.antt =====
-- VIPs of a cluster, with a table in place of the address libraries.
use cluster_network_operator.Prelude.{
  ok, String, ◌≡◌, ◌⊎◌, refl, true, false, Bool, List, [], ◌∷◌, some, Option, string_eq, head?,
}
use cluster_network_operator.Infrastructure.SpecStatus.{
  AddressLibrary, VipSpec, VipStatus, synchronize_fields,
}
use cluster_network_operator.Infrastructure.SpecStatus.Synchronized.{
  InStep, synchronize_fields-InStep,
}

abbrev v4 : String
v4 = "192.168.111.5"

abbrev v4_ingress : String
v4_ingress = "192.168.111.4"

abbrev dual : List String → Option Bool
dual (a ∷ b ∷ []) = some true
dual _ = some false

-- every address is in the one network
abbrev addresses : AddressLibrary
addresses = record {
  Addr = String;
  Prefix = Bool;
  is_dual_stack = dual;
  parse_addr = λ a. some a;
  parse_prefix = λ n. some true;
  contains = λ n a. n;
}

abbrev wanted : VipSpec
wanted = record {
  api_vips = v4 ∷ [];
  ingress_vips = v4_ingress ∷ [];
  machine_networks = "192.168.111.0/24" ∷ [];
}

abbrev current : VipStatus
current = record { api_vips = v4 ∷ []; ingress_vips = v4_ingress ∷ []; machine_networks = [] }

abbrev reached : VipStatus
reached = record current { machine_networks = "192.168.111.0/24" ∷ [] }

synchronizes : synchronize_fields addresses wanted current false ≡ ok (wanted, reached)
unfolding synchronize_fields
synchronizes = refl

synchronize_fields-InStep_example :
    InStep (v4 ∷ []) (v4 ∷ []) (v4 ∷ []) (v4 ∷ [])
    × InStep (v4_ingress ∷ []) (v4_ingress ∷ []) (v4_ingress ∷ []) (v4_ingress ∷ [])
    × (reached.machine_networks ≡ wanted.machine_networks)
    × ((current.machine_networks ≡ [])
        ⊎ (head? reached.machine_networks ≡ head? current.machine_networks))
synchronize_fields-InStep_example =
    synchronize_fields-InStep addresses wanted current false wanted reached synchronizes
