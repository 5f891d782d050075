-- ===== src/Network/OvnConfig.antt =====
-- ovn_kubernetes.go: the configuration of ovn-kubernetes is validated, also its MTU in a network without
-- overlay. A number of type uint32 is below 2 ^ 32.
use cluster_network_operator.Prelude.{
  ℕ, ◌%◌, ◌^◌, String, Bool, not, ◌&&◌, ◌||◌, List, [], ◌∷◌, ◌++◌, Option, none, some, Outcome, ok,
  ◌>>=◌, ◌==◌, string_eq, nat_eq, bool_eq, option_eq, ltb, length, if◌then◌else◌,
}
use cluster_network_operator.Ovn.Ipsec.{get_ipsec_mode, full}
use cluster_network_operator.Network.Spec.{
  ClusterNetworkEntry, OvnKubernetesConfig, NetworkSpec, NetLibrary, Families, no_families, seen,
}
use cluster_network_operator.Network.Equal.{hybrid_overlay_config_eq}
use cluster_network_operator.Network.Pools.{error_if, differ, is_nil}
use cluster_network_operator.Network.NodeSubnets.{
  Panic, SubnetsError, validate_ovn_kubernetes_subnets,
}

abbrev pub min_mtu_ipv4 : ℕ
min_mtu_ipv4 = 576

abbrev pub min_mtu_ipv6 : ℕ
min_mtu_ipv6 = 1280

abbrev pub max_mtu : ℕ
max_mtu = 65536

-- the numbers of a uint32
abbrev pub uint32_mod : ℕ
uint32_mod = 2 ^ 32

abbrev pub no_overlay : String
no_overlay = "NoOverlay"

pub data OvnError : Type 0 where
  cluster_empty service_empty families_mismatch service_count : OvnError
  mtu_invalid geneve_port_invalid : ℕ → OvnError
  subnets : List SubnetsError → OvnError

-- the least MTU, by whether there are IPv6 networks
abbrev pub min_mtu : Bool → ℕ
min_mtu v6 = if v6 then min_mtu_ipv6 else min_mtu_ipv4

abbrev pub no_family : Families → Bool
no_family f = not f.ipv6 && not f.ipv4

abbrev pub outside : ℕ → ℕ → ℕ → Bool
outside least most n = ltb n least || ltb most n

-- the errors of a number that may be unset
abbrev pub range_errors : ℕ → ℕ → (ℕ → OvnError) → Option ℕ → List OvnError
range_errors least most e none = []
range_errors least most e (some n) = error_if (outside least most n) (e n)

module _ (net : NetLibrary) where
  -- the families of the texts
  unfoldable pub families_of : List String → Families → Families
  families_of [] f = f
  families_of (cidr ∷ cidrs) f = families_of cidrs (seen (net.is_ipv6_cidr cidr) f)

  unfoldable pub cluster_families : List ClusterNetworkEntry → Families → Families
  cluster_families [] f = f
  cluster_families (n ∷ cluster) f = cluster_families cluster (seen (net.is_ipv6_cidr n.cidr) f)

  abbrev pub config_errors : Bool → Option OvnKubernetesConfig → List OvnError
  config_errors v6 none = []
  config_errors v6 (some oc) =
      range_errors (min_mtu v6) max_mtu mtu_invalid oc.mtu
      ++ range_errors 1 65535 geneve_port_invalid oc.geneve_port

  unfoldable pub validate_ovn_kubernetes : NetworkSpec → Outcome Panic (List OvnError)
  unfolding families_of cluster_families
  validate_ovn_kubernetes conf =
      let cn = cluster_families conf.cluster_network no_families in
      let sn = families_of conf.service_network no_families in
      let count = length conf.service_network in
      do
        errors ← validate_ovn_kubernetes_subnets net conf
        ok (
            error_if (no_family cn) cluster_empty
            ++ (error_if (no_family sn) service_empty
                ++ (error_if (differ cn sn) families_mismatch
                    ++ (error_if (ltb 2 count || count == 2 && (not sn.ipv4 || not sn.ipv6))
                          service_count
                        ++ (config_errors cn.ipv6 conf.ovn
                            ++ error_if (not (is_nil errors)) (subnets errors))))))

-- getOVNEncapOverhead, of an ovn-kubernetes configuration: 46 more bytes if IPsec is full
unfoldable pub get_ovn_encap_overhead : OvnKubernetesConfig → ℕ
get_ovn_encap_overhead oc = if get_ipsec_mode oc.ipsec == full then 146 else 100

pub data MtuError : Type 0 where
  mtu_unset : MtuError
  mtu_too_large : ℕ → ℕ → MtuError

-- ValidateMTUForNoOverlay; the host's MTU is no negative number
abbrev pub no_overlay_error : Option ℕ → ℕ → Option MtuError
no_overlay_error none host_mtu = if host_mtu == 0 then some mtu_unset else none
no_overlay_error (some mtu) host_mtu =
    if host_mtu == 0
    then none
    else if ltb (host_mtu % uint32_mod) mtu
    then some (mtu_too_large mtu host_mtu)
    else none

unfoldable pub validate_mtu_for_no_overlay : NetworkSpec → ℕ → Option MtuError
validate_mtu_for_no_overlay conf host_mtu = elim conf.ovn [
  | none ↦ none
  | some oc ↦ if not (oc.transport == no_overlay) then none else no_overlay_error oc.mtu host_mtu
]
