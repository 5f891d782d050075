-- ===== src/Network/OvnChanges.antt =====
-- ovn_kubernetes.go: which changes of the configuration of ovn-kubernetes are allowed. `none` is a
-- panic, on a nil pointer.
pub mod Kept
use cluster_network_operator.Prelude.{
  ℕ, ◌+◌, ◌-◌, ◌%◌, ◌^◌, String, Bool, true, false, not, ◌&&◌, ◌||◌, List, [], ◌∷◌, ◌++◌, Option,
  none, some, Outcome, ok, fail, ◌>>=◌, ◌==◌, string_eq, nat_eq, bool_eq, option_eq, ltb, length,
  any, if◌then◌else◌,
}
use cluster_network_operator.Ovn.Ipsec.{get_ipsec_mode, full}
use cluster_network_operator.Network.Spec.{
  ClusterNetworkEntry, HybridOverlayConfig, PolicyAuditConfig, OvnKubernetesConfig, MtuValues,
  MtuMigration, Migration, NetworkSpec, NetLibrary, Families, no_families, seen,
}
use cluster_network_operator.Network.Equal.{hybrid_overlay_config_eq}
use cluster_network_operator.Network.Pools.{error_if, differ, is_nil}
use cluster_network_operator.Network.NodeSubnets.{
  Panic, SubnetsError, validate_ovn_kubernetes_subnets,
}
use cluster_network_operator.Network.OvnConfig.{
  min_mtu, max_mtu, uint32_mod, outside, get_ovn_encap_overhead,
}

pub data ChangeError : Type 0 where
  migration_incomplete : ChangeError
  migration_from : Option ℕ → Option ℕ → ChangeError
  migration_to machine_to machine_too_small : ℕ → ChangeError
  mtu_changed geneve_port_changed hybrid_overlay_changed : ChangeError
  type_changed disable_multi_network_changed : ChangeError

abbrev pub network_values : Option Migration → Option MtuValues
network_values none = none
network_values (some m) = elim m.mtu [ none ↦ none | some v ↦ v.network ]

abbrev pub migration_mtu : Option Migration → Option MtuMigration
migration_mtu none = none
migration_mtu (some m) = m.mtu

-- whether Network.From is compared with the MTU that is applied: only when it changes
abbrev pub check_prev_mtu : Option MtuValues → Option ℕ → Bool
check_prev_mtu none from = true
check_prev_mtu (some before) from = not (before.from == from)

-- the checks of a complete MTU migration, from `from` to `to` and to `machine` for the machines
unfoldable pub migration_errors :
    Bool
    → Option MtuValues
    → OvnKubernetesConfig
    → OvnKubernetesConfig
    → (from to machine : ℕ) → Option (List ChangeError)
unfolding get_ovn_encap_overhead
migration_errors v6 before pn nn from to machine =
    let wrong = check_prev_mtu before (some from) && not (some from == pn.mtu) in
    let needed = (to + get_ovn_encap_overhead nn) % uint32_mod in
    if wrong && pn.mtu == none
    then none
    else some (
        error_if wrong (migration_from (some from) pn.mtu)
        ++ (error_if (outside (min_mtu v6) max_mtu to) (migration_to to)
            ++ (error_if (outside (min_mtu v6) max_mtu machine) (machine_to machine)
                ++ error_if (ltb machine needed) (machine_too_small machine))))

abbrev pub values_of : MtuMigration → Option (ℕ × ℕ × ℕ)
values_of m = elim m.network [
  | none ↦ none
  | some n ↦ elim m.machine [
    | none ↦ none
    | some host ↦ elim n.from [
      | none ↦ none
      | some from ↦ elim n.to [
        | none ↦ none
        | some to ↦ elim host.to [ none ↦ none | some machine ↦ some (from, to, machine) ]
      ]
    ]
  ]
]

-- the errors of an MTU migration by its numbers, if all are given
abbrev pub by_values :
    Bool
    → Option MtuValues
    → OvnKubernetesConfig
    → OvnKubernetesConfig
    → Option (ℕ × ℕ × ℕ)
    → Option (List ChangeError)
by_values v6 before pn nn none = some (migration_incomplete ∷ [])
by_values v6 before pn nn (some (from, to, machine)) =
    migration_errors v6 before pn nn from to machine

abbrev pub hybrid_overlay_errors :
    Option HybridOverlayConfig → Option HybridOverlayConfig → List ChangeError
hybrid_overlay_errors none next = []
hybrid_overlay_errors (some prev) none = []
hybrid_overlay_errors (some prev) (some next) = error_if (not (prev == next)) hybrid_overlay_changed

-- the errors that follow those of the MTU
abbrev pub other_change_errors : OvnKubernetesConfig → OvnKubernetesConfig → List ChangeError
other_change_errors pn nn =
    error_if (not (pn.geneve_port == nn.geneve_port)) geneve_port_changed
    ++ hybrid_overlay_errors pn.hybrid_overlay nn.hybrid_overlay

abbrev pub then_others :
    OvnKubernetesConfig
    → OvnKubernetesConfig
    → Option (List ChangeError)
    → Option (List ChangeError)
then_others pn nn none = none
then_others pn nn (some errors) = some (errors ++ other_change_errors pn nn)

module _ (net : NetLibrary) where
  unfoldable pub mtu_change_errors :
      NetworkSpec
      → NetworkSpec
      → OvnKubernetesConfig
      → OvnKubernetesConfig
      → Option (List ChangeError)
  unfolding migration_errors
  mtu_change_errors prev next pn nn = elim (migration_mtu next.migration) [
    | none ↦ some (error_if (not (pn.mtu == nn.mtu)) mtu_changed)
    | some m ↦
        by_values (any (λ n. net.is_ipv6_cidr n.cidr) next.cluster_network)
          (network_values prev.migration) pn nn (values_of m)
  ]

  unfoldable pub is_ovn_kubernetes_change_safe :
      NetworkSpec → NetworkSpec → Option (List ChangeError)
  unfolding mtu_change_errors
  is_ovn_kubernetes_change_safe prev next = elim prev.ovn [
    | none ↦ none
    | some pn ↦ elim next.ovn [
      | none ↦ none
      | some nn ↦ then_others pn nn (mtu_change_errors prev next pn nn)
    ]
  ]
