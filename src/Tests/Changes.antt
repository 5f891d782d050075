-- ===== src/Tests/Changes.antt =====
-- Changes of a configuration, and its defaults.
use cluster_network_operator.Prelude.{
  ℕ, String, ◌≡◌, refl, sym, ap, Bool, false, [], ◌∷◌, Option, none, some, string_eq, any, lookup,
  stable_sort,
}
use native.Mathlib.Decide.{ℕ_discrete}
use cluster_network_operator.Ovn.Ipsec.{get_ipsec_mode}
use cluster_network_operator.Network.Subnets.{Address}
use cluster_network_operator.Network.Subnets.Overlap.{Contains, Contains-ip}
use cluster_network_operator.Network.Spec.{NetworkSpec, MtuMigration}
use cluster_network_operator.Network.Equal.{
  NetworkSpec-discrete, ClusterNetworkEntry-discrete, Address-discrete,
  HybridOverlayConfig-discrete,
}
use cluster_network_operator.Network.OvnDefaults.{
  empty_config, fill_fields, fill_ovn_kubernetes_defaults,
}
use cluster_network_operator.Network.OvnDefaults.Filled.{fill_ovn_kubernetes_defaults-panics_iff}
use cluster_network_operator.Network.OvnChanges.{is_ovn_kubernetes_change_safe, values_of}
use cluster_network_operator.Network.OvnChanges.Kept.{
  Migrates, is_ovn_kubernetes_change_safe-Migrates,
  fill_ovn_kubernetes_defaults-is_ovn_kubernetes_change_safe,
}
use cluster_network_operator.Network.NetworkChanges.{unsorted, compare_nets, is_network_change_safe}
use cluster_network_operator.Network.NetworkChanges.Grown.{Grows-keeps}
use cluster_network_operator.Network.NetworkChanges.Allowed.{
  IsAllowed, is_network_change_safe-IsAllowed,
}
use cluster_network_operator.Network.KubeProxy.{fill_kube_proxy_defaults}
use cluster_network_operator.Network.Configuration.{need_mtu_probe, fill_defaults, is_change_safe}
use cluster_network_operator.Network.Configuration.Filled.{fill_defaults_idem}
use cluster_network_operator.Network.Configuration.Probe.{
  need_mtu_probe-fill_ovn_kubernetes_defaults,
}
use cluster_network_operator.Network.Configuration.Safe.{IsSafe, is_change_safe-IsSafe}
use cluster_network_operator.Tests.Networks.{table, ip_of, net, entry, ovn_config, spec, cluster}

abbrev unset : NetworkSpec
unset = record (spec cluster) { ovn = none }

fill_ovn_kubernetes_defaults-panics_iff_example : fill_ovn_kubernetes_defaults 0 unset none 0 ≡ none
fill_ovn_kubernetes_defaults-panics_iff_example =
    (fill_ovn_kubernetes_defaults-panics_iff 0 unset none 0).1 (refl, refl, refl, refl)

abbrev filled : NetworkSpec
filled = record (spec cluster) { ovn = some (fill_fields empty_config 1400) }

fills :
    (host_mtu : ℕ)
    → fill_ovn_kubernetes_defaults 0 unset (some (spec cluster)) host_mtu ≡ some filled
unfolding fill_ovn_kubernetes_defaults
fills host_mtu = refl

fill_ovn_kubernetes_defaults-is_ovn_kubernetes_change_safe_example :
    is_ovn_kubernetes_change_safe net (spec cluster) filled ≡ some []
fill_ovn_kubernetes_defaults-is_ovn_kubernetes_change_safe_example =
    fill_ovn_kubernetes_defaults-is_ovn_kubernetes_change_safe net 0 unset (spec cluster) filled
      9000 1400 6081 ovn_config refl refl refl refl refl tt refl (fills 9000)

abbrev type_of : Option NetworkSpec → String
type_of none = "OVNKubernetes"
type_of (some p) = p.network_type

need_mtu_probe-fill_ovn_kubernetes_defaults_example :
    (next : NetworkSpec) × ((default_mtu host_mtu : ℕ)
      → fill_ovn_kubernetes_defaults default_mtu unset (some (spec cluster)) host_mtu ≡ some next)
unfolding need_mtu_probe
need_mtu_probe-fill_ovn_kubernetes_defaults_example =
    need_mtu_probe-fill_ovn_kubernetes_defaults unset (some (spec cluster)) refl
      (λ p e. ap (λ (o : Option NetworkSpec). type_of o) (sym e)) refl

abbrev migrating : NetworkSpec
migrating = record (spec cluster) {
  migration = some (record {
    mtu = some (record {
      network = some (record { to = some 1300; from = some 1400 });
      machine = some (record { to = some 1500; from = none });
    });
    network_type = "";
    features = false;
  });
}

abbrev mtus : MtuMigration
mtus = record {
  network = some (record { to = some 1300; from = some 1400 });
  machine = some (record { to = some 1500; from = none });
}

migrates : is_ovn_kubernetes_change_safe net (spec cluster) migrating ≡ some []
unfolding is_ovn_kubernetes_change_safe lookup get_ipsec_mode
migrates = refl

is_ovn_kubernetes_change_safe-Migrates_example :
    (from : ℕ) × (to : ℕ) × (machine : ℕ) × (values_of mtus ≡ some (from, to, machine))
    × Migrates
        (any (λ n. net.is_ipv6_cidr n.cidr) cluster)
        none
        ovn_config
        ovn_config
        from
        to
        machine
is_ovn_kubernetes_change_safe-Migrates_example =
    is_ovn_kubernetes_change_safe-Migrates net (spec cluster) migrating ovn_config ovn_config refl
      refl mtus refl migrates

abbrev written : String → Option Address
written s = ip_of (lookup s table)

grows :
    compare_nets net written
      (entry "10.128.0.0/14" 23)
      (entry "10.128.0.0/13" 23)
      (net.parse_cidr "10.128.0.0/14")
      (net.parse_cidr "10.128.0.0/13")
    ≡ none
unfolding lookup Address-discrete ℕ_discrete
grows = refl

Grows-keeps_example :
    Contains
      (record { ip = record { is_ipv6 = false; value = 176160768 }; ones = 13 })
      (record { is_ipv6 = false; value = 176160770 })
unfolding lookup
Grows-keeps_example =
    Grows-keeps net written (λ t s h. (s.ip, ap ip_of h, Contains-ip s)) (entry "10.128.0.0/14" 23)
      (entry "10.128.0.0/13" 23)
      (record { ip = record { is_ipv6 = false; value = 176160768 }; ones = 14 })
      (record { ip = record { is_ipv6 = false; value = 176160768 }; ones = 13 }) refl refl grows
      (record { is_ipv6 = false; value = 176160770 }) (refl, refl)

abbrev larger : NetworkSpec
larger = spec (entry "10.128.0.0/13" 23 ∷ [])

abbrev text_before : String → String → Bool
text_before s t = false

allowed :
    is_network_change_safe net written text_before "AWS" (spec cluster) larger
    ≡ some (unsorted (spec cluster) larger none)
unfolding is_network_change_safe lookup ClusterNetworkEntry-discrete Address-discrete ℕ_discrete
    stable_sort
allowed = refl

is_network_change_safe-IsAllowed_example :
    IsAllowed net written text_before "AWS" (spec cluster) larger
is_network_change_safe-IsAllowed_example =
    is_network_change_safe-IsAllowed net written text_before "AWS" (spec cluster) larger
      (unsorted (spec cluster) larger none) refl allowed refl

safe : is_change_safe net written text_before "AWS" (some (spec cluster)) larger ≡ some ([], larger)
unfolding is_change_safe is_network_change_safe lookup NetworkSpec-discrete
    ClusterNetworkEntry-discrete Address-discrete ℕ_discrete stable_sort
    is_ovn_kubernetes_change_safe HybridOverlayConfig-discrete
safe = refl

is_change_safe-IsSafe_example : IsSafe net written text_before "AWS" (spec cluster) larger larger
is_change_safe-IsSafe_example =
    is_change_safe-IsSafe net written text_before "AWS" (spec cluster) larger larger refl safe

abbrev complete : NetworkSpec
complete = record filled {
  disable_multi_network = some false;
  use_multi_network_policy = some false;
  deploy_kube_proxy = some false;
  log_level = "Normal";
}

completes : fill_defaults net 0 unset (some (spec cluster)) 9000 ≡ some complete
unfolding fill_defaults fill_ovn_kubernetes_defaults fill_kube_proxy_defaults
completes = refl

fill_defaults_idem_example : fill_defaults net 0 complete none 0 ≡ some complete
fill_defaults_idem_example =
    fill_defaults_idem net 0 0 unset complete (some (spec cluster)) none 9000 0 completes
