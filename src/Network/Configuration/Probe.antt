-- ===== src/Network/Configuration/Probe.antt =====
-- When the MTU of a host is not needed.
use cluster_network_operator.Prelude.{
  ℕ, ◌≡◌, ◌≢◌, ◌⊎◌, refl, ap, inl, inr, Bool, true, false, ◌&&◌, Option, none, some, arith, ◌==◌,
  ==_iff, string_eq, nat_eq,
}
use cluster_network_operator.Network.Spec.{OvnKubernetesConfig, NetworkSpec, ovn_kubernetes}
use cluster_network_operator.Network.ClusterConfig.{mtu_of}
use cluster_network_operator.Network.OvnDefaults.{
  config_or_empty, or_default, or_chosen, chosen_mtu, previous_mtu, fill_fields, with_mtu,
  fill_ovn_kubernetes_defaults,
}
use cluster_network_operator.Network.Configuration.{lacks_mtu, needs_mtu, need_mtu_probe}

mtu_given : (mtu : Option ℕ) → (or_default 0 mtu == 0) ≡ false → mtu ≢ none
mtu_given none h = absurd (ground arith)
mtu_given (some mtu) h = λ e. ground (arith, e)

has_mtu : (o : Option OvnKubernetesConfig) → lacks_mtu o ≡ false → mtu_of o ≢ none
has_mtu none h = absurd (ground arith)
has_mtu (some oc) h = mtu_given oc.mtu h

typed_has :
    (c : NetworkSpec)
    → c.network_type ≡ ovn_kubernetes
    → needs_mtu (some c) ≡ false
    → mtu_of c.ovn ≢ none
unfolding needs_mtu
typed_has c typed h = has_mtu c.ovn (rw ((==_iff c.network_type ovn_kubernetes).1 typed) at h)

previous_has :
    (o : Option NetworkSpec)
    → ((p : NetworkSpec) → o ≡ some p → p.network_type ≡ ovn_kubernetes)
    → needs_mtu o ≡ false
    → previous_mtu o ≢ none
unfolding needs_mtu
previous_has none same h = absurd (ground arith)
previous_has (some p) same h = typed_has p (same p refl) h

own_mtu : (o : Option OvnKubernetesConfig) → mtu_of o ≢ none → (config_or_empty o).mtu ≢ none
own_mtu none h = absurd (h refl)
own_mtu (some oc) h = h

one_given :
    (sc : OvnKubernetesConfig) (own before : Option ℕ)
    → (own ≢ none) ⊎ (before ≢ none)
    → (mtu : ℕ) × ((default_mtu host_mtu : ℕ)
        → or_chosen own (chosen_mtu default_mtu sc before host_mtu) ≡ some mtu)
unfolding chosen_mtu
one_given sc (some mtu) before given = (mtu, λ d h. refl)
one_given sc none (some mtu) given = (mtu, λ d h. refl)
one_given sc none none (inl h) = absurd (h refl)
one_given sc none none (inr h) = absurd (h refl)

one_false : (a b : Bool) → a && b ≡ false → (b ≡ false) ⊎ (a ≡ false)
one_false true b h = inl h
one_false false b h = inr refl

either_given :
    (conf : NetworkSpec) (previous : Option NetworkSpec)
    → conf.network_type ≡ ovn_kubernetes
    → ((p : NetworkSpec) → previous ≡ some p → p.network_type ≡ ovn_kubernetes)
    → need_mtu_probe previous conf ≡ false
    → ((config_or_empty conf.ovn).mtu ≢ none) ⊎ (previous_mtu previous ≢ none)
unfolding need_mtu_probe
either_given conf previous typed same unneeded =
    elim (one_false (needs_mtu previous) (needs_mtu (some conf)) unneeded) [
      | inl h ↦ inl (own_mtu conf.ovn (typed_has conf typed h))
      | inr h ↦ inr (previous_has previous same h)
    ]

-- When the MTU needs no probe, no MTU of a host is used: the defaults of ovn-kubernetes are the same
-- whatever it is, and can be filled in. The previous configuration, if there is one, is of
-- ovn-kubernetes too.
pub need_mtu_probe-fill_ovn_kubernetes_defaults :
    (conf : NetworkSpec) (previous : Option NetworkSpec)
    → conf.network_type ≡ ovn_kubernetes
    → ((p : NetworkSpec) → previous ≡ some p → p.network_type ≡ ovn_kubernetes)
    → need_mtu_probe previous conf ≡ false
    → (next : NetworkSpec) × ((default_mtu host_mtu : ℕ)
        → fill_ovn_kubernetes_defaults default_mtu conf previous host_mtu ≡ some next)
unfolding fill_ovn_kubernetes_defaults
need_mtu_probe-fill_ovn_kubernetes_defaults conf previous typed same unneeded =
    let sc = config_or_empty conf.ovn in
    let (mtu, chosen) =
      one_given sc sc.mtu (previous_mtu previous)
        (either_given conf previous typed same unneeded) in
    (
      record conf { ovn = some (fill_fields sc mtu) },
      λ default_mtu host_mtu. ap (with_mtu conf sc) (chosen default_mtu host_mtu),
    )
