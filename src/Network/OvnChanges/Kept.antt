-- ===== src/Network/OvnChanges/Kept.antt =====
-- Which changes of ovn-kubernetes are allowed, also when the defaults are filled in.
use cluster_network_operator.Prelude.{
  ℕ, ◌+◌, ◌%◌, ◌≤◌, ◌≡◌, ◌↔◌, ◌⊎◌, refl, sym, ap, ◌∙◌, Option, none, some, Bool-cases, inl, inr,
  Bool, true, false, not, List, [], ◌++◌, append_nil_iff, ◌==◌, ==_iff, string_eq, nat_eq,
  option_eq, arith, ltb, if◌then◌else◌, ◌&&◌, any,
}
use cluster_network_operator.Network.Spec.{
  HybridOverlayConfig, OvnKubernetesConfig, MtuValues, MtuMigration, NetworkSpec, NetLibrary,
}
use cluster_network_operator.Network.Equal.{hybrid_overlay_config_eq}
use cluster_network_operator.Network.Pools.{error_if}
use cluster_network_operator.Network.OvnConfig.{
  uint32_mod, outside, min_mtu, max_mtu, get_ovn_encap_overhead,
}
use cluster_network_operator.Network.OvnDefaults.{
  config_or_empty, or_default, previous_mtu, filled_mtu, chosen_mtu, fill_fields,
  fill_ovn_kubernetes_defaults,
}
use cluster_network_operator.Network.OvnDefaults.Filled.{filled_fields}
use cluster_network_operator.Network.OvnChanges.{
  ChangeError, migration_from, migration_to, machine_to, machine_too_small, migration_mtu,
  network_values, check_prev_mtu, migration_errors, by_values, values_of, hybrid_overlay_errors,
  mtu_change_errors, other_change_errors, then_others, is_ovn_kubernetes_change_safe, mtu_changed,
  geneve_port_changed, hybrid_overlay_changed,
}

-- A hybrid overlay that both configurations have is the same.
abbrev pub HybridKept : Option HybridOverlayConfig → Option HybridOverlayConfig → Type 0
HybridKept (some prev) (some next) = prev ≡ next
HybridKept none next = Unit {0}
HybridKept (some prev) none = Unit {0}

-- What may not change without a migration.
abbrev pub IsKept : OvnKubernetesConfig → OvnKubernetesConfig → Type 0
IsKept pn nn =
    (pn.mtu ≡ nn.mtu)
    × (pn.geneve_port ≡ nn.geneve_port)
    × HybridKept pn.hybrid_overlay nn.hybrid_overlay

pub error_if_iff {ℓ} : {E : Type ℓ} (b : Bool) (e : E) → (error_if b e ≡ []) ↔ (b ≡ false)
error_if_iff true e = ground arith
error_if_iff false e = ground arith

differ_iff {ℓ} : {E : Type ℓ} (a b : Option ℕ) (e : E) → (error_if (not (a == b)) e ≡ []) ↔ (a ≡ b)
differ_iff a b e = ground (arith, error_if_iff (not (a == b)) e, ==_iff a b)

hybrid_iff :
    (prev next : Option HybridOverlayConfig)
    → (hybrid_overlay_errors prev next ≡ []) ↔ HybridKept prev next
hybrid_iff none next = ground arith
hybrid_iff (some prev) none = ground arith
hybrid_iff (some prev) (some next) =
    ground (arith, error_if_iff (not (prev == next)) hybrid_overlay_changed, ==_iff prev next)

others_iff :
    (pn nn : OvnKubernetesConfig)
    → (other_change_errors pn nn ≡ [])
      ↔ ((pn.geneve_port ≡ nn.geneve_port) × HybridKept pn.hybrid_overlay nn.hybrid_overlay)
others_iff pn nn = ground (
  arith,
  append_nil_iff (error_if (not (pn.geneve_port == nn.geneve_port)) geneve_port_changed)
      (hybrid_overlay_errors pn.hybrid_overlay nn.hybrid_overlay),
  differ_iff pn.geneve_port nn.geneve_port geneve_port_changed,
  hybrid_iff pn.hybrid_overlay nn.hybrid_overlay,
)

then_others_iff :
    (pn nn : OvnKubernetesConfig) (first : Option (List ChangeError))
    → (then_others pn nn first ≡ some []) ↔ (
        (first ≡ some [])
        × (pn.geneve_port ≡ nn.geneve_port)
        × HybridKept pn.hybrid_overlay nn.hybrid_overlay)
then_others_iff pn nn none = ground arith
then_others_iff pn nn (some errors) =
    ground (arith, append_nil_iff errors (other_change_errors pn nn), others_iff pn nn)

-- The migration's MTU is in range, and fits with its overhead into that of the machines, which is in
-- range; the MTU that it comes from is the applied one, if it is to be checked.
abbrev pub Migrates :
    Bool
    → Option MtuValues
    → OvnKubernetesConfig
    → OvnKubernetesConfig
    → (from to machine : ℕ) → Type 0
Migrates v6 before pn nn from to machine =
    (min_mtu v6 ≤ to)
    × (to + get_ovn_encap_overhead nn ≤ machine)
    × (machine ≤ max_mtu)
    × ((check_prev_mtu before (some from) ≡ false) ⊎ (pn.mtu ≡ some from))

unless : (a b : Bool) → a && not b ≡ false → a ≡ true → b ≡ true
unless a b h k = ground arith

no_panic {ℓ} :
    {E : Type ℓ} (b : Bool) (errors : List E)
    → (if b then none else some errors) ≡ some []
    → errors ≡ []
no_panic true errors h = absurd (ground arith)
no_panic false errors h = ground arith

in_range : (least most n : ℕ) → outside least most n ≡ false → (least ≤ n) × (n ≤ most)
in_range least most n h = ground arith

overhead_small : (oc : OvnKubernetesConfig) → get_ovn_encap_overhead oc ≤ 146
unfolding get_ovn_encap_overhead
overhead_small oc = ground arith

no_wrap :
    (to overhead machine : ℕ)
    → overhead ≤ 146
    → to ≤ max_mtu
    → ltb machine ((to + overhead) % uint32_mod) ≡ false
    → to + overhead ≤ machine
no_wrap to overhead machine small range h =
    let same : (to + overhead) % uint32_mod ≡ to + overhead = omega (arith, small, range) in
    ground (arith, same, h)

migrates_lem :
    (v6 : Bool) (before : Option MtuValues) (pn nn : OvnKubernetesConfig) (from to machine : ℕ)
    → migration_errors v6 before pn nn from to machine ≡ some []
    → Migrates v6 before pn nn from to machine
unfolding migration_errors
migrates_lem v6 before pn nn from to machine h =
    let wrong = check_prev_mtu before (some from) && not (some from == pn.mtu) in
    let needed = (to + get_ovn_encap_overhead nn) % uint32_mod in
    let e1 = error_if wrong (migration_from (some from) pn.mtu) in
    let e2 = error_if (outside (min_mtu v6) max_mtu to) (migration_to to) in
    let e3 = error_if (outside (min_mtu v6) max_mtu machine) (machine_to machine) in
    let e4 = error_if (ltb machine needed) (machine_too_small machine) in
    let (h1, rest) =
      (append_nil_iff e1 (e2 ++ (e3 ++ e4))).0
        (no_panic (wrong && pn.mtu == none) (e1 ++ (e2 ++ (e3 ++ e4))) h) in
    let (h2, rest') = (append_nil_iff e2 (e3 ++ e4)).0 rest in
    let (h3, h4) = (append_nil_iff e3 e4).0 rest' in
    let low = in_range (min_mtu v6) max_mtu to ((error_if_iff _ _).0 h2) in
    let high = in_range (min_mtu v6) max_mtu machine ((error_if_iff _ _).0 h3) in
    (
      low.0,
      no_wrap to (get_ovn_encap_overhead nn) machine (overhead_small nn) low.1
          ((error_if_iff _ _).0 h4),
      high.1,
      elim (Bool-cases (check_prev_mtu before (some from))) [
        | inl check ↦
            inr
              (sym ((==_iff (some from) pn.mtu).0 (unless _ _ ((error_if_iff wrong _).0 h1) check)))
        | inr skip ↦ inl skip
      ],
    )

by_values_lem :
    (v6 : Bool) (before : Option MtuValues) (pn nn : OvnKubernetesConfig) (o : Option (ℕ × ℕ × ℕ))
    → by_values v6 before pn nn o ≡ some []
    → (from : ℕ) × (to : ℕ) × (machine : ℕ) × (o ≡ some (from, to, machine))
      × Migrates v6 before pn nn from to machine
by_values_lem v6 before pn nn none h = absurd (ground arith)
by_values_lem v6 before pn nn (some (from, to, machine)) h =
    (from, to, machine, refl, migrates_lem v6 before pn nn from to machine h)

module _ (net : NetLibrary) (prev next : NetworkSpec) (pn nn : OvnKubernetesConfig)
    (before : prev.ovn ≡ some pn) (after : next.ovn ≡ some nn) where
  safe_unfolds :
      is_ovn_kubernetes_change_safe net prev next
      ≡ then_others pn nn (mtu_change_errors net prev next pn nn)
  unfolding is_ovn_kubernetes_change_safe
  safe_unfolds = rw (before, is_ovn_kubernetes_change_safe) (rw after refl)

  -- Without a migration of the MTU a change is allowed exactly when it keeps the MTU and the port, and a
  -- hybrid overlay that both configurations have.
  pub is_ovn_kubernetes_change_safe_iff :
      migration_mtu next.migration ≡ none
      → (is_ovn_kubernetes_change_safe net prev next ≡ some []) ↔ IsKept pn nn
  unfolding mtu_change_errors
  is_ovn_kubernetes_change_safe_iff still =
      let same : mtu_change_errors net prev next pn nn
          ≡ some (error_if (not (pn.mtu == nn.mtu)) mtu_changed) =
        rw (still, mtu_change_errors) refl in
      ground (
        arith,
        safe_unfolds ∙ ap (then_others pn nn) same,
        then_others_iff pn nn (some (error_if (not (pn.mtu == nn.mtu)) mtu_changed)),
        differ_iff pn.mtu nn.mtu mtu_changed,
      )

  -- A migration of the MTU that is allowed goes to an MTU that is in range, and that fits with its
  -- overhead into that of the machines, which is in range too; the MTU that it comes from is the applied
  -- one, unless it is the one that was given before.
  pub is_ovn_kubernetes_change_safe-Migrates :
      (m : MtuMigration)
      → migration_mtu next.migration ≡ some m
      → is_ovn_kubernetes_change_safe net prev next ≡ some []
      → (from : ℕ) × (to : ℕ) × (machine : ℕ) × (values_of m ≡ some (from, to, machine))
        × Migrates
            (any (λ n. net.is_ipv6_cidr n.cidr) next.cluster_network)
            (network_values prev.migration)
            pn
            nn
            from
            to
            machine
  unfolding mtu_change_errors
  is_ovn_kubernetes_change_safe-Migrates m moves safe =
      by_values_lem (any (λ n. net.is_ipv6_cidr n.cidr) next.cluster_network)
        (network_values prev.migration) pn nn (values_of m)
        (sym (rw (moves, mtu_change_errors) refl)
          ∙ ((then_others_iff pn nn (mtu_change_errors net prev next pn nn)).0
              (sym safe_unfolds ∙ safe)).0)

carries :
    (default_mtu : ℕ) (sc : OvnKubernetesConfig) (previous : Option NetworkSpec) (host_mtu mtu : ℕ)
    → sc.mtu ≡ none
    → previous_mtu previous ≡ some mtu
    → filled_mtu default_mtu sc previous host_mtu ≡ some mtu
unfolding chosen_mtu
carries default_mtu sc previous host_mtu mtu unset before =
    rw unset (ap (λ p. chosen_mtu default_mtu sc p host_mtu) before)

-- Where the previous configuration of ovn-kubernetes has an MTU and a port, and the new one asks for no
-- migration of the MTU, leaves its MTU to the defaults, and has the same port and hybrid overlay, filling
-- in the defaults takes over the previous MTU, so that the change is allowed.
pub fill_ovn_kubernetes_defaults-is_ovn_kubernetes_change_safe :
    (net : NetLibrary) (default_mtu : ℕ) (conf prev next : NetworkSpec) (host_mtu mtu port : ℕ)
    (pn : OvnKubernetesConfig)
    → prev.ovn ≡ some pn
    → pn.mtu ≡ some mtu
    → pn.geneve_port ≡ some port
    → (config_or_empty conf.ovn).mtu ≡ none
    → or_default 6081 (config_or_empty conf.ovn).geneve_port ≡ port
    → HybridKept pn.hybrid_overlay (config_or_empty conf.ovn).hybrid_overlay
    → migration_mtu conf.migration ≡ none
    → fill_ovn_kubernetes_defaults default_mtu conf (some prev) host_mtu ≡ some next
    → is_ovn_kubernetes_change_safe net prev next ≡ some []
fill_ovn_kubernetes_defaults-is_ovn_kubernetes_change_safe net default_mtu conf prev next host_mtu
      mtu port pn before mtu_before port_before unset same_port hybrid still filled =
    let (chosen, e, same) = filled_fields default_mtu conf next (some prev) host_mtu filled in
    let nn = fill_fields (config_or_empty conf.ovn) chosen in
    (is_ovn_kubernetes_change_safe_iff net prev next pn nn before (ap (λ n. n.ovn) same)
        (ap (λ n. migration_mtu n.migration) same ∙ still)).1
      (
        mtu_before
            ∙ (sym (
                  carries default_mtu (config_or_empty conf.ovn) (some prev) host_mtu mtu unset
                    (rw before mtu_before))
                ∙ e),
        port_before ∙ ap some (sym same_port),
        hybrid,
      )
