-- ===== src/Network/OvnDefaults/Filled.antt =====
-- The defaults of ovn-kubernetes: when they are filled in, also again, and the MTU that is chosen.
use cluster_network_operator.Prelude.{
  ℕ, ◌+◌, ◌-◌, ◌%◌, ◌≤◌, ◌<◌, String, ◌≡◌, ◌≢◌, ◌↔◌, refl, sym, ap, subst, Option, none, some,
  Bool-cases, inl, inr, false, ◌==◌, ==_iff, string_eq, nat_eq, nat_beq, arith, if◌then◌else◌,
}
use cluster_network_operator.Network.Spec.{OvnKubernetesConfig, PolicyAuditConfig, NetworkSpec}
use cluster_network_operator.Network.OvnConfig.{uint32_mod, no_overlay, get_ovn_encap_overhead}
use cluster_network_operator.Network.OvnDefaults.{
  config_or_empty, or_text, previous_mtu, chosen_mtu, or_chosen, with_mtu, filled_mtu,
  fill_policy_audit, fill_fields, fill_ovn_kubernetes_defaults,
}

-- what the defaults are filled in from: the MTU of the configuration, of the previous one, or of a host
abbrev pub MtuIsMissing : ℕ → NetworkSpec → Option NetworkSpec → ℕ → Type 0
MtuIsMissing default_mtu conf previous host_mtu =
    ((config_or_empty conf.ovn).mtu ≡ none)
    × (previous_mtu previous ≡ none)
    × (host_mtu ≡ 0)
    × (default_mtu ≡ 0)

pub text_kept : (d s : String) → (d == "") ≡ false → or_text d (or_text d s) ≡ or_text d s
text_kept d s h = ground (arith, h)

pub policy_kept :
    (p : Option PolicyAuditConfig)
    → fill_policy_audit (some (fill_policy_audit p)) ≡ fill_policy_audit p
unfolding fill_policy_audit
policy_kept none = refl
policy_kept (some p) =
    rw (text_kept "null" p.destination refl) (rw (text_kept "local0" p.syslog_facility refl) refl)

chosen_missing :
    (default_mtu : ℕ) (sc : OvnKubernetesConfig) (before : Option ℕ) (host_mtu : ℕ)
    → (chosen_mtu default_mtu sc before host_mtu ≡ none)
      ↔ ((before ≡ none) × (host_mtu ≡ 0) × (default_mtu ≡ 0))
unfolding chosen_mtu
chosen_missing default_mtu sc (some mtu) host_mtu = ground arith
chosen_missing default_mtu sc none host_mtu =
    ground (arith, ==_iff host_mtu 0, ==_iff default_mtu 0)

chosen_none :
    (mtu chosen : Option ℕ) → (or_chosen mtu chosen ≡ none) ↔ ((mtu ≡ none) × (chosen ≡ none))
chosen_none none chosen = ground arith
chosen_none (some mtu) chosen = ground arith

with_none :
    (conf : NetworkSpec) (sc : OvnKubernetesConfig) (mtu : Option ℕ)
    → (with_mtu conf sc mtu ≡ none) ↔ (mtu ≡ none)
with_none conf sc none = ground arith
with_none conf sc (some mtu) = ground arith

with_some :
    (conf next : NetworkSpec) (sc : OvnKubernetesConfig) (o : Option ℕ)
    → with_mtu conf sc o ≡ some next
    → (mtu : ℕ) × (o ≡ some mtu) × (next ≡ record conf { ovn = some (fill_fields sc mtu) })
with_some conf next sc none h = absurd (ground arith)
with_some conf next sc (some mtu) h = (mtu, refl, ground arith)

-- Filling in the defaults panics exactly when neither the configuration nor the previous one has an
-- MTU, no MTU of the host is given, and GetDefaultMTU finds none.
pub fill_ovn_kubernetes_defaults-panics_iff :
    (default_mtu : ℕ) (conf : NetworkSpec) (previous : Option NetworkSpec) (host_mtu : ℕ)
    → (fill_ovn_kubernetes_defaults default_mtu conf previous host_mtu ≡ none)
      ↔ MtuIsMissing default_mtu conf previous host_mtu
unfolding fill_ovn_kubernetes_defaults
fill_ovn_kubernetes_defaults-panics_iff default_mtu conf previous host_mtu =
    let sc = config_or_empty conf.ovn in
    let chosen = chosen_mtu default_mtu sc (previous_mtu previous) host_mtu in
    ground (
      arith,
      with_none conf sc (or_chosen sc.mtu chosen),
      chosen_none sc.mtu chosen,
      chosen_missing default_mtu sc (previous_mtu previous) host_mtu,
    )

module _ (default_mtu : ℕ) (conf next : NetworkSpec) (previous : Option NetworkSpec) (host_mtu : ℕ)
    (filled : fill_ovn_kubernetes_defaults default_mtu conf previous host_mtu ≡ some next) where
  pub filled_fields :
      (mtu : ℕ) × (filled_mtu default_mtu (config_or_empty conf.ovn) previous host_mtu ≡ some mtu)
      × (next ≡ record conf { ovn = some (fill_fields (config_or_empty conf.ovn) mtu) })
  unfolding fill_ovn_kubernetes_defaults
  filled_fields =
      let sc = config_or_empty conf.ovn in
      with_some conf next sc (filled_mtu default_mtu sc previous host_mtu) filled

  -- A configuration with its defaults stays as it is when defaults are filled in again, whatever the
  -- previous configuration and the host's MTU are then.
  pub fill_ovn_kubernetes_defaults_idem :
      (default_mtu' : ℕ) (previous' : Option NetworkSpec) (host_mtu' : ℕ)
      → fill_ovn_kubernetes_defaults default_mtu' next previous' host_mtu' ≡ some next
  unfolding fill_ovn_kubernetes_defaults
  fill_ovn_kubernetes_defaults_idem default_mtu' previous' host_mtu' =
      let (mtu, e, same) = filled_fields in
      subst (λ n. fill_ovn_kubernetes_defaults default_mtu' n previous' host_mtu' ≡ some n)
        (sym same)
        (ap
          (λ p. some (record conf {
            ovn =
                some
                  (record (fill_fields (config_or_empty conf.ovn) mtu) { policy_audit = some p });
          }))
          (policy_kept (config_or_empty conf.ovn).policy_audit))

wraps :
    (host overhead : ℕ)
    → overhead ≤ host
    → host < uint32_mod
    → (host % uint32_mod + uint32_mod - overhead) % uint32_mod ≡ host - overhead
wraps host overhead room small = omega (arith, room, small)

-- The MTU that is chosen for an overlay leaves room for its overhead on the host: it is the MTU of the
-- host less the overhead, and without an overlay the whole MTU, which validateMTUForNoOverlay accepts.
pub chosen_mtu-fits :
    (default_mtu host_mtu : ℕ) (sc : OvnKubernetesConfig)
    → host_mtu ≢ 0
    → get_ovn_encap_overhead sc ≤ host_mtu
    → host_mtu < uint32_mod
    → (mtu : ℕ) × (chosen_mtu default_mtu sc none host_mtu ≡ some mtu)
      × (mtu + (if sc.transport == no_overlay then 0 else get_ovn_encap_overhead sc) ≡ host_mtu)
unfolding chosen_mtu
chosen_mtu-fits default_mtu host_mtu sc given room small =
    let h0 : nat_beq host_mtu 0 ≡ false = ground (arith, given) in
    elim (Bool-cases (sc.transport == no_overlay)) [
      | inl direct ↦ (
        host_mtu,
        rw (h0, direct) (rw h0 (ap some (omega (arith, small)))),
        rw direct (omega arith),
      )
      | inr overlay ↦ (
        host_mtu - get_ovn_encap_overhead sc,
        rw (h0, overlay) (rw h0 (ap some (wraps host_mtu (get_ovn_encap_overhead sc) room small))),
        rw overlay (omega (arith, room)),
      )
    ]
