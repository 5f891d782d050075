-- ===== src/Network/Configuration/Filled.antt =====
-- The defaults of the whole configuration, filled in once and again.
use cluster_network_operator.Prelude.{
  some_injective, ℕ, String, ◌≡◌, refl, sym, ap, subst, ◌∙◌, inl, inr, Bool, true, false,
  Bool-cases, List, Option, none, some, arith, ◌==◌, ==_iff, string_eq, nat_eq,
}
use cluster_network_operator.Network.Spec.{
  ClusterNetworkEntry, OvnKubernetesConfig, ProxyConfig, NetworkSpec, NetLibrary, ovn_kubernetes,
}
use cluster_network_operator.Network.OvnDefaults.{
  config_or_empty, or_default, or_chosen, chosen_mtu, previous_mtu, fill_fields, with_mtu,
  fill_ovn_kubernetes_defaults,
}
use cluster_network_operator.Network.OvnDefaults.Filled.{policy_kept, text_kept, filled_fields}
use cluster_network_operator.Network.KubeProxy.{
  uses_kube_proxy, proxy_or_empty, filled_address, with_address, with_deployed, deployed_proxy,
  fill_kube_proxy_defaults,
}
use cluster_network_operator.Network.Configuration.{
  fill_default_network_defaults, fill_own_defaults, then_proxy, fill_defaults,
}

-- The defaults of ovn-kubernetes are filled in.
IsSettled : Option OvnKubernetesConfig → Type 0
IsSettled o = (oc : OvnKubernetesConfig) × (mtu : ℕ) × (o ≡ some (fill_fields oc mtu))

settled_stays :
    (default_mtu : ℕ) (conf : NetworkSpec) (previous : Option NetworkSpec) (host_mtu : ℕ)
    → IsSettled conf.ovn
    → fill_ovn_kubernetes_defaults default_mtu conf previous host_mtu ≡ some conf
unfolding IsSettled fill_ovn_kubernetes_defaults
settled_stays default_mtu conf previous host_mtu (oc, mtu, filled) =
    let sc = fill_fields oc mtu in
    ap
      (λ o. with_mtu conf (config_or_empty o) (
        or_chosen (config_or_empty o).mtu
          (chosen_mtu default_mtu (config_or_empty o) (previous_mtu previous) host_mtu)))
      filled
    ∙ (ap (λ p. some (record conf { ovn = some (record sc { policy_audit = some p }) }))
          (policy_kept oc.policy_audit)
        ∙ ap (λ o. some (record conf { ovn = o })) (sym filled))

-- the network defaults of a configuration that has them, whatever its type
IsNetworkFilled : NetworkSpec → Type 0
IsNetworkFilled conf = conf.network_type ≡ ovn_kubernetes → IsSettled conf.ovn

network_stays :
    (default_mtu : ℕ) (conf : NetworkSpec) (previous : Option NetworkSpec) (host_mtu : ℕ)
    → IsNetworkFilled conf
    → fill_default_network_defaults default_mtu conf previous host_mtu ≡ some conf
unfolding IsNetworkFilled fill_default_network_defaults
network_stays default_mtu conf previous host_mtu filled =
    elim (Bool-cases (conf.network_type == ovn_kubernetes)) [
      | inl h ↦ rw h (
          settled_stays default_mtu conf previous host_mtu
            (filled ((==_iff conf.network_type ovn_kubernetes).0 h)))
      | inr h ↦ rw h refl
    ]

network_shape :
    (default_mtu : ℕ) (conf next : NetworkSpec) (previous : Option NetworkSpec) (host_mtu : ℕ)
    → fill_default_network_defaults default_mtu conf previous host_mtu ≡ some next
    → (o : Option OvnKubernetesConfig) × (next ≡ record conf { ovn = o })
      × (conf.network_type ≡ ovn_kubernetes → IsSettled o)
unfolding IsSettled fill_default_network_defaults
network_shape default_mtu conf next previous host_mtu h =
    elim (Bool-cases (conf.network_type == ovn_kubernetes)) [
      | inl is_ovn ↦
          let (mtu, e, same) =
            filled_fields default_mtu conf next previous host_mtu (rw is_ovn at h) in
          (
            some (fill_fields (config_or_empty conf.ovn) mtu),
            same,
            λ typed. (config_or_empty conf.ovn, mtu, refl),
          )
      | inr other ↦ (
        conf.ovn,
        sym (some_injective (rw other at h)),
        λ typed. absurd (ground (arith, other, (==_iff conf.network_type ovn_kubernetes).1 typed)),
      )
    ]

module _ (net : NetLibrary) where
  -- what stays of the settings of kube-proxy when they are filled in again
  IsProxySettled : Bool → Option ProxyConfig → List ClusterNetworkEntry → Type 0
  IsProxySettled false k cluster = Unit {0}
  IsProxySettled true k cluster =
      (p : ProxyConfig) × (address : String) × (k ≡ some (record p { bind_address = address }))
      × (filled_address net address cluster ≡ some address)

  address_kept :
      (address filled : String) (cluster : List ClusterNetworkEntry)
      → filled_address net address cluster ≡ some filled
      → filled_address net filled cluster ≡ some filled
  address_kept address filled cluster h = elim (Bool-cases (address == "")) [
    | inl empty ↦ elim (Bool-cases (filled == "")) [
      | inl e ↦ rw e (rw empty at h)
      | inr e ↦ rw e refl
    ]
    | inr given ↦
        subst (λ f. filled_address net f cluster ≡ some f) (some_injective (rw given at h))
          (rw given refl)
  ]

  proxy_stays :
      (conf : NetworkSpec) (deploy : Bool)
      → conf.deploy_kube_proxy ≡ some deploy
      → IsProxySettled deploy conf.kube_proxy conf.cluster_network
      → fill_kube_proxy_defaults net conf ≡ some conf
  unfolding fill_kube_proxy_defaults IsProxySettled
  proxy_stays conf false deployed settled =
      ap
        (λ d.
          deployed_proxy net (with_deployed conf (or_default (uses_kube_proxy conf) d))
            (or_default (uses_kube_proxy conf) d))
        deployed
      ∙ ap (λ d. some (record conf { deploy_kube_proxy = d })) (sym deployed)
  proxy_stays conf true deployed (p, address, e, same) =
      let p' = record p { bind_address = address } in
      let conf' = with_deployed conf true in
      ap
        (λ d.
          deployed_proxy net (with_deployed conf (or_default (uses_kube_proxy conf) d))
            (or_default (uses_kube_proxy conf) d))
        deployed
      ∙ (ap
            (λ k.
              with_address conf' (proxy_or_empty k)
                (filled_address net (proxy_or_empty k).bind_address conf.cluster_network))
            e
          ∙ (ap (with_address conf' p') same
              ∙ (ap (λ k. some (record conf' { kube_proxy = k })) (sym e)
                  ∙ ap (λ d. some (record conf { deploy_kube_proxy = d })) (sym deployed))))

  address_shape :
      (conf next : NetworkSpec) (p : ProxyConfig) (o : Option String)
      → with_address conf p o ≡ some next
      → (address : String) × (o ≡ some address)
        × (next ≡ record conf { kube_proxy = some (record p { bind_address = address }) })
  address_shape conf next p none h = absurd (ground arith)
  address_shape conf next p (some address) h = (address, refl, sym (some_injective h))

  deployed_shape :
      (conf next : NetworkSpec) (deploy : Bool)
      → deployed_proxy net conf deploy ≡ some next
      → (k : Option ProxyConfig) × (next ≡ record conf { kube_proxy = k })
        × IsProxySettled deploy k conf.cluster_network
  unfolding IsProxySettled
  deployed_shape conf next false h = (conf.kube_proxy, sym (some_injective h), tt)
  deployed_shape conf next true h =
      let p = proxy_or_empty conf.kube_proxy in
      let (address, found, same) =
        address_shape conf next p (filled_address net p.bind_address conf.cluster_network) h in
      (
        some (record p { bind_address = address }),
        same,
        (p, address, refl, address_kept p.bind_address address conf.cluster_network found),
      )

  proxy_second :
      (o : Option NetworkSpec) (next : NetworkSpec)
      → then_proxy net o ≡ some next
      → (middle : NetworkSpec) × (o ≡ some middle)
        × (fill_kube_proxy_defaults net middle ≡ some next)
  proxy_second none next h = absurd (ground arith)
  proxy_second (some middle) next h = (middle, refl, h)

  all_stays :
      (default_mtu : ℕ) (conf : NetworkSpec) (previous : Option NetworkSpec) (host_mtu : ℕ)
      (deploy : Bool)
      → fill_own_defaults conf ≡ conf
      → IsNetworkFilled conf
      → conf.deploy_kube_proxy ≡ some deploy
      → IsProxySettled deploy conf.kube_proxy conf.cluster_network
      → fill_defaults net default_mtu conf previous host_mtu ≡ some conf
  unfolding fill_defaults
  all_stays default_mtu conf previous host_mtu deploy own filled deployed settled =
      ap (λ c. then_proxy net (fill_default_network_defaults default_mtu c previous host_mtu)) own
      ∙ (ap (then_proxy net) (network_stays default_mtu conf previous host_mtu filled)
          ∙ proxy_stays conf deploy deployed settled)

  -- Filling in the defaults again, whatever the previous configuration and the MTU of the host are
  -- then, leaves a configuration as it is.
  pub fill_defaults_idem :
      (default_mtu default_mtu' : ℕ)
      → (conf next : NetworkSpec) → (previous previous' : Option NetworkSpec)
      → (host_mtu host_mtu' : ℕ) → fill_defaults net default_mtu conf previous host_mtu ≡ some next
      → fill_defaults net default_mtu' next previous' host_mtu' ≡ some next
  unfolding fill_defaults fill_own_defaults fill_kube_proxy_defaults IsNetworkFilled
  fill_defaults_idem default_mtu default_mtu' conf next previous previous' host_mtu host_mtu' h =
      let own = fill_own_defaults conf in
      let (middle, first, second) =
        proxy_second (fill_default_network_defaults default_mtu own previous host_mtu) next h in
      let (o, shape, settled) = network_shape default_mtu own middle previous host_mtu first in
      let deploy = or_default (uses_kube_proxy middle) middle.deploy_kube_proxy in
      let (k, shape', proxy) = deployed_shape (with_deployed middle deploy) next deploy second in
      let final = record own { ovn = o; deploy_kube_proxy = some deploy; kube_proxy = k } in
      let whole : next ≡ final =
        shape'
        ∙ ap {A = NetworkSpec} (λ m. record m { deploy_kube_proxy = some deploy; kube_proxy = k })
            shape in
      subst (λ n. fill_defaults net default_mtu' n previous' host_mtu' ≡ some n) (sym whole)
        (all_stays default_mtu' final previous' host_mtu' deploy
          (ap {B = NetworkSpec} (λ l. record final { log_level = l })
            (text_kept "Normal" conf.log_level refl))
          settled refl (subst (λ m. IsProxySettled deploy k m.cluster_network) shape proxy))
