-- ===== src/Network/Configuration/Safe.antt =====
-- What a change that IsChangeSafe lets pass keeps.
use cluster_network_operator.Prelude.{
  some_injective, String, ◌≡◌, ◌⊎◌, refl, sym, ap, subst, ◌∙◌, inl, inr, Bool, not, ◌&&◌,
  Bool-cases, List, [], ◌∷◌, ◌++◌, map, append_nil_iff, Option, none, some, arith, ltb, ◌==◌,
  ==_iff, string_eq, bool_eq, nat_eq, list_eq, option_eq, length, is_some,
}
use cluster_network_operator.Network.Subnets.{Address}
use cluster_network_operator.Network.Spec.{NetworkSpec, NetLibrary, ovn_kubernetes}
use cluster_network_operator.Network.Equal.{network_spec_eq, cluster_network_entry_eq}
use cluster_network_operator.Network.Pools.{error_if}
use cluster_network_operator.Network.ClusterConfig.{is_conversion_to_dual_stack_supported}
use cluster_network_operator.Network.OvnChanges.{ChangeError, disable_multi_network_changed}
use cluster_network_operator.Network.OvnChanges.Kept.{error_if_iff}
use cluster_network_operator.Network.NetworkChanges.{
  NetworkChangeError, Checked, unsorted, sort_clusters, is_cluster_network_change_safe, from_stacks,
  is_network_change_safe,
}
use cluster_network_operator.Network.NetworkChanges.Allowed.{
  IsAllowed, taken, is_network_change_safe-IsAllowed,
}
use cluster_network_operator.Network.Configuration.{
  settings, network_errors, is_default_network_change_safe, with_settings, check_settings,
  is_change_safe,
}

module _ {ℓ κ} {A : Type ℓ} {B : Type κ} {a c : A} {b d : B} where
  first_same : ◌≡◌ {A = Option (A × B)} (some (a, b)) (some (c, d)) → a ≡ c
  first_same h = ap (λ p. p.0) (some_injective h)

  second_same : ◌≡◌ {A = Option (A × B)} (some (a, b)) (some (c, d)) → b ≡ d
  second_same h = ap (λ p. p.1) (some_injective h)

no_network_error : (e : Option NetworkChangeError) → network_errors e ≡ [] → e ≡ none
no_network_error none h = refl
no_network_error (some e) h = absurd (ground arith)

no_settings : (errors : List ChangeError) → map settings errors ≡ [] → errors ≡ []
no_settings [] h = refl
no_settings (e ∷ errors) h = absurd (ground arith)

module _ (net : NetLibrary) (parse_ip : String → Option Address)
    (text_before : String → String → Bool) where
  -- The two configurations are as given, or have their cluster networks sorted.
  abbrev pub IsReordered : NetworkSpec → NetworkSpec → Checked → Type 0
  IsReordered prev next c =
      ((c.prev ≡ prev) × (c.next ≡ next))
      ⊎ ((c.prev ≡ sort_clusters net parse_ip text_before prev)
          × (c.next ≡ sort_clusters net parse_ip text_before next))

  reorder_given :
      (prev next : NetworkSpec) (e : Option NetworkChangeError) (c : Checked)
      → some (unsorted prev next e) ≡ some c
      → IsReordered prev next c
  reorder_given prev next e c h = inl (ground arith)

  reorder_stacks :
      (prev next : NetworkSpec) (o : Option (Option NetworkChangeError)) (c : Checked)
      → from_stacks prev next o ≡ some c
      → IsReordered prev next c
  reorder_stacks prev next none c h = absurd (ground arith)
  reorder_stacks prev next (some e) c h = reorder_given prev next e c h

  reorder_clusters :
      (prev next : NetworkSpec)
      → IsReordered prev next (is_cluster_network_change_safe net parse_ip text_before prev next)
  unfolding is_cluster_network_change_safe
  reorder_clusters prev next =
      elim (Bool-cases (length prev.cluster_network == length next.cluster_network)) [
        | inl h ↦ elim (Bool-cases (next.network_type == ovn_kubernetes)) [
          | inl k ↦ inr (rw (h, k) refl, rw (h, k) refl)
          | inr k ↦ inl (rw (h, k) refl, rw (h, k) refl)
        ]
        | inr h ↦ inl (rw h refl, rw h refl)
      ]

  reorders :
      (platform : String) (prev next : NetworkSpec) (c : Checked)
      → is_network_change_safe net parse_ip text_before platform prev next ≡ some c
      → IsReordered prev next c
  unfolding is_network_change_safe
  reorders platform prev next c checked =
      let up = ltb (length prev.service_network) (length next.service_network) in
      let down = ltb (length next.service_network) (length prev.service_network) in
      let same_service = prev.service_network == next.service_network in
      elim (taken (is_some prev.migration) _ _ checked) [
        | inl (_, h) ↦ reorder_given prev next _ c h
        | inr (_, h) ↦
            elim (taken (prev.cluster_network == next.cluster_network && same_service) _ _ h) [
              | inl (_, k) ↦ reorder_given prev next _ c k
              | inr (_, k) ↦ elim (taken up _ _ k) [
                | inl (_, l) ↦
                    elim (taken (not (is_conversion_to_dual_stack_supported platform)) _ _ l) [
                      | inl (_, m) ↦ reorder_given prev next _ c m
                      | inr (_, m) ↦ reorder_stacks prev next _ c m
                    ]
                | inr (_, l) ↦ elim (taken down _ _ l) [
                  | inl (_, m) ↦ reorder_stacks prev next _ c m
                  | inr (_, m) ↦ elim (taken (not same_service) _ _ m) [
                    | inl (_, n) ↦ reorder_given prev next _ c n
                    | inr (_, n) ↦
                        subst (IsReordered prev next) (some_injective n)
                          (reorder_clusters prev next)
                  ]
                ]
              ]
            ]
      ]

  -- what IsChangeSafe lets pass is kept
  abbrev pub IsSafe : String → NetworkSpec → NetworkSpec → NetworkSpec → Type 0
  IsSafe platform prev next result =
      (prev.network_type ≡ next.network_type)
      × (prev.disable_multi_network ≡ next.disable_multi_network)
      × IsAllowed net parse_ip text_before platform prev next
      × ((result ≡ next) ⊎ (result ≡ sort_clusters net parse_ip text_before next))

  settings_lem :
      (c : Checked) (o : Option (List ChangeError)) (result : NetworkSpec)
      → with_settings net parse_ip text_before c o ≡ some ([], result)
      → (c.error ≡ none)
        × (o ≡ some [])
        × (c.prev.disable_multi_network ≡ c.next.disable_multi_network)
        × (result ≡ c.next)
  settings_lem c none result h = absurd (ground arith)
  settings_lem c (some errors) result h =
      let multi =
        error_if (not (c.prev.disable_multi_network == c.next.disable_multi_network))
          (settings disable_multi_network_changed) in
      let (clean, later) =
        (append_nil_iff (network_errors c.error) (map settings errors ++ multi)).0 (first_same h) in
      let (none_set, kept) = (append_nil_iff (map settings errors) multi).0 later in
      (
        no_network_error c.error clean,
        ap some (no_settings errors none_set),
        ground (
          arith,
          error_if_iff (not (c.prev.disable_multi_network == c.next.disable_multi_network))
              (settings disable_multi_network_changed),
          kept,
          ==_iff c.prev.disable_multi_network c.next.disable_multi_network,
        ),
        sym (second_same h),
      )

  type_lem :
      (prev next : NetworkSpec)
      → is_default_network_change_safe net parse_ip text_before prev next ≡ some []
      → prev.network_type ≡ next.network_type
  unfolding is_default_network_change_safe
  type_lem prev next h = elim (taken (not (prev.network_type == next.network_type)) _ _ h) [
    | inl (_, k) ↦ absurd (ground (arith, k))
    | inr (same, k) ↦ (==_iff prev.network_type next.network_type).0 (ground (arith, same))
  ]

  checked_lem :
      (o : Option Checked) (result : NetworkSpec)
      → check_settings net parse_ip text_before o ≡ some ([], result)
      → (c : Checked) × (o ≡ some c)
        × (with_settings net parse_ip text_before c
              (is_default_network_change_safe net parse_ip text_before c.prev c.next)
            ≡ some ([], result))
  checked_lem none result h = absurd (ground arith)
  checked_lem (some c) result h = (c, refl, h)

  -- Sorting keeps the settings.
  same_settings :
      (prev next : NetworkSpec) (c : Checked)
      → IsReordered prev next c
      → c.prev.network_type ≡ c.next.network_type
      → c.prev.disable_multi_network ≡ c.next.disable_multi_network
      → (prev.network_type ≡ next.network_type)
        × (prev.disable_multi_network ≡ next.disable_multi_network)
  unfolding sort_clusters
  same_settings prev next c (inl (p, n)) type multi = (
    ap (λ s. s.network_type) (sym p) ∙ (type ∙ ap (λ s. s.network_type) n),
    ap (λ s. s.disable_multi_network) (sym p) ∙ (multi ∙ ap (λ s. s.disable_multi_network) n),
  )
  same_settings prev next c (inr (p, n)) type multi = (
    ap (λ s. s.network_type) (sym p) ∙ (type ∙ ap (λ s. s.network_type) n),
    ap (λ s. s.disable_multi_network) (sym p) ∙ (multi ∙ ap (λ s. s.disable_multi_network) n),
  )

  same_result :
      (prev next result : NetworkSpec) (c : Checked)
      → IsReordered prev next c
      → result ≡ c.next
      → (result ≡ next) ⊎ (result ≡ sort_clusters net parse_ip text_before next)
  same_result prev next result c (inl (p, n)) h = inl (h ∙ n)
  same_result prev next result c (inr (p, n)) h = inr (h ∙ n)

  -- Outside of a migration, a change that IsChangeSafe lets pass keeps the type of the network and
  -- DisableMultiNetwork, and of the networks it changes nothing; or only cluster networks of
  -- ovn-kubernetes, which grow; or the number of service networks, to more of them only where the
  -- platform supports it, with the same first one, and with the same cluster networks as far as both
  -- sides go, after which the side with more service networks has only some of the other family. But for the order of the cluster networks the new configuration is left as
  -- it is.
  pub is_change_safe-IsSafe :
      (platform : String) (prev next result : NetworkSpec)
      → prev.migration ≡ none
      → is_change_safe net parse_ip text_before platform (some prev) next ≡ some ([], result)
      → IsSafe platform prev next result
  unfolding is_change_safe
  is_change_safe-IsSafe platform prev next result still h = elim (taken (prev == next) _ _ h) [
    | inl (equal, k) ↦
        let same = (==_iff prev next).0 equal in
        (
          ap (λ s. s.network_type) same,
          ap (λ s. s.disable_multi_network) same,
          inl (ap (λ s. s.cluster_network) same, ap (λ s. s.service_network) same),
          inl (sym (second_same k)),
        )
    | inr (_, k) ↦
        let (c, found, k') = checked_lem _ result k in
        let (clean, types, multi, final) = settings_lem c _ result k' in
        let order = reorders platform prev next c found in
        let (type, disable) =
          same_settings prev next c order (type_lem c.prev c.next types) multi in
        (
          type,
          disable,
          is_network_change_safe-IsAllowed net parse_ip text_before platform prev next c still found
              clean,
          same_result prev next result c order final,
        )
  ]
