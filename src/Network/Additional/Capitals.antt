-- ===== src/Network/Additional/Capitals.antt =====
-- What DeprecatedCanonicalize corrects, and what it leaves for a second time.
use cluster_network_operator.Prelude.{
  String, ◌≡◌, ◌≢◌, refl, sym, ap, ◌∙◌, inl, inr, false, Bool-cases, List, [], ◌∷◌, Option, none,
  some, ◌==◌, ==_iff, ==_refl, string_eq, arith,
}
use cluster_network_operator.Network.Spec.{IpamConfig, SimpleMacvlanConfig, AdditionalNetwork}
use cluster_network_operator.Network.Additional.{
  capitalize, canonicalize_ipam, canonicalize_ipams, canonicalize_macvlan, canonicalize_macvlans,
  canonicalize_network,
}

module _ (to_lower : String → String) where
  lower_kept :
      (words : List String) (s : String) → to_lower (capitalize to_lower words s) ≡ to_lower s
  unfolding capitalize
  lower_kept [] s = refl
  lower_kept (word ∷ words) s = elim (Bool-cases (to_lower s == to_lower word)) [
    | inl h ↦ rw h (sym ((==_iff (to_lower s) (to_lower word)).0 h))
    | inr h ↦ rw h (lower_kept words s)
  ]

  -- The first of the words that a text is but for its capitals is again the first for itself.
  pub capitalize_idem :
      (words : List String) (s : String)
      → capitalize to_lower words (capitalize to_lower words s) ≡ capitalize to_lower words s
  unfolding capitalize
  capitalize_idem [] s = refl
  capitalize_idem (word ∷ words) s = elim (Bool-cases (to_lower s == to_lower word)) [
    | inl h ↦ rw h (rw (==_refl (to_lower word)) refl)
    | inr h ↦
        let r = capitalize to_lower words s in
        let other : (to_lower r == to_lower word) ≡ false =
          ap (λ t. t == to_lower word) (lower_kept words s) ∙ h in
        rw h (rw other (capitalize_idem words s))
  ]

  ipam_kept :
      (o : Option IpamConfig)
      → canonicalize_ipams to_lower (canonicalize_ipams to_lower o) ≡ canonicalize_ipams to_lower o
  unfolding canonicalize_ipam
  ipam_kept none = refl
  ipam_kept (some conf) =
      ap (λ t. some (record conf { type = t })) (capitalize_idem ("DHCP" ∷ "Static" ∷ []) conf.type)

  macvlan_kept :
      (o : Option SimpleMacvlanConfig)
      → canonicalize_macvlans to_lower (canonicalize_macvlans to_lower o)
        ≡ canonicalize_macvlans to_lower o
  unfolding canonicalize_macvlan
  macvlan_kept none = refl
  macvlan_kept (some conf) =
      ap
        (λ m. some (record conf {
          mode = m;
          ipam = canonicalize_ipams to_lower (canonicalize_ipams to_lower conf.ipam);
        }))
        (capitalize_idem ("Bridge" ∷ "Private" ∷ "VEPA" ∷ "Passthru" ∷ []) conf.mode)
      ∙ ap (λ i. some (record (canonicalize_macvlan to_lower conf) { ipam = i }))
          (ipam_kept conf.ipam)

  -- the additional network with its configuration corrected, too
  abbrev pub corrected : AdditionalNetwork → AdditionalNetwork
  corrected an = record an {
    type = "SimpleMacvlan";
    macvlan = canonicalize_macvlans to_lower an.macvlan;
  }

  module _ (an : AdditionalNetwork) (named : to_lower an.type ≡ to_lower "SimpleMacvlan")
      (differs : to_lower "SimpleMacvlan" ≢ to_lower "Raw") where
    not_raw :
        (t : String)
        → to_lower t ≡ to_lower "SimpleMacvlan"
        → (to_lower t == to_lower "Raw") ≡ false
    not_raw t h = ground (arith, ==_iff (to_lower t) (to_lower "Raw"), h, differs)

    type_corrected :
        (t : String)
        → to_lower t ≡ to_lower "SimpleMacvlan"
        → capitalize to_lower ("Raw" ∷ "SimpleMacvlan" ∷ []) t ≡ "SimpleMacvlan"
    unfolding capitalize
    type_corrected t h =
        rw (not_raw t h) (rw ((==_iff (to_lower t) (to_lower "SimpleMacvlan")).1 h) refl)

    -- Of an additional network that has wrong capitals in its type SimpleMacvlan, the first time only the
    -- type is corrected, and the configuration the second time; from then on it stays.
    pub canonicalize_network-twice :
        (an.type == "SimpleMacvlan") ≡ false
        → (canonicalize_network to_lower an ≡ record an { type = "SimpleMacvlan" })
          × (canonicalize_network to_lower (record an { type = "SimpleMacvlan" }) ≡ corrected an)
          × (canonicalize_network to_lower (corrected an) ≡ corrected an)
    unfolding canonicalize_network
    canonicalize_network-twice wrong = (
      rw wrong (ap {A = String} (λ t. record an { type = t }) (type_corrected an.type named)),
      ap {A = String}
          (λ t. record an { type = t; macvlan = canonicalize_macvlans to_lower an.macvlan })
          (type_corrected "SimpleMacvlan" refl),
      ap {A = String}
            (λ t. record an {
              type = t;
              macvlan = canonicalize_macvlans to_lower (canonicalize_macvlans to_lower an.macvlan);
            })
            (type_corrected "SimpleMacvlan" refl)
          ∙ ap (λ m. record an { type = "SimpleMacvlan"; macvlan = m }) (macvlan_kept an.macvlan),
    )
