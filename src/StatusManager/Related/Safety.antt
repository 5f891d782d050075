-- ===== src/StatusManager/Related/Safety.antt =====
-- What the clean-up of related objects deletes, and what it never loses.
use mathlib.Core.List.{append-nil, append_assoc}
use cluster_network_operator.Prelude.{
  ◌≡◌, ◌≢◌, refl, ◌∙◌, ap, subst, ◌⊎◌, inl, inr, Bool, true, false, ◌||◌, List, [], ◌∷◌, ◌++◌, some,
  All, All-append, Bool-cases, Option-cases, arith, eq_iff, string_eq,
}
use cluster_network_operator.StatusManager.Related.{
  ObjectReference, reference_eq, GroupKind, RelatedApi, is_operator_network, is_rbac, is_kept_crd,
  left_alone, attempted, fate, fate_of_kind, failed_delete, is_relisted, is_attempted, listed,
  delete_step, delete_not_rendered,
}

listed-append :
    (xs ys : List ObjectReference) (o : ObjectReference)
    → listed (xs ++ ys) o ≡ (listed xs o || listed ys o)
listed-append [] ys o = refl
listed-append (x ∷ xs) ys o = ground (arith, listed-append xs ys o)

-- an object of this kind may be deleted
abbrev pub MayDelete : Bool → GroupKind → ObjectReference → Type 0
MayDelete install_complete gk object =
    (is_operator_network gk ≡ false)
    × (object.name ≢ "")
    × ((install_complete ≡ true) ⊎ (is_rbac gk ≡ false))
    × (is_kept_crd gk object ≡ false)

fate_of_kind-MayDelete :
    (install_complete : Bool) (gk : GroupKind) (object : ObjectReference)
    → is_attempted (fate_of_kind install_complete gk object) ≡ true
    → MayDelete install_complete gk object
unfolding fate_of_kind
fate_of_kind-MayDelete install_complete gk object h = ground (arith, eq_iff object.name "")

module _ (api : RelatedApi) (install_complete : Bool) where
  -- what justifies the deletion of an object
  abbrev pub Justified : List ObjectReference → ObjectReference → Type 0
  Justified related object =
      (listed related object ≡ false)
      × ((gk : GroupKind) × (api.kind_for object ≡ some gk) × MayDelete install_complete gk object)

  fate-MayDelete :
      (object : ObjectReference)
      → is_attempted (fate api install_complete object) ≡ true
      → (gk : GroupKind) × (api.kind_for object ≡ some gk) × MayDelete install_complete gk object
  unfolding fate
  fate-MayDelete object h = elim (Option-cases (api.kind_for object)) [
    | inl e ↦ absurd (ground (arith, e, h))
    | inr (gk, e) ↦ (gk, e, fate_of_kind-MayDelete install_complete gk object (rw (e, fate) at h))
  ]

  delete_step-Justified :
      (object : ObjectReference) (related : List ObjectReference)
      → All (Justified related) (delete_step api install_complete object related).1
  unfolding delete_step
  delete_step-Justified object related = elim (Bool-cases (listed related object)) [
    | inl old ↦ rw old tt
    | inr new ↦ elim (Bool-cases (is_attempted (fate api install_complete object))) [
      | inl tried ↦ rw (new, tried) ((new, fate-MayDelete object tried), tt)
      | inr spared ↦ rw (new, spared) tt
    ]
  ]

  delete_step-grows :
      (object : ObjectReference) (related : List ObjectReference)
      → (extra : List ObjectReference) × ((delete_step api install_complete object related).0
          ≡ related ++ extra)
  unfolding delete_step
  delete_step-grows object related = elim (Bool-cases (listed related object)) [
    | inl old ↦ ([], rw (old, append-nil))
    | inr new ↦
        elim (Bool-cases (is_relisted (fate api install_complete object) (api.delete object))) [
          | inl again ↦ (object ∷ [], rw (new, again))
          | inr gone ↦ ([], rw (new, gone, append-nil))
        ]
  ]

  -- The objects that are rendered stay listed, in their order, before those that are listed again.
  pub delete_not_rendered-keeps :
      (current related : List ObjectReference)
      → (extra : List ObjectReference) × ((delete_not_rendered api install_complete current
            related).0
          ≡ related ++ extra)
  unfolding delete_not_rendered
  delete_not_rendered-keeps [] related = ([], rw append-nil)
  delete_not_rendered-keeps (object ∷ current) related =
      let (first, e) = delete_step-grows object related in
      let (rest, f) =
        delete_not_rendered-keeps current (delete_step api install_complete object related).0 in
      (first ++ rest, f ∙ (ap (λ l. l ++ rest) e ∙ append_assoc related first rest))

  Justified-earlier :
      (related extra : List ObjectReference) (attempts : List ObjectReference)
      → All (Justified (related ++ extra)) attempts
      → All (Justified related) attempts
  Justified-earlier related extra [] j = tt
  Justified-earlier related extra (o ∷ attempts) j = (
    (ground (arith, j.0.0, listed-append related extra o), j.0.1),
    Justified-earlier related extra attempts j.1,
  )

  -- Whatever is deleted is not rendered, has a name, is not the operator's own configuration and not
  -- one of the resource definitions that are kept; and it is no access rule unless the installation,
  -- or upgrade, is complete.
  pub delete_not_rendered-Justified :
      (current related : List ObjectReference)
      → All (Justified related) (delete_not_rendered api install_complete current related).1
  unfolding delete_not_rendered
  delete_not_rendered-Justified [] related = tt
  delete_not_rendered-Justified (object ∷ current) related =
      let related' = (delete_step api install_complete object related).0 in
      let (extra, e) = delete_step-grows object related in
      All-append (Justified related) (delete_step api install_complete object related).1
        (delete_not_rendered api install_complete current related').1
        (delete_step-Justified object related)
        (Justified-earlier related extra _ (
          subst
            (λ l. All (Justified l) (delete_not_rendered api install_complete current related').1) e
            (delete_not_rendered-Justified current related')))

  -- what has become of an object: it is listed, was spared for good, or is deleted
  abbrev pub Settled : List ObjectReference → ObjectReference → Type 0
  Settled final object =
      (listed final object ≡ true)
      ⊎ (fate api install_complete object ≡ left_alone)
      ⊎ ((fate api install_complete object ≡ attempted)
          × (failed_delete (api.delete object) ≡ false))
