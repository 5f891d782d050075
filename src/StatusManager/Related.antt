-- ===== src/StatusManager/Related.antt =====
-- `deleteRelatedObjectsNotRendered` for the objects of the cluster itself: what the last status lists
-- and the manifests no longer render is deleted, or listed again where that has to wait. Finding the
-- kind of a resource and deleting an object are calls of the API: their results are an argument.
pub mod Safety
use cluster_network_operator.Prelude.{
  String, ◌≡◌, ◌≢◌, refl, ◌⊎◌, inl, inr, Bool, true, false, ◌&&◌, not, List, [], ◌∷◌, ◌++◌, Option,
  none, some, any, All, Bool-cases, Eq, ◌==◌, string_eq, ==_iff, if◌then◌else◌, arith, eq_iff, ◌↔◌,
}

pub record ObjectReference : Type 0 where
  pub group : String
  pub resource : String
  pub namespace : String
  pub name : String

abbrev pub same_reference : ObjectReference → ObjectReference → Bool
same_reference a b =
    a.group == b.group && a.resource == b.resource && a.namespace == b.namespace && a.name == b.name

pub same_reference_iff : (a b : ObjectReference) → (same_reference a b ≡ true) ↔ (a ≡ b)
same_reference_iff a b = ground (
  arith,
  eq_iff a.group b.group,
  eq_iff a.resource b.resource,
  eq_iff a.namespace b.namespace,
  eq_iff a.name b.name,
)

instance abbrev pub reference_eq : Eq ObjectReference
reference_eq = record { equals = same_reference; decides = same_reference_iff }

pub record GroupKind : Type 0 where
  pub group : String
  pub kind : String

pub data DeleteResult : Type 0 where
  deleted not_found delete_failed : DeleteResult

pub record RelatedApi : Type 0 where
  pub kind_for : ObjectReference → Option GroupKind
  pub delete : ObjectReference → DeleteResult

abbrev pub keep_crds : List String
keep_crds =
    "frrconfigurations.frrk8s.metallb.io" ∷ "routeadvertisements.k8s.ovn.org" ∷ "vteps.k8s.ovn.org"
    ∷ []

abbrev pub is_operator_network : GroupKind → Bool
is_operator_network gk = gk.kind == "Network" && gk.group == "operator.openshift.io"

abbrev pub is_rbac : GroupKind → Bool
is_rbac gk = gk.group == "rbac.authorization.k8s.io"

abbrev pub is_kept_crd : GroupKind → ObjectReference → Bool
is_kept_crd gk object =
    gk.kind == "CustomResourceDefinition"
    && gk.group == "apiextensions.k8s.io"
    && any (λ n. n == object.name) keep_crds

-- what becomes of an object that is not rendered: it is listed again, left alone, or deleted
pub data Fate : Type 0 where
  relisted left_alone attempted : Fate

unfoldable pub fate_of_kind : Bool → GroupKind → ObjectReference → Fate
fate_of_kind install_complete gk object =
    if is_operator_network gk
    then left_alone
    else if object.name == ""
    then left_alone
    else if not install_complete && is_rbac gk
    then relisted
    else if is_kept_crd gk object
    then left_alone
    else attempted

unfoldable pub fate : RelatedApi → Bool → ObjectReference → Fate
unfolding fate_of_kind
fate api install_complete object = elim (api.kind_for object) [
  | none ↦ relisted
  | some gk ↦ fate_of_kind install_complete gk object
]

abbrev pub failed_delete : DeleteResult → Bool
failed_delete deleted = false
failed_delete not_found = false
failed_delete delete_failed = true

abbrev pub is_relisted : Fate → DeleteResult → Bool
is_relisted relisted result = true
is_relisted left_alone result = false
is_relisted attempted result = failed_delete result

abbrev pub is_attempted : Fate → Bool
is_attempted attempted = true
is_attempted _ = false

abbrev pub listed : List ObjectReference → ObjectReference → Bool
listed related object = any (λ r. r == object) related

module _ (api : RelatedApi) (install_complete : Bool) where
  -- one object of the last status: the related objects after it, and whether it was deleted
  unfoldable pub delete_step :
      ObjectReference → List ObjectReference → List ObjectReference × List ObjectReference
  unfolding fate
  delete_step object related =
      let f = fate api install_complete object in
      if listed related object then (related, []) else (
        if is_relisted f (api.delete object) then related ++ object ∷ [] else related,
        if is_attempted f then object ∷ [] else [],
      )

  -- the loop: the related objects grow while it runs
  unfoldable pub delete_not_rendered :
      List ObjectReference → List ObjectReference → List ObjectReference × List ObjectReference
  unfolding delete_step
  delete_not_rendered [] related = (related, [])
  delete_not_rendered (object ∷ current) related =
      let (related', attempts) = delete_step object related in
      let (final, later) = delete_not_rendered current related' in (final, attempts ++ later)

-- A nil list of related objects stays as it is.
unfoldable pub delete_related_objects_not_rendered :
    RelatedApi
    → Bool
    → List ObjectReference
    → Option (List ObjectReference)
    → Option (List ObjectReference) × List ObjectReference
unfolding delete_not_rendered
delete_related_objects_not_rendered api install_complete current none = (none, [])
delete_related_objects_not_rendered api install_complete current (some related) =
    let (final, attempts) = delete_not_rendered api install_complete current related in
    (some final, attempts)
