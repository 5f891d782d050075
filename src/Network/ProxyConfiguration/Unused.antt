-- ===== src/Network/ProxyConfiguration/Unused.antt =====
-- Which values are merged, and what becomes of arguments that no getter knows.
use cluster_network_operator.Prelude.{
  String, ◌≡◌, refl, sym, ap, ◌∙◌, inl, inr, false, Bool-cases, List, [], ◌∷◌, Option, none, some,
  ◌==◌, string_eq, lookup, lookup-insert, arith, if◌then◌else◌, ok, fail,
}
use cluster_network_operator.Network.Pools.{is_nil}
use cluster_network_operator.Network.ProxyArguments.{
  Arguments, merge_into, last_value, merge_kube_proxy_arguments, ArgumentError, KpcArgs,
  ArgumentLibrary,
}
use cluster_network_operator.Network.ProxyConfiguration.{
  configuration, get_error, generate_kube_proxy_configuration,
}
use cluster_network_operator.Network.ProxyConfiguration.Untouched.{
  IsUnknown, Untouched, configuration-Untouched,
}

empty_value :
    (v : String) (values : List String)
    → ◌≡◌ {A = Option (List String)} (some []) (some (v ∷ values))
    → ⊥
empty_value v values h = absurd (ground (arith, h))

some_value : (values : List String) → ◌≡◌ {A = Option (List String)} (some values) none → ⊥
some_value values h = absurd (ground (arith, h))

-- the last of the values that are found
last_option : Option (List String) → Option (List String)
last_option none = none
last_option (some values) = some (last_value values)

merge_given :
    (k v : String) (values : List String) (args given : Arguments)
    → lookup k given ≡ some (v ∷ values)
    → lookup k (merge_into args given) ≡ some (last_value (v ∷ values))
unfolding lookup merge_into last_option
merge_given k v values args [] h = absurd (ground arith)
merge_given k v values args ((key, []) ∷ given) h = elim (Bool-cases (key == k)) [
  | inl e ↦ absurd (empty_value v values (rw e at h))
  | inr n ↦ merge_given k v values args given (rw n at h)
]
merge_given k v values args ((key, w ∷ ws) ∷ given) h =
    let here = lookup-insert key k (last_value (w ∷ ws)) (merge_into args given) in
    elim (Bool-cases (key == k)) [
      | inl e ↦ here ∙ rw e (ap last_option (rw e at h))
      | inr n ↦ here ∙ rw n (merge_given k v values args given (rw n at h))
    ]

merge_absent :
    (k : String) (args given : Arguments)
    → lookup k given ≡ none
    → lookup k (merge_into args given) ≡ lookup k args
unfolding lookup merge_into
merge_absent k args [] h = refl
merge_absent k args ((key, []) ∷ given) h = elim (Bool-cases (key == k)) [
  | inl e ↦ absurd (some_value [] (rw e at h))
  | inr n ↦ merge_absent k args given (rw n at h)
]
merge_absent k args ((key, w ∷ ws) ∷ given) h = elim (Bool-cases (key == k)) [
  | inl e ↦ absurd (some_value (w ∷ ws) (rw e at h))
  | inr n ↦
      lookup-insert key k (last_value (w ∷ ws)) (merge_into args given)
      ∙ rw n (merge_absent k args given (rw n at h))
]

-- Of an argument that the overrides have a value for, the last value is taken, whatever the defaults
-- have.
pub merge_kube_proxy_arguments-overrides :
    (k v : String) (values : List String) (defaults overrides : Arguments)
    → lookup k overrides ≡ some (v ∷ values)
    → lookup k (merge_kube_proxy_arguments defaults overrides) ≡ some (last_value (v ∷ values))
unfolding merge_kube_proxy_arguments
merge_kube_proxy_arguments-overrides k v values defaults overrides given =
    merge_given k v values (merge_into [] defaults) overrides given

-- An argument that the overrides do not have is the default's, with the last of its values.
pub merge_kube_proxy_arguments-defaults :
    (k v : String) (values : List String) (defaults overrides : Arguments)
    → lookup k overrides ≡ none
    → lookup k defaults ≡ some (v ∷ values)
    → lookup k (merge_kube_proxy_arguments defaults overrides) ≡ some (last_value (v ∷ values))
unfolding merge_kube_proxy_arguments
merge_kube_proxy_arguments-defaults k v values defaults overrides absent given =
    merge_absent k (merge_into [] defaults) overrides absent
    ∙ merge_given k v values [] defaults given

some_left :
    (k : String) (vs : List String) (args : Arguments)
    → lookup k args ≡ some vs
    → is_nil args ≡ false
unfolding lookup
some_left k vs [] h = absurd (some_value vs (sym h))
some_left k vs (entry ∷ args) h = refl

left_over :
    (lib : ArgumentLibrary) (k : String) (vs : List String) (ka : KpcArgs)
    → lookup k ka.args ≡ some vs
    → is_nil (get_error lib ka) ≡ false
unfolding get_error lookup
left_over lib k vs ka h = elim (Bool-cases (is_nil ka.errs)) [
  | inr errors ↦ rw errors (rw errors refl)
  | inl clean ↦ rw clean (rw (some_left k vs ka.args h) refl)
]

fails {ℓ} :
    {A : Type ℓ} (a : A) (errors : List ArgumentError)
    → is_nil errors ≡ false
    → (e : List ArgumentError) × ((if is_nil errors then ok a else fail errors) ≡ fail e)
fails a errors h = (errors, rw h refl)

-- An argument that has a value, and that the configuration does not know, is an error.
pub generate_kube_proxy_configuration-unused :
    (lib : ArgumentLibrary) (k v : String) (values : List String) (args : Arguments)
    → IsUnknown k
    → lookup k args ≡ some (v ∷ values)
    → (errors : List ArgumentError) × (generate_kube_proxy_configuration lib args ≡ fail errors)
unfolding generate_kube_proxy_configuration Untouched lookup
generate_kube_proxy_configuration-unused lib k v values args unknown given =
    let start : KpcArgs = record { args = merge_kube_proxy_arguments args []; errs = [] } in
    let ka = (configuration lib start).1 in
    fails _ (get_error lib ka) (
      left_over lib k (last_value (v ∷ values)) ka (
        configuration-Untouched k lib unknown start
        ∙ merge_kube_proxy_arguments-defaults k v values args [] refl given))
