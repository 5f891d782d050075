-- ===== src/Prelude/Maps.antt =====
-- Go maps: association lists with distinct keys, over any type of keys that `==` decides.
use mathlib.Core.Path.{◌≡◌, refl}
use mathlib.Core.Bool.{Bool, true, false}
use mathlib.Core.Logic.{inl, inr}
use mathlib.Core.List.{List, [], ◌∷◌}
use mathlib.Core.Option.{Option, none, some}
use native.Mathlib.Omega.{arith}
use cluster_network_operator.Prelude.Tests.{if◌then◌else◌, Bool-cases}
use cluster_network_operator.Prelude.Equality.{Eq, ◌==◌}

abbrev pub Dict {ℓ κ} : Type ℓ → Type κ → Type (ℓ ⊔ κ)
Dict K V = List (K × V)

abbrev pub is_some {ℓ} : {A : Type ℓ} → Option A → Bool
is_some none = false
is_some (some _) = true

module _ {ℓ κ} {K : Type ℓ} ⦃e : Eq K⦄ {V : Type κ} where
  -- v, ok := m[k]
  unfoldable pub lookup : K → Dict K V → Option V
  lookup wanted [] = none
  lookup wanted ((key, value) ∷ entries) =
      if key == wanted then some value else lookup wanted entries

  -- m[k] = v
  unfoldable pub insert : K → V → Dict K V → Dict K V
  insert new value [] = (new, value) ∷ []
  insert new value ((key, old) ∷ entries) =
      if key == new then (new, value) ∷ entries else (key, old) ∷ insert new value entries

  -- delete(m, k), of every entry with the key
  unfoldable pub remove : K → Dict K V → Dict K V
  remove k [] = []
  remove k ((j, w) ∷ m) = let rest = remove k m in if j == k then rest else (j, w) ∷ rest

  pub lookup_cons_ne :
      (k j : K) (v : V) (m : Dict K V) → (j == k) ≡ false → lookup k ((j, v) ∷ m) ≡ lookup k m
  unfolding lookup
  lookup_cons_ne k j v m h = rw h

  pub lookup_cons_eq :
      (k j : K) (v : V) (m : Dict K V) → (j == k) ≡ true → lookup k ((j, v) ∷ m) ≡ some v
  unfolding lookup
  lookup_cons_eq k j v m h = rw h

  pub insert_cons_ne :
      (k j : K) (v w : V) (m : Dict K V)
      → (j == k) ≡ false
      → insert k v ((j, w) ∷ m) ≡ (j, w) ∷ insert k v m
  unfolding insert
  insert_cons_ne k j v w m h = rw h

  pub insert_cons_eq :
      (k j : K) (v w : V) (m : Dict K V) → (j == k) ≡ true → insert k v ((j, w) ∷ m) ≡ (k, v) ∷ m
  unfolding insert
  insert_cons_eq k j v w m h = rw h

  pub lookup-insert :
      (written read : K) (v : V) (entries : Dict K V)
      → lookup read (insert written v entries)
        ≡ (if written == read then some v else lookup read entries)
  unfolding lookup insert
  lookup-insert written read v [] = refl
  lookup-insert written read v ((key, old) ∷ entries) = ground (
    arith,
    e.decides written read,
    e.decides key written,
    e.decides key read,
    lookup-insert written read v entries,
  )

  pub lookup-remove :
      (k j : K) (m : Dict K V) → lookup j (remove k m) ≡ (if k == j then none else lookup j m)
  unfolding lookup remove
  lookup-remove k j [] = elim (Bool-cases (k == j)) [ inl h ↦ rw h | inr h ↦ rw h ]
  lookup-remove k j ((i, w) ∷ m) =
      ground (arith, e.decides k j, e.decides i k, e.decides i j, lookup-remove k j m)

pub ruleset dict_laws = (lookup-insert, lookup-remove)
