-- ===== src/Prelude/Sort.antt =====
-- `sort.SliceStable` and `sort.Slice` of the Go library: a stable sort by a strict order.
use mathlib.Core.Path.{◌≡◌, refl}
use mathlib.Core.Bool.{Bool, true, false}
use mathlib.Core.Logic.{inl, inr}
use mathlib.Core.List.{List, [], ◌∷◌, Perm}
use mathlib.Core.List.Perm
use native.Mathlib.Omega.{arith}
use cluster_network_operator.Prelude.Tests.{if◌then◌else◌, Bool-cases}

module _ {ℓ} {A : Type ℓ} (less : A → A → Bool) where
  -- behind everything that is less, and before what it does not compare with
  unfoldable pub insert_sorted : A → List A → List A
  insert_sorted x [] = x ∷ []
  insert_sorted x (y ∷ ys) = if less y x then y ∷ insert_sorted x ys else x ∷ y ∷ ys

  unfoldable pub stable_sort : List A → List A
  unfolding insert_sorted
  stable_sort [] = []
  stable_sort (x ∷ xs) = insert_sorted x (stable_sort xs)

  -- no element is less than the one before it
  abbrev pub HeadIsLeast : A → List A → Type 0
  HeadIsLeast x [] = Unit {0}
  HeadIsLeast x (y ∷ ys) = less y x ≡ false

  abbrev pub IsSorted : List A → Type 0
  IsSorted [] = Unit {0}
  IsSorted (x ∷ xs) = HeadIsLeast x xs × IsSorted xs

  perm-insert_sorted : (x : A) (xs : List A) → Perm (insert_sorted x xs) (x ∷ xs)
  unfolding insert_sorted
  perm-insert_sorted x [] = Perm.refl (x ∷ [])
  perm-insert_sorted x (y ∷ ys) = elim (Bool-cases (less y x)) [
    | inl h ↦ rw h (Perm.trans (Perm.cons y (perm-insert_sorted x ys)) (Perm.swap x y ys))
    | inr h ↦ rw h (Perm.refl (x ∷ y ∷ ys))
  ]

  pub perm-stable_sort : (xs : List A) → Perm (stable_sort xs) xs
  unfolding stable_sort
  perm-stable_sort [] = Perm.refl []
  perm-stable_sort (x ∷ xs) =
      Perm.trans (perm-insert_sorted x (stable_sort xs)) (Perm.cons x (perm-stable_sort xs))

  module _ (asymmetric : (x y : A) → less x y ≡ true → less y x ≡ false) where
    head-insert_sorted :
        (x y : A) (ys : List A)
        → less y x ≡ true
        → HeadIsLeast y ys
        → HeadIsLeast y (insert_sorted x ys)
    unfolding insert_sorted
    head-insert_sorted x y [] h k = asymmetric y x h
    head-insert_sorted x y (z ∷ zs) h k = ground (arith, asymmetric y x)

    insert_sorted-IsSorted : (x : A) (xs : List A) → IsSorted xs → IsSorted (insert_sorted x xs)
    unfolding insert_sorted
    insert_sorted-IsSorted x [] s = (tt, tt)
    insert_sorted-IsSorted x (y ∷ ys) s = elim (Bool-cases (less y x)) [
      | inl h ↦ rw h (head-insert_sorted x y ys h s.0, insert_sorted-IsSorted x ys s.1)
      | inr h ↦ rw h (h, s)
    ]

    pub stable_sort-IsSorted : (xs : List A) → IsSorted (stable_sort xs)
    unfolding stable_sort
    stable_sort-IsSorted [] = tt
    stable_sort-IsSorted (x ∷ xs) =
        insert_sorted-IsSorted x (stable_sort xs) (stable_sort-IsSorted xs)

  -- Sorting leaves a sorted list as it is.
  pub stable_sort_of_IsSorted : (xs : List A) → IsSorted xs → stable_sort xs ≡ xs
  unfolding stable_sort
  stable_sort_of_IsSorted [] s = refl
  stable_sort_of_IsSorted (x ∷ []) s = refl
  stable_sort_of_IsSorted (x ∷ y ∷ ys) s = rw (stable_sort_of_IsSorted (y ∷ ys) s.1) (rw s.0)
