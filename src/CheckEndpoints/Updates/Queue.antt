-- ===== src/CheckEndpoints/Updates/Queue.antt =====
-- What `Add` does to the updates in the manager, in the order of their timestamps.
use mathlib.Core.List.{append_assoc}
use cluster_network_operator.Prelude.{
  ℕ, ◌≤◌, ◌≡◌, ◌≢◌, refl, sym, ◌∙◌, true, false, List, [], ◌∷◌, ◌++◌, inl, inr, Bool-cases,
  ltb_false→le, All, Dict, insert, remove, nat_eq, arith, IsSorted, lookup-insert, lookup-remove,
  ◌==◌, ==_refl,
}
use cluster_network_operator.CheckEndpoints.Updates.{
  UpdatesManager, before, updates_at, is_ready, release, release_ready, pending,
}

-- `t` is not among the timestamps
abbrev pub Fresh : ℕ → List ℕ → Type 0
Fresh t = All (λ s. s ≢ t)

abbrev pub Distinct : List ℕ → Type 0
Distinct [] = Unit {0}
Distinct (t ∷ timestamps) = Fresh t timestamps × Distinct timestamps

pub before_asymmetric : (s t : ℕ) → before s t ≡ true → before t s ≡ false
before_asymmetric s t h = ground arith

not_same : (s t : ℕ) → s ≢ t → (s == t) ≡ false
not_same s t h = ground arith

module _ {ℓ} {U : Type ℓ} where
  updates_at-remove :
      (s t : ℕ) (queue : Dict ℕ (List U))
      → s ≢ t
      → updates_at s (remove t queue) ≡ updates_at s queue
  updates_at-remove s t queue h = rw (lookup-remove t s queue, not_same t s (λ e. h (sym e)))

  updates_at-insert_ne :
      (s t : ℕ) (us : List U) (queue : Dict ℕ (List U))
      → s ≢ t
      → updates_at s (insert t us queue) ≡ updates_at s queue
  updates_at-insert_ne s t us queue h =
      rw (lookup-insert t s us queue, not_same t s (λ e. h (sym e)))

  pub updates_at-insert_self :
      (t : ℕ) (us : List U) (queue : Dict ℕ (List U)) → updates_at t (insert t us queue) ≡ us
  updates_at-insert_self t us queue = rw (lookup-insert t t us queue, ==_refl t)

  pending-remove :
      (t : ℕ) (timestamps : List ℕ) (queue : Dict ℕ (List U))
      → Fresh t timestamps
      → pending timestamps (remove t queue) ≡ pending timestamps queue
  unfolding pending
  pending-remove t [] queue f = refl
  pending-remove t (s ∷ timestamps) queue f =
      rw (updates_at-remove s t queue f.0) (rw (pending-remove t timestamps queue f.1))

  pub pending-insert :
      (t : ℕ) (us : List U) (timestamps : List ℕ) (queue : Dict ℕ (List U))
      → Fresh t timestamps
      → pending timestamps (insert t us queue) ≡ pending timestamps queue
  unfolding pending
  pending-insert t us [] queue f = refl
  pending-insert t us (s ∷ timestamps) queue f =
      rw (updates_at-insert_ne s t us queue f.0) (rw (pending-insert t us timestamps queue f.1))

  pub pending-append :
      (ss ts : List ℕ) (queue : Dict ℕ (List U))
      → pending (ss ++ ts) queue ≡ pending ss queue ++ pending ts queue
  unfolding pending
  pending-append [] ts queue = refl
  pending-append (s ∷ ss) ts queue = rw (pending-append ss ts queue, append_assoc)

  release-pending :
      (u : UpdatesManager U) (t : ℕ) (timestamps : List ℕ)
      → Fresh t timestamps
      → (release u t).processing_queue ++ pending timestamps (release u t).sorting_queue
        ≡ u.processing_queue ++ pending (t ∷ timestamps) u.sorting_queue
  unfolding release pending
  release-pending u t timestamps fresh =
      rw (pending-remove t timestamps u.sorting_queue fresh, append_assoc)

  -- what waits makes everything later wait
  is_ready-later :
      (u : UpdatesManager U) (latest s t : ℕ)
      → s ≤ t
      → is_ready u latest s ≡ false
      → is_ready u latest t ≡ false
  unfolding is_ready
  is_ready-later u latest s t h w = ground arith

  release_ready_step :
      (latest t : ℕ) (timestamps : List ℕ) (u : UpdatesManager U)
      → is_ready u latest t ≡ true
      → release_ready latest (t ∷ timestamps) u ≡ release_ready latest timestamps (release u t)
  unfolding release_ready
  release_ready_step latest t timestamps u ready = rw ready

  release_ready_wait :
      (latest t : ℕ) (timestamps : List ℕ) (u : UpdatesManager U)
      → is_ready u latest t ≡ false
      → release_ready latest (t ∷ timestamps) u
        ≡ (let (v, requeue) = release_ready latest timestamps u in (v, t ∷ requeue))
  unfolding release_ready
  release_ready_wait latest t timestamps u waits = rw waits

  all_waiting :
      (u : UpdatesManager U) (latest t : ℕ) (timestamps : List ℕ)
      → IsSorted before (t ∷ timestamps)
      → is_ready u latest t ≡ false
      → release_ready latest (t ∷ timestamps) u ≡ (u, t ∷ timestamps)
  all_waiting u latest t [] sorted w =
      rw (release_ready_wait latest t [] u w) (unfold release_ready in refl)
  all_waiting u latest t (s ∷ timestamps) sorted w =
      let later = is_ready-later u latest t s (ltb_false→le s t sorted.0) w in
      rw (release_ready_wait latest t (s ∷ timestamps) u w)
        (rw (all_waiting u latest s timestamps sorted.1 later))

  pub release_ready-in_order :
      (latest : ℕ) (timestamps : List ℕ) (u : UpdatesManager U)
      → IsSorted before timestamps
      → Distinct timestamps
      → let (v, requeue) = release_ready latest timestamps u in
        v.processing_queue ++ pending requeue v.sorting_queue
        ≡ u.processing_queue ++ pending timestamps u.sorting_queue
  release_ready-in_order latest [] u sorted distinct = unfold release_ready in refl
  release_ready-in_order latest (t ∷ timestamps) u sorted distinct =
      elim (Bool-cases (is_ready u latest t)) [
        | inl ready ↦ rw (release_ready_step latest t timestamps u ready) (
            release_ready-in_order latest timestamps (release u t) sorted.1 distinct.1
            ∙ release-pending u t timestamps distinct.0)
        | inr waits ↦ rw (all_waiting u latest t timestamps sorted waits)
      ]
