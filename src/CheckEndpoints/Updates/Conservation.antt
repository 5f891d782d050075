-- ===== src/CheckEndpoints/Updates/Conservation.antt =====
-- `Add` as a whole: what becomes of the updates and their order.
use mathlib.Core.List.{append-nil, append_assoc, Perm, perm_append_comm}
use mathlib.Core.List.Perm
use cluster_network_operator.Prelude.{
  ℕ, ◌≡◌, ◌≢◌, sym, subst, List, [], ◌∷◌, ◌++◌, inl, inr, Bool-cases, All-append, Dict, insert,
  nat_eq, insert_sorted, stable_sort, stable_sort-IsSorted,
}
use cluster_network_operator.CheckEndpoints.Updates.{
  UpdatesManager, before, updates_at, last_or, add, pending,
}
use cluster_network_operator.CheckEndpoints.Updates.Queue.{
  Fresh, Distinct, before_asymmetric, updates_at-insert_self, pending-insert, pending-append,
  release_ready-in_order,
}

Fresh-insert_sorted :
    (s t : ℕ) (ts : List ℕ) → t ≢ s → Fresh s ts → Fresh s (insert_sorted before t ts)
unfolding insert_sorted
Fresh-insert_sorted s t [] ne f = (ne, tt)
Fresh-insert_sorted s t (r ∷ ts) ne f = elim (Bool-cases (before r t)) [
  | inl less ↦ rw less (f.0, Fresh-insert_sorted s t ts ne f.1)
  | inr more ↦ rw more (ne, f)
]

Distinct-insert_sorted :
    (t : ℕ) (ts : List ℕ) → Fresh t ts → Distinct ts → Distinct (insert_sorted before t ts)
unfolding insert_sorted
Distinct-insert_sorted t [] f d = (tt, tt)
Distinct-insert_sorted t (r ∷ ts) f d = elim (Bool-cases (before r t)) [
  | inl less ↦
      rw less
        (Fresh-insert_sorted r t ts (λ e. f.0 (sym e)) d.0, Distinct-insert_sorted t ts f.1 d.1)
  | inr more ↦ rw more (f, d)
]

Fresh-stable_sort : (s : ℕ) (ts : List ℕ) → Fresh s ts → Fresh s (stable_sort before ts)
unfolding stable_sort
Fresh-stable_sort s [] f = tt
Fresh-stable_sort s (t ∷ ts) f =
    Fresh-insert_sorted s t (stable_sort before ts) f.0 (Fresh-stable_sort s ts f.1)

Distinct-stable_sort : (ts : List ℕ) → Distinct ts → Distinct (stable_sort before ts)
unfolding stable_sort
Distinct-stable_sort [] d = tt
Distinct-stable_sort (t ∷ ts) d =
    Distinct-insert_sorted t (stable_sort before ts) (Fresh-stable_sort t ts d.0)
      (Distinct-stable_sort ts d.1)

Distinct-append : (ts : List ℕ) (t : ℕ) → Fresh t ts → Distinct ts → Distinct (ts ++ t ∷ [])
Distinct-append [] t f d = (tt, tt)
Distinct-append (s ∷ ts) t f d =
    (All-append (λ r. r ≢ s) ts (t ∷ []) d.0 ((λ e. f.0 (sym e)), tt), Distinct-append ts t f.1 d.1)

module _ {ℓ} {U : Type ℓ} where
  swap_front : (xs ys zs : List U) → Perm (xs ++ (ys ++ zs)) (ys ++ (xs ++ zs))
  swap_front xs ys zs =
      subst (λ l. Perm l (ys ++ (xs ++ zs))) (append_assoc xs ys zs)
        (subst (λ r. Perm ((xs ++ ys) ++ zs) r) (append_assoc ys xs zs)
          (Perm.append_right zs (perm_append_comm xs ys)))

  perm-pending-insert_sorted :
      (t : ℕ) (ts : List ℕ) (queue : Dict ℕ (List U))
      → Perm (pending (insert_sorted before t ts) queue) (updates_at t queue ++ pending ts queue)
  unfolding insert_sorted pending
  perm-pending-insert_sorted t [] queue = Perm.refl _
  perm-pending-insert_sorted t (s ∷ ts) queue = elim (Bool-cases (before s t)) [
    | inl less ↦ rw less (
        Perm.trans (Perm.append_left (updates_at s queue) (perm-pending-insert_sorted t ts queue))
          (swap_front (updates_at s queue) (updates_at t queue) (pending ts queue)))
    | inr more ↦ rw more (Perm.refl _)
  ]

  perm-pending-stable_sort :
      (ts : List ℕ) (queue : Dict ℕ (List U))
      → Perm (pending (stable_sort before ts) queue) (pending ts queue)
  unfolding stable_sort pending
  perm-pending-stable_sort [] queue = Perm.refl _
  perm-pending-stable_sort (t ∷ ts) queue =
      Perm.trans (perm-pending-insert_sorted t (stable_sort before ts) queue)
        (Perm.append_left (updates_at t queue) (perm-pending-stable_sort ts queue))

  pending-new :
      (t : ℕ) (updates : List U) (ts : List ℕ) (queue : Dict ℕ (List U))
      → Fresh t ts
      → pending (ts ++ t ∷ []) (insert t updates queue) ≡ pending ts queue ++ updates
  pending-new t updates ts queue fresh =
      rw
        (
          pending-append ts (t ∷ []) (insert t updates queue),
          pending-insert t updates ts queue fresh,
        )
        (unfold pending in rw (updates_at-insert_self t updates queue, append-nil))

  -- With distinct timestamps, a new one among them, adding a set of updates keeps everything: the
  -- ready updates followed by the waiting ones, in the order of their timestamps, are what was ready
  -- before, followed by the old waiting and the new updates in the order of all the timestamps.
  pub add-in_order :
      (u : UpdatesManager U) (t : ℕ) (updates : List U)
      → Distinct u.timestamps
      → Fresh t u.timestamps
      → let v = add t updates u in
        v.processing_queue ++ pending v.timestamps v.sorting_queue
        ≡ u.processing_queue
          ++ pending
              (stable_sort before (u.timestamps ++ t ∷ []))
              (insert t updates u.sorting_queue)
  unfolding add
  add-in_order u t updates distinct fresh =
      let sorted = stable_sort before (u.timestamps ++ t ∷ []) in
      release_ready-in_order (last_or t sorted) sorted
        (record u { sorting_queue = insert t updates u.sorting_queue })
        (stable_sort-IsSorted before before_asymmetric (u.timestamps ++ t ∷ []))
        (Distinct-stable_sort (u.timestamps ++ t ∷ [])
          (Distinct-append u.timestamps t fresh distinct))

  -- With distinct timestamps, a new one among them, no update is lost or repeated when a set of
  -- updates is added.
  pub add-perm :
      (u : UpdatesManager U) (t : ℕ) (updates : List U)
      → Distinct u.timestamps
      → Fresh t u.timestamps
      → let v = add t updates u in
        Perm
          (v.processing_queue ++ pending v.timestamps v.sorting_queue)
          (u.processing_queue ++ (pending u.timestamps u.sorting_queue ++ updates))
  add-perm u t updates distinct fresh = rw (add-in_order u t updates distinct fresh) (
      Perm.append_left u.processing_queue (
        rw (pending-new t updates u.timestamps u.sorting_queue fresh) at
          (perm-pending-stable_sort (u.timestamps ++ t ∷ []) (insert t updates u.sorting_queue))))
