-- ===== src/StatusManager/Workloads/Hang.antt =====
-- When a rollout counts as hanging, over the passes that look at its object.
use cluster_network_operator.Prelude.{
  ℕ, ◌-◌, ◌≡◌, ◌≢◌, refl, ◌∙◌, ap, true, false, List, [], ◌∷◌, none, some, Eq, ◌==◌, ==_refl,
  ==_iff, ltb, Dict, lookup, lookup-insert, arith, inl, inr, Bool-cases,
}
use cluster_network_operator.StatusManager.Workloads.{
  ClusteredName, name_eq, Workload, LastSeen, is_blocking, progress_timeout, refreshed, is_hung,
  track_workload,
}

module _ {ℓ} {S : Type ℓ} ⦃e : Eq S⦄ (w : Workload S) (blocking : is_blocking w ≡ true) where
  -- passes that find the object as it is, one after the other
  pub passes : List ℕ → Dict ClusteredName (LastSeen S) → Dict ClusteredName (LastSeen S)
  unfolding track_workload
  passes [] states = states
  passes (now ∷ times) states = passes times (track_workload now w states).0

  lookup-track :
      (now : ℕ) (states : Dict ClusteredName (LastSeen S))
      → lookup w.name (track_workload now w states).0
        ≡ some (refreshed now w.status (lookup w.name states))
  unfolding track_workload
  lookup-track now states = rw blocking (
      rw (
        lookup-insert w.name w.name (refreshed now w.status (lookup w.name states)) states,
        ==_refl w.name,
      ))

  track-hung :
      (now : ℕ) (states : Dict ClusteredName (LastSeen S))
      → (track_workload now w states).1 ≡ is_hung now w.status (lookup w.name states)
  unfolding track_workload
  track-hung now states = rw blocking

  refreshed_same :
      (now : ℕ) (last : LastSeen S)
      → last.status ≡ w.status
      → refreshed now w.status (some last) ≡ last
  unfolding refreshed
  refreshed_same now last same = rw (same, ==_refl w.status)

  passes-lookup :
      (times : List ℕ) (last : LastSeen S) (states : Dict ClusteredName (LastSeen S))
      → lookup w.name states ≡ some last
      → last.status ≡ w.status
      → lookup w.name (passes times states) ≡ some last
  unfolding passes
  passes-lookup [] last states h same = h
  passes-lookup (now ∷ times) last states h same =
      passes-lookup times last (track_workload now w states).0
        (lookup-track now states
          ∙ (ap (λ l. some (refreshed now w.status l)) h ∙ ap some (refreshed_same now last same)))
        same

  -- An object that was not blocking before is found blocking with one and the same status in any
  -- number of passes: the pass at `now` finds it hung exactly if more than ten minutes have gone since
  -- the first of them.
  pub hung_iff_unchanged :
      (first now : ℕ) (times : List ℕ) (states : Dict ClusteredName (LastSeen S))
      → lookup w.name states ≡ none
      → (track_workload now w (passes (first ∷ times) states)).1
        ≡ ltb progress_timeout (now - first)
  unfolding passes is_hung refreshed
  hung_iff_unchanged first now times states fresh =
      let last : LastSeen S = record { status = w.status; change_time = first } in
      let seen : lookup w.name (track_workload first w states).0 ≡ some last =
        lookup-track first states ∙ ap (λ l. some (refreshed first w.status l)) fresh in
      track-hung now (passes (first ∷ times) states)
      ∙ (ap (is_hung now w.status)
            (passes-lookup times last (track_workload first w states).0 seen refl)
          ∙ ap (λ l. ltb progress_timeout (now - l.change_time)) (refreshed_same now last refl))

  -- A blocking object whose status has changed since the last pass is not hung, however long ago that
  -- was, and its ten minutes start again.
  pub change_restarts :
      (now : ℕ) (last : LastSeen S) (states : Dict ClusteredName (LastSeen S))
      → lookup w.name states ≡ some last
      → last.status ≢ w.status
      → ((track_workload now w states).1 ≡ false)
        × (lookup w.name (track_workload now w states).0
            ≡ some (record { status = w.status; change_time = now }))
  unfolding is_hung refreshed
  change_restarts now last states h changed =
      let other : (last.status == w.status) ≡ false = elim (Bool-cases (last.status == w.status)) [
        | inl same ↦ absurd (changed ((==_iff last.status w.status).0 same))
        | inr differs ↦ differs
      ] in
      (
        track-hung now states ∙ (ap (is_hung now w.status) h ∙ rw other (ground arith)),
        lookup-track now states ∙ (ap (λ l. some (refreshed now w.status l)) h ∙ rw other),
      )
