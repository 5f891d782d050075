-- ===== src/CheckEndpoints/Updates/Processing.antt =====
-- What `Process` hands to the processor, and what stays in the manager.
use cluster_network_operator.Prelude.{
  ◌≤◌, ◌≡◌, ◌⊎◌, Bool, true, false, List, [], ◌∷◌, length, arith,
}
use cluster_network_operator.CheckEndpoints.Updates.{
  UpdatesManager, pending, process, update_status,
}

module _ {ℓ} {U : Type ℓ} (processor : List U → Bool) (u : UpdatesManager U) where
  -- A flush that succeeds has handed over every update, the ready ones before the waiting ones, and
  -- leaves nothing behind.
  pub flush_complete :
      (process processor true u).success ≡ true
      → ((process processor true u).calls
          ≡ u.processing_queue ∷ pending u.timestamps u.sorting_queue ∷ [])
        × ((process processor true u).manager
            ≡ record u { processing_queue = []; sorting_queue = []; timestamps = [] })
  unfolding process
  flush_complete h = ground arith

  -- When the processor fails, exactly what it did not accept is still there: the whole manager if
  -- the ready updates were refused, and the waiting ones if only those were.
  pub failure_keeps :
      (flush : Bool)
      → (process processor flush u).success ≡ false
      → ((processor u.processing_queue ≡ false) × ((process processor flush u).manager ≡ u))
        ⊎ ((flush ≡ true)
            × (processor u.processing_queue ≡ true)
            × (processor (pending u.timestamps u.sorting_queue) ≡ false)
            × ((process processor flush u).manager ≡ record u { processing_queue = [] }))
  unfolding process
  failure_keeps flush h = ground arith

  -- The checker's own calls never flush, not even the last one before it stops: up to twenty ready
  -- updates, and all waiting ones, are not sent.
  pub stop_drops_updates :
      (last : Bool)
      → length u.processing_queue ≤ 20
      → ((update_status processor last u).calls ≡ [])
        × ((update_status processor last u).manager ≡ u)
        × ((update_status processor last u).success ≡ true)
  unfolding update_status
  stop_drops_updates last few = ground arith
