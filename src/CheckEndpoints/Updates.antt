-- ===== src/CheckEndpoints/Updates.antt =====
-- updates_manager.go: the queue that puts the status updates into the order of their timestamps
-- before they are applied. Times and durations are numbers of nanoseconds; the comparisons of
-- differences (`a.Sub(b) < d`) are written as sums, so that nothing stops at 0. The processor, which
-- applies the updates to the API object, is an argument: it succeeds or fails.
pub mod Queue
pub mod Conservation
pub mod Processing
use cluster_network_operator.Prelude.{
  ℕ, ◌+◌, ◌*◌, Bool, true, false, ◌||◌, List, [], ◌∷◌, ◌++◌, Option, none, some, ltb, length,
  if◌then◌else◌, Dict, lookup, insert, remove, nat_eq, stable_sort,
}

pub record UpdatesManager {ℓ} (U : Type ℓ) : Type ℓ where
  pub check_period : ℕ
  pub check_timeout : ℕ
  pub sorting_queue : Dict ℕ (List U)
  pub timestamps : List ℕ
  pub last_timestamp : ℕ
  pub processing_queue : List U

unfoldable pub new_updates_manager {ℓ} : {U : Type ℓ} → ℕ → ℕ → UpdatesManager U
new_updates_manager check_period check_timeout = record {
  check_period = check_period;
  check_timeout = check_timeout;
  sorting_queue = [];
  timestamps = [];
  last_timestamp = 0;
  processing_queue = [];
}

-- `t1.Before(t2)`
abbrev pub before : ℕ → ℕ → Bool
before s t = ltb s t

-- the last timestamp, or `t` for an empty list
unfoldable pub last_or : ℕ → List ℕ → ℕ
last_or t [] = t
last_or t (s ∷ timestamps) = last_or s timestamps

-- m[k] for a missing key is the nil slice
abbrev pub or_empty {ℓ} : {U : Type ℓ} → Option (List U) → List U
or_empty none = []
or_empty (some us) = us

abbrev pub updates_at {ℓ} : {U : Type ℓ} → ℕ → Dict ℕ (List U) → List U
updates_at t queue = or_empty (lookup t queue)

-- Results of `Process`: whether it succeeded, and what the processor was called with.
pub record Processed {ℓ} (U : Type ℓ) : Type ℓ where
  pub manager : UpdatesManager U
  pub success : Bool
  pub calls : List (List U)

module _ {ℓ} {U : Type ℓ} where
  -- The set of updates came in quickly after the last one, or it has waited long enough for those
  -- that seem to be missing.
  unfoldable pub is_ready : UpdatesManager U → ℕ → ℕ → Bool
  is_ready u latest timestamp =
      ltb timestamp (u.last_timestamp + u.check_period * 2)
      || ltb (timestamp + u.check_timeout + u.check_period) latest

  unfoldable pub release : UpdatesManager U → ℕ → UpdatesManager U
  release u timestamp = record u {
    processing_queue = u.processing_queue ++ updates_at timestamp u.sorting_queue;
    sorting_queue = remove timestamp u.sorting_queue;
    last_timestamp = timestamp;
  }

  -- the loop over the sorted timestamps; the timestamps to queue again are collected at the end
  unfoldable pub release_ready : ℕ → List ℕ → UpdatesManager U → UpdatesManager U × List ℕ
  unfolding is_ready release
  release_ready latest [] u = (u, [])
  release_ready latest (t ∷ timestamps) u =
      let ready = release_ready latest timestamps (release u t) in
      let waiting = release_ready latest timestamps u in
      if is_ready u latest t then ready else (waiting.0, t ∷ waiting.1)

  unfoldable pub add : ℕ → List U → UpdatesManager U → UpdatesManager U
  unfolding release_ready last_or
  add timestamp updates u =
      let sorted = stable_sort before (u.timestamps ++ timestamp ∷ []) in
      let queued = record u { sorting_queue = insert timestamp updates u.sorting_queue } in
      let (released, requeue) = release_ready (last_or timestamp sorted) sorted queued in
      record released { timestamps = requeue }

  -- the updates that are not ready, in the order of their timestamps
  unfoldable pub pending : List ℕ → Dict ℕ (List U) → List U
  pending [] queue = []
  pending (t ∷ timestamps) queue = updates_at t queue ++ pending timestamps queue

  -- the first part: the updates that are ready
  unfoldable pub process_ready : (List U → Bool) → Bool → UpdatesManager U → Processed U
  process_ready processor flush u =
      if flush || ltb 20 (length u.processing_queue)
      then (if processor u.processing_queue
          then record {
            manager = record u { processing_queue = [] };
            success = true;
            calls = u.processing_queue ∷ [];
          }
          else record { manager = u; success = false; calls = u.processing_queue ∷ [] })
      else record { manager = u; success = true; calls = [] }

  -- the second part, of a flush: the updates that are still sorted
  unfoldable pub process_pending : (List U → Bool) → Processed U → Processed U
  unfolding pending
  process_pending processor p =
      let updates = pending p.manager.timestamps p.manager.sorting_queue in
      let calls = p.calls ++ updates ∷ [] in
      if processor updates
      then record {
        manager = record p.manager { sorting_queue = []; timestamps = [] };
        success = true;
        calls = calls;
      }
      else record { manager = p.manager; success = false; calls = calls }

  unfoldable pub process : (List U → Bool) → Bool → UpdatesManager U → Processed U
  unfolding process_ready process_pending
  process processor flush u =
      let p = process_ready processor flush u in
      if p.success then (if flush then process_pending processor p else p) else p

  -- `updateStatus` of the connection checker: its second argument, which `Stop` sets, is ignored.
  unfoldable pub update_status : (List U → Bool) → Bool → UpdatesManager U → Processed U
  unfolding process
  update_status processor last u = process processor false u
