-- ===== src/Tests/Queues.antt =====
-- Updates that come in out of order, a processor that fails, and events that come too fast.
use mathlib.Core.List.{Perm}
use cluster_network_operator.Prelude.{
  ℕ, ◌≡◌, ◌≤◌, refl, inl, false, [], ◌∷◌, ◌++◌, arith, insert, nat_eq, stable_sort,
}
use cluster_network_operator.CheckEndpoints.Updates.{UpdatesManager, before, add, pending}
use cluster_network_operator.CheckEndpoints.Updates.Conservation.{add-in_order}
use cluster_network_operator.CheckEndpoints.Backoff.{
  normal, EventInfo, Ticks, event, new_backoff_event_recorder, BackoffRecorder,
}
use cluster_network_operator.CheckEndpoints.Backoff.Conservation.{
  recorded, in_memory, KnownTypes, event-conserves,
}
use cluster_network_operator.CheckEndpoints.Backoff.Rate.{
  Input, flushes, short_room, long_room, flushes-le_room,
}

abbrev waiting : UpdatesManager ℕ
waiting = record {
  check_period = 1;
  check_timeout = 10;
  sorting_queue = (30, 300 ∷ []) ∷ [];
  timestamps = 30 ∷ [];
  last_timestamp = 20;
  processing_queue = 200 ∷ [];
}

add-in_order_example :
    let v = add 21 (210 ∷ []) waiting in
    v.processing_queue ++ pending v.timestamps v.sorting_queue
    ≡ 200 ∷ pending (stable_sort before (30 ∷ 21 ∷ [])) (insert 21 (210 ∷ []) waiting.sorting_queue)
add-in_order_example = add-in_order waiting 21 (210 ∷ []) (tt, tt) ((λ e. omega arith), tt)

abbrev no_ticks : Ticks
no_ticks = record { short = false; long = false; backoff = false }

abbrev lost : EventInfo
lost = record { timestamp = 7; message = "connectivity outage detected" }

event-conserves_example :
    let (s, calls) = event no_ticks normal "ConnectivityOutage" lost new_backoff_event_recorder in
    Perm
      (recorded calls ++ in_memory s.events)
      ((normal, "ConnectivityOutage", lost) ∷ in_memory new_backoff_event_recorder.events)
    × KnownTypes s.events
event-conserves_example =
    event-conserves no_ticks normal "ConnectivityOutage" lost new_backoff_event_recorder (inl refl)
      (unfold new_backoff_event_recorder in tt)

abbrev backing : BackoffRecorder
backing = record {
  events = [];
  short_window_count_max = 30;
  long_window_count_max = 600;
  short_window_count = 29;
  long_window_count = 40;
  backing_off = false;
}

abbrev call : Input
call = record { ticks = no_ticks; type = normal; reason = "ConnectivityOutage"; info = lost }

flushes-le_room_example :
    (flushes (call ∷ call ∷ []) backing ≤ short_room backing)
    × (flushes (call ∷ call ∷ []) backing ≤ long_room backing)
flushes-le_room_example =
    flushes-le_room (call ∷ call ∷ []) backing ((refl, refl, refl), ((refl, refl, refl), tt))
