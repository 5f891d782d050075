-- ===== src/CheckEndpoints/Backoff/Rate.antt =====
-- How often events are recorded, within the windows and in a backoff.
use cluster_network_operator.Prelude.{
  ℕ, ◌+◌, ◌-◌, ◌≤◌, String, ◌≡◌, false, List, [], ◌∷◌, All, arith, if◌then◌else◌,
}
use cluster_network_operator.CheckEndpoints.Backoff.{
  EventInfo, BackoffRecorder, Ticks, buffer_event, Recorded, record_events, event,
}

-- one call of `event`, and whether any ticker had ticked before it
pub record Input : Type 0 where
  pub ticks : Ticks
  pub type : String
  pub reason : String
  pub info : EventInfo

-- does the call record anything?
abbrev pub flush_count : List Recorded → ℕ
flush_count [] = 0
flush_count (r ∷ calls) = 1

-- how many of the calls record something
pub flushes : List Input → BackoffRecorder → ℕ
flushes [] r = 0
flushes (i ∷ inputs) r =
    let (s, calls) = event i.ticks i.type i.reason i.info r in flush_count calls + flushes inputs s

-- no window ends and no backoff is over
abbrev pub NoTick : Input → Type 0
NoTick i = (i.ticks.short ≡ false) × (i.ticks.long ≡ false) × (i.ticks.backoff ≡ false)

-- what is left of the two windows
abbrev pub short_room : BackoffRecorder → ℕ
short_room r = if r.backing_off then 0 else r.short_window_count_max - r.short_window_count

abbrev pub long_room : BackoffRecorder → ℕ
long_room r = if r.backing_off then 0 else r.long_window_count_max - r.long_window_count

flush_count-le : (calls : List Recorded) → flush_count calls ≤ 1
flush_count-le [] = omega arith
flush_count-le (r ∷ calls) = omega arith

event-room :
    (i : Input) (r : BackoffRecorder)
    → NoTick i
    → let (s, calls) = event i.ticks i.type i.reason i.info r in
      (flush_count calls + short_room s ≤ short_room r)
      × (flush_count calls + long_room s ≤ long_room r)
unfolding event
event-room i r n =
    ground (arith, flush_count-le (record_events (buffer_event i.type i.reason i.info r.events)))

-- While no window ends and no backoff is over, events are recorded at most as often as is left of
-- either window; in a backoff, nothing is recorded.
pub flushes-le_room :
    (inputs : List Input) (r : BackoffRecorder)
    → All NoTick inputs
    → (flushes inputs r ≤ short_room r) × (flushes inputs r ≤ long_room r)
unfolding flushes
flushes-le_room [] r n = omega arith
flushes-le_room (i ∷ inputs) r n = omega (
  arith,
  event-room i r n.0,
  flushes-le_room inputs (event i.ticks i.type i.reason i.info r).0 n.1,
)
