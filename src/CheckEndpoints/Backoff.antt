-- ===== src/CheckEndpoints/Backoff.antt =====
-- backoff_recorder.go: events are recorded at once until they come too fast; then they are kept in
-- memory for the backoff period, and recorded as summaries. Whether a ticker has a tick waiting when
-- an event comes in is an input, and so is the clock. The recorder that is wrapped is third-party
-- code: the model returns what it is called with.
pub mod Conservation
pub mod Rate
use cluster_network_operator.Prelude.{
  ℕ, ◌+◌, String, Bool, true, false, ◌||◌, List, [], ◌∷◌, ◌++◌, map, Option, none, some, ltb, ◌==◌,
  string_eq, if◌then◌else◌, Dict, lookup, insert, stable_sort, concat,
}

abbrev pub normal : String
normal = "Normal"

abbrev pub warning : String
warning = "Warning"

pub record EventInfo : Type 0 where
  pub timestamp : ℕ
  pub message : String

-- event type, reason, events
abbrev pub Buffer : Type 0
Buffer = Dict String (Dict String (List EventInfo))

pub record BackoffRecorder : Type 0 where
  pub events : Buffer
  pub short_window_count_max : ℕ
  pub long_window_count_max : ℕ
  pub short_window_count : ℕ
  pub long_window_count : ℕ
  pub backing_off : Bool  -- backoffTicker is not nil

-- the defaults of `NewBackoffEventRecorder`
unfoldable pub new_backoff_event_recorder : BackoffRecorder
new_backoff_event_recorder = record {
  events = [];
  short_window_count_max = 30;
  long_window_count_max = 600;
  short_window_count = 0;
  long_window_count = 0;
  backing_off = false;
}

-- the tickers that have a tick waiting
pub record Ticks : Type 0 where
  pub short : Bool
  pub long : Bool
  pub backoff : Bool

abbrev pub or_nil {ℓ} : {A : Type ℓ} → Option (List A) → List A
or_nil none = []
or_nil (some xs) = xs

unfoldable pub buffer_reason :
    String → EventInfo → Dict String (List EventInfo) → Dict String (List EventInfo)
buffer_reason reason info reasons =
    insert reason (or_nil (lookup reason reasons) ++ info ∷ []) reasons

unfoldable pub buffer_event : String → String → EventInfo → Buffer → Buffer
unfolding buffer_reason
buffer_event type reason info events =
    insert type (buffer_reason reason info (or_nil (lookup type events))) events

-- one call of the wrapped recorder, for the events of one type and reason
pub record Recorded : Type 0 where
  pub type : String
  pub reason : String
  pub infos : List EventInfo

abbrev pub earlier : EventInfo → EventInfo → Bool
earlier x y = ltb x.timestamp y.timestamp

-- the switch on the event type: any other type is recorded nowhere
unfoldable pub record_reasons : String → Dict String (List EventInfo) → List Recorded
record_reasons type [] = []
record_reasons type ((reason, infos) ∷ reasons) =
    let r : Recorded = record { type = type; reason = reason; infos = stable_sort earlier infos } in
    if type == normal || type == warning
    then r ∷ record_reasons type reasons
    else record_reasons type reasons

unfoldable pub record_events : Buffer → List Recorded
unfolding record_reasons
record_events [] = []
record_events ((type, reasons) ∷ events) = record_reasons type reasons ++ record_events events

-- `joinEventMessages`, over the library's formatting of times
module _ (format : ℕ → String) where
  abbrev pub event_text : EventInfo → String
  event_text e = concat (format e.timestamp ∷ ": " ∷ e.message ∷ [])

  unfoldable pub join_lines : List EventInfo → List String
  join_lines [] = []
  join_lines (e ∷ infos) = "\n" ∷ event_text e ∷ join_lines infos

  unfoldable pub join_event_messages : List EventInfo → String
  unfolding join_lines
  join_event_messages [] = ""
  join_event_messages (e ∷ []) = e.message
  join_event_messages (e ∷ f ∷ infos) = concat (event_text e ∷ join_lines (f ∷ infos))

-- the windows: a waiting tick starts a new window, in which this event is not counted
abbrev pub counted : Bool → ℕ → ℕ
counted tick n = if tick then 0 else n + 1

-- from the windows on: start the backoff, or record what is buffered
unfoldable pub count_event : Ticks → BackoffRecorder → BackoffRecorder × List Recorded
unfolding record_events
count_event ticks r =
    let short = counted ticks.short r.short_window_count in
    let long = counted ticks.long r.long_window_count in
    let t = record r { short_window_count = short; long_window_count = long } in
    if ltb r.short_window_count_max short || ltb r.long_window_count_max long
    then (record t { backing_off = true }, [])
    else (record t { events = [] }, record_events r.events)

unfoldable pub resumed : BackoffRecorder → BackoffRecorder
resumed r = record r { backing_off = false; long_window_count = 0; short_window_count = 0 }

-- the handling of a backoff period, from whether one is on and whether its ticker has ticked
unfoldable pub handle_backoff :
    Bool → Bool → Ticks → BackoffRecorder → BackoffRecorder × List Recorded
unfolding count_event resumed
handle_backoff true true ticks r = count_event ticks (resumed r)
handle_backoff true false ticks r = (r, [])
handle_backoff false ticked ticks r = count_event ticks r

unfoldable pub event :
    Ticks → String → String → EventInfo → BackoffRecorder → BackoffRecorder × List Recorded
unfolding buffer_event handle_backoff
event ticks type reason info r =
    handle_backoff r.backing_off ticks.backoff ticks
      (record r { events = buffer_event type reason info r.events })
