-- ===== src/CheckEndpoints/Backoff/Conservation.antt =====
-- What becomes of each event: recorded, or kept in memory.
use mathlib.Core.List.{append-nil, append_assoc, map-append, Perm, perm_append_comm, perm_middle}
use mathlib.Core.List.Perm
use cluster_network_operator.Prelude.{
  String, ◌≡◌, refl, ◌⊎◌, Bool, true, false, ◌||◌, List, [], ◌∷◌, ◌++◌, map, inl, inr, Bool-cases,
  All, Dict, lookup, insert, string_eq, ◌==◌, ==_iff, eq_iff, ltb, lookup_cons_ne, lookup_cons_eq,
  insert_cons_ne, insert_cons_eq, arith, perm-stable_sort,
}
use cluster_network_operator.CheckEndpoints.Backoff.{
  normal, warning, EventInfo, Buffer, BackoffRecorder, Ticks, buffer_reason, buffer_event, Recorded,
  earlier, record_reasons, record_events, counted, count_event, resumed, handle_backoff, event,
}

-- an event with its type and reason
abbrev pub Tagged : Type 0
Tagged = String × String × EventInfo

abbrev pub tag : String → String → List EventInfo → List Tagged
tag type reason = map (λ i. (type, reason, i))

abbrev pub tag_reasons : String → Dict String (List EventInfo) → List Tagged
tag_reasons type [] = []
tag_reasons type ((reason, infos) ∷ reasons) = tag type reason infos ++ tag_reasons type reasons

-- the events in memory
abbrev pub in_memory : Buffer → List Tagged
in_memory [] = []
in_memory ((type, reasons) ∷ events) = tag_reasons type reasons ++ in_memory events

-- the events that were recorded
abbrev pub recorded : List Recorded → List Tagged
recorded [] = []
recorded (r ∷ calls) = tag r.type r.reason r.infos ++ recorded calls

abbrev pub IsEventType : String → Type 0
IsEventType type = (type ≡ normal) ⊎ (type ≡ warning)

abbrev pub KnownTypes : Buffer → Type 0
KnownTypes = All (λ e. IsEventType e.0)

perm-tag-snoc :
    (t r : String) (xs : List EventInfo) (x : EventInfo)
    → Perm (tag t r (xs ++ x ∷ [])) ((t, r, x) ∷ tag t r xs)
perm-tag-snoc t r xs x = rw map-append (perm_append_comm (tag t r xs) ((t, r, x) ∷ []))

-- one element moves to the front
perm-front :
    (xs ys : List Tagged) (e : Tagged) (zs : List Tagged)
    → Perm ys (e ∷ zs)
    → Perm (xs ++ ys) (e ∷ xs ++ zs)
perm-front xs ys e zs p = Perm.trans (Perm.append_left xs p) (perm_middle xs zs)

buffer_reason_same :
    (r k : String) (x : EventInfo) (infos : List EventInfo) (reasons : Dict String (List EventInfo))
    → (k == r) ≡ true
    → buffer_reason r x ((k, infos) ∷ reasons) ≡ (r, infos ++ x ∷ []) ∷ reasons
unfolding buffer_reason
buffer_reason_same r k x infos reasons same =
    rw (lookup_cons_eq r k infos reasons same) (insert_cons_eq r k _ infos reasons same)

buffer_reason_other :
    (r k : String) (x : EventInfo) (infos : List EventInfo) (reasons : Dict String (List EventInfo))
    → (k == r) ≡ false
    → buffer_reason r x ((k, infos) ∷ reasons) ≡ (k, infos) ∷ buffer_reason r x reasons
unfolding buffer_reason
buffer_reason_other r k x infos reasons other =
    rw (lookup_cons_ne r k infos reasons other) (insert_cons_ne r k _ infos reasons other)

perm-buffer_reason :
    (t r : String) (x : EventInfo) (reasons : Dict String (List EventInfo))
    → Perm (tag_reasons t (buffer_reason r x reasons)) ((t, r, x) ∷ tag_reasons t reasons)
perm-buffer_reason t r x [] = unfold buffer_reason lookup insert in Perm.refl _
perm-buffer_reason t r x ((k, infos) ∷ reasons) = elim (Bool-cases (k == r)) [
  | inl same ↦ rw (buffer_reason_same r k x infos reasons same) (
      rw ((==_iff k r).0 same)
        (Perm.append_right (tag_reasons t reasons) (perm-tag-snoc t r infos x)))
  | inr other ↦ rw (buffer_reason_other r k x infos reasons other) (
      perm-front (tag t k infos) (tag_reasons t (buffer_reason r x reasons)) (t, r, x)
        (tag_reasons t reasons) (perm-buffer_reason t r x reasons))
]

buffer_event_same :
    (t r k : String) (x : EventInfo) (reasons : Dict String (List EventInfo)) (events : Buffer)
    → (k == t) ≡ true
    → buffer_event t r x ((k, reasons) ∷ events) ≡ (t, buffer_reason r x reasons) ∷ events
unfolding buffer_event
buffer_event_same t r k x reasons events same =
    rw (lookup_cons_eq t k reasons events same) (insert_cons_eq t k _ reasons events same)

buffer_event_other :
    (t r k : String) (x : EventInfo) (reasons : Dict String (List EventInfo)) (events : Buffer)
    → (k == t) ≡ false
    → buffer_event t r x ((k, reasons) ∷ events) ≡ (k, reasons) ∷ buffer_event t r x events
unfolding buffer_event
buffer_event_other t r k x reasons events other =
    rw (lookup_cons_ne t k reasons events other) (insert_cons_ne t k _ reasons events other)

perm-buffer_event :
    (t r : String) (x : EventInfo) (events : Buffer)
    → Perm (in_memory (buffer_event t r x events)) ((t, r, x) ∷ in_memory events)
perm-buffer_event t r x [] = unfold buffer_event buffer_reason lookup insert in Perm.refl _
perm-buffer_event t r x ((k, reasons) ∷ events) = elim (Bool-cases (k == t)) [
  | inl same ↦ rw (buffer_event_same t r k x reasons events same) (
      rw ((==_iff k t).0 same)
        (Perm.append_right (in_memory events) (perm-buffer_reason t r x reasons)))
  | inr other ↦ rw (buffer_event_other t r k x reasons events other) (
      perm-front (tag_reasons k reasons) (in_memory (buffer_event t r x events)) (t, r, x)
        (in_memory events) (perm-buffer_event t r x events))
]

KnownTypes-buffer_event :
    (t r : String) (x : EventInfo) (events : Buffer)
    → IsEventType t
    → KnownTypes events
    → KnownTypes (buffer_event t r x events)
KnownTypes-buffer_event t r x [] h k = unfold buffer_event lookup insert in (h, tt)
KnownTypes-buffer_event t r x ((j, reasons) ∷ events) h k = elim (Bool-cases (j == t)) [
  | inl same ↦ rw (buffer_event_same t r j x reasons events same) (h, k.1)
  | inr other ↦
      rw (buffer_event_other t r j x reasons events other)
        (k.0, KnownTypes-buffer_event t r x events h k.1)
]

IsEventType-recorded : (t : String) → IsEventType t → (t == normal || t == warning) ≡ true
IsEventType-recorded t h = ground (arith, eq_iff t normal, eq_iff t warning)

perm-record_reasons :
    (t : String) (reasons : Dict String (List EventInfo))
    → IsEventType t
    → Perm (recorded (record_reasons t reasons)) (tag_reasons t reasons)
unfolding record_reasons
perm-record_reasons t [] h = Perm.refl []
perm-record_reasons t ((r, infos) ∷ reasons) h = rw (IsEventType-recorded t h) (
    Perm.append (Perm.map (λ i. (t, r, i)) (perm-stable_sort earlier infos))
      (perm-record_reasons t reasons h))

recorded-append : (xs ys : List Recorded) → recorded (xs ++ ys) ≡ recorded xs ++ recorded ys
recorded-append [] ys = refl
recorded-append (x ∷ xs) ys = rw (recorded-append xs ys, append_assoc)

perm-record_events :
    (events : Buffer)
    → KnownTypes events
    → Perm (recorded (record_events events)) (in_memory events)
unfolding record_events
perm-record_events [] k = Perm.refl []
perm-record_events ((t, reasons) ∷ events) k =
    rw (recorded-append (record_reasons t reasons) (record_events events))
      (Perm.append (perm-record_reasons t reasons k.0) (perm-record_events events k.1))

count_event-conserves :
    (ticks : Ticks) (r : BackoffRecorder)
    → KnownTypes r.events
    → let (s, calls) = count_event ticks r in
      Perm (recorded calls ++ in_memory s.events) (in_memory r.events)
unfolding count_event
count_event-conserves ticks r k =
    let short = counted ticks.short r.short_window_count in
    let long = counted ticks.long r.long_window_count in
    elim (Bool-cases (ltb r.short_window_count_max short || ltb r.long_window_count_max long)) [
      | inl fast ↦ rw fast (Perm.refl (in_memory r.events))
      | inr slow ↦ rw (slow, append-nil) (perm-record_events r.events k)
    ]

count_event-KnownTypes :
    (ticks : Ticks) (r : BackoffRecorder)
    → KnownTypes r.events
    → KnownTypes (count_event ticks r).0.events
unfolding count_event
count_event-KnownTypes ticks r k =
    let short = counted ticks.short r.short_window_count in
    let long = counted ticks.long r.long_window_count in
    elim (Bool-cases (ltb r.short_window_count_max short || ltb r.long_window_count_max long)) [
      | inl fast ↦ rw fast k
      | inr slow ↦ rw slow tt
    ]

handle_backoff-conserves :
    (on ticked : Bool) (ticks : Ticks) (r : BackoffRecorder)
    → KnownTypes r.events
    → let (s, calls) = handle_backoff on ticked ticks r in
      Perm (recorded calls ++ in_memory s.events) (in_memory r.events) × KnownTypes s.events
unfolding handle_backoff
handle_backoff-conserves true true ticks r k =
    (count_event-conserves ticks (resumed r) k, count_event-KnownTypes ticks (resumed r) k)
handle_backoff-conserves true false ticks r k = (Perm.refl (in_memory r.events), k)
handle_backoff-conserves false ticked ticks r k =
    (count_event-conserves ticks r k, count_event-KnownTypes ticks r k)

-- Each event of type "Normal" or "Warning" is recorded exactly once or kept in memory: what one call
-- records, with what is in memory after it, is what was in memory before, with the new event. The
-- buffer keeps holding events of those two types only.
pub event-conserves :
    (ticks : Ticks) (type reason : String) (info : EventInfo) (r : BackoffRecorder)
    → IsEventType type
    → KnownTypes r.events
    → let (s, calls) = event ticks type reason info r in
      Perm (recorded calls ++ in_memory s.events) ((type, reason, info) ∷ in_memory r.events)
      × KnownTypes s.events
unfolding event
event-conserves ticks type reason info r h k =
    let buffered = record r { events = buffer_event type reason info r.events } in
    let known = KnownTypes-buffer_event type reason info r.events h k in
    let (kept, types) = handle_backoff-conserves r.backing_off ticks.backoff ticks buffered known in
    (Perm.trans kept (perm-buffer_event type reason info r.events), types)
