-- ===== src/CheckEndpoints/Outage.antt =====
-- `manageStatusOutage`: how outages start, go on and end with the newest success and failure.
pub mod Bounds
pub mod Tracking
use cluster_network_operator.Prelude.{
  ℕ, String, Bool, true, false, ◌&&◌, not, List, [], ◌∷◌, Option, none, some, take, length, ltb,
  ◌==◌, nat_eq, string_eq, if◌then◌else◌,
}
use cluster_network_operator.CheckEndpoints.Status.{
  LogEntry, zero_entry, OutageEntry, OutageMessage, detected_at, restored_after, CheckStatus,
  CheckEvent, outage_detected, connectivity_restored,
}

-- `log[0]`, or the zero entry
abbrev pub latest : List LogEntry → LogEntry
latest [] = zero_entry
latest (e ∷ log) = e

-- `currentOutage`: the first outage, while its end is the zero time
unfoldable pub current_outage : List OutageEntry → Option OutageEntry
current_outage [] = none
current_outage (o ∷ outages) = if o.end == 0 then some o else none

-- `log[:n]` where the log is longer
abbrev pub limit {ℓ} : {A : Type ℓ} → ℕ → List A → List A
limit n xs = if ltb n (length xs) then take n xs else xs

unfoldable pub new_outage : LogEntry → OutageEntry
new_outage failure = record {
  start = failure.start;
  end = 0;
  start_logs = failure ∷ [];
  end_logs = failure ∷ [];
  message = detected_at failure.start;
}

-- up to five failures at the start, while the message changes
unfoldable pub extend_start_logs : List LogEntry → LogEntry → List LogEntry
extend_start_logs [] failure = failure ∷ []
extend_start_logs (first ∷ logs) failure =
    if ltb (length (first ∷ logs)) 5 && not (first.message == failure.message)
    then failure ∷ first ∷ logs
    else first ∷ logs

unfoldable pub ongoing_outage : OutageEntry → LogEntry → OutageEntry
unfolding extend_start_logs
ongoing_outage o failure = record o {
  start_logs = extend_start_logs o.start_logs failure;
  end_logs = limit 5 (failure ∷ o.end_logs);
}

unfoldable pub ended_outage : OutageEntry → LogEntry → OutageEntry
ended_outage o success = record o {
  end = success.start;
  end_logs = limit 5 (success ∷ o.end_logs);
  message = restored_after o.start success.start;
}

abbrev pub tail : List OutageEntry → List OutageEntry
tail [] = []
tail (o ∷ outages) = outages

-- the cases of the outer switch, on the outages, the newest failure and the newest success
unfoldable pub track :
    Option OutageEntry → List OutageEntry → LogEntry → LogEntry → List OutageEntry × List CheckEvent
unfolding new_outage ongoing_outage ended_outage
track none outages failure success =
    if ltb success.start failure.start
    then (new_outage failure ∷ outages, outage_detected failure.message ∷ [])
    else (outages, [])
track (some current) outages failure success =
    if ltb success.start failure.start
    then (ongoing_outage current failure ∷ tail outages, [])
    else if ltb failure.start success.start
    then (
      ended_outage current success ∷ tail outages,
      connectivity_restored current.start success.start success.message ∷ [],
    )
    else (outages, [])

unfoldable pub manage_status_outage : CheckStatus → CheckStatus × List CheckEvent
unfolding track current_outage
manage_status_outage s =
    let (outages, events) =
      track (current_outage s.outages) s.outages (latest s.failures) (latest s.successes) in
    (record s { outages = limit 20 outages }, events)
