-- ===== src/CheckEndpoints/Outage/Tracking.antt =====
-- When an outage is open, by the newest failure and the newest success.
use cluster_network_operator.Prelude.{
  ◌≡◌, refl, Bool, true, false, List, [], ◌∷◌, inl, inr, Bool-cases, length, arith, ltb,
  if◌then◌else◌, is_some,
}
use cluster_network_operator.CheckEndpoints.Status.{LogEntry, OutageEntry, CheckStatus}
use cluster_network_operator.CheckEndpoints.Outage.{
  latest, limit, current_outage, track, manage_status_outage,
}

abbrev pub has_open_outage : CheckStatus → Bool
has_open_outage s = is_some (current_outage s.outages)

current_outage-limit : (xs : List OutageEntry) → current_outage (limit 20 xs) ≡ current_outage xs
unfolding current_outage
current_outage-limit [] = refl
current_outage-limit (x ∷ xs) = elim (Bool-cases (ltb 20 (length (x ∷ xs)))) [
  | inl long ↦ rw long
  | inr short ↦ rw short
]

abbrev open_after : LogEntry → LogEntry → Bool → Bool
open_after failure success was_open =
    if ltb success.start failure.start
    then true
    else if ltb failure.start success.start
    then false
    else was_open

current_outage-track :
    (outages : List OutageEntry) (failure success : LogEntry)
    → is_some (current_outage (track (current_outage outages) outages failure success).0)
      ≡ open_after failure success (is_some (current_outage outages))
unfolding current_outage track
current_outage-track [] failure success = ground arith
current_outage-track (o ∷ outages) failure success = ground arith

-- After the outages were managed, one is open if the newest failure is newer than the newest
-- success, none is if it is older, and if both have the same time nothing has changed.
pub outage_tracks_latest :
    (s : CheckStatus)
    → has_open_outage (manage_status_outage s).0 ≡ (
        if ltb (latest s.successes).start (latest s.failures).start
        then true
        else if ltb (latest s.failures).start (latest s.successes).start
        then false
        else has_open_outage s)
unfolding manage_status_outage
outage_tracks_latest s =
    rw current_outage-limit
      (current_outage-track s.outages (latest s.failures) (latest s.successes))
