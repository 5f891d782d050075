-- ===== src/CheckEndpoints/Checker/Reachability.antt =====
-- What one check does to the status: outage and reachability.
use cluster_network_operator.Prelude.{
  ℕ, ◌≤◌, ◌<◌, ◌≡◌, String, false, List, [], ◌∷◌, some, arith, ltb, lt→ltb, ◌⊎◌, ◌==◌, nat_eq,
  if◌then◌else◌, Bool-cases, inl, inr,
}
use cluster_network_operator.CheckEndpoints.Status.{LogEntry, CheckStatus}
use cluster_network_operator.CheckEndpoints.Logs.{
  NewestFirst, append_log_entry, append_log_entry_in_order, append_log_entry_newest,
  add_success_log_entry, add_failure_log_entry,
}
use cluster_network_operator.CheckEndpoints.Outage.{latest, manage_status_outage}
use cluster_network_operator.CheckEndpoints.Outage.Tracking.{has_open_outage, outage_tracks_latest}
use cluster_network_operator.CheckEndpoints.Conditions.{manage_status_conditions}
use cluster_network_operator.CheckEndpoints.Conditions.Laws.{
  reachable_status, reachable_status-manage,
}
use cluster_network_operator.CheckEndpoints.Checker.{
  LatencyInfo, CheckError, no_error, dns_error, connect_error, Check, apply_updates, dns_entry,
  dns_failure_entry, connect_entry, connect_failure_entry, check_endpoint,
}

-- both logs are newest first
abbrev pub LogsSorted : CheckStatus → Type 0
LogsSorted s = NewestFirst s.successes × NewestFirst s.failures

-- all entries of the logs are older than `t`
abbrev pub IsOlder : CheckStatus → ℕ → Type 0
IsOlder s t = ((latest s.successes).start < t) × ((latest s.failures).start < t)

-- The probe began after everything in the logs, and resolved the host, if it did, before it
-- connected.
abbrev pub Follows : CheckStatus → LatencyInfo → CheckError → Type 0
Follows s latency (dns_error e) = IsOlder s latency.dns_start
Follows s latency _ =
    IsOlder s latency.connect_start
    × ((latency.dns ≡ 0)
        ⊎ (IsOlder s latency.dns_start × (latency.dns_start < latency.connect_start)))

abbrev pub verdict : CheckError → String
verdict no_error = "True"
verdict _ = "False"

resolved_first : (A B : Type 0) (dns : ℕ) → (dns == 0) ≡ false → (dns ≡ 0) ⊎ (A × B) → A × B
resolved_first A B dns h (inl e) = absurd (ground (arith, e, h))
resolved_first A B dns h (inr p) = p

-- the end of every check: outages, then conditions
abbrev finish : ℕ → CheckStatus → CheckStatus
finish now s = manage_status_conditions now (manage_status_outage s).0

reachable-finish :
    (now : ℕ) (s : CheckStatus)
    → reachable_status (finish now s)
      ≡ some (if has_open_outage (manage_status_outage s).0 then "False" else "True")
reachable-finish now s = reachable_status-manage now (manage_status_outage s).0

latest-append :
    (log : List LogEntry) (e : LogEntry)
    → NewestFirst log
    → (latest log).start ≤ e.start
    → latest (append_log_entry log (e ∷ [])) ≡ e
latest-append [] e s h = rw (append_log_entry_in_order [] e (tt, tt))
latest-append (x ∷ log) e s h = rw (append_log_entry_in_order (x ∷ log) e (ground arith, s))

not_ltb : (a b : ℕ) → a < b → ltb b a ≡ false
not_ltb a b h = ground arith

reachable-failing :
    (now : ℕ) (s : CheckStatus)
    → (latest s.successes).start < (latest s.failures).start
    → reachable_status (finish now s) ≡ some "False"
reachable-failing now s h = rw (reachable-finish, outage_tracks_latest, lt→ltb _ _ h)

reachable-succeeding :
    (now : ℕ) (s : CheckStatus)
    → (latest s.failures).start < (latest s.successes).start
    → reachable_status (finish now s) ≡ some "True"
reachable-succeeding now s h =
    rw (reachable-finish, outage_tracks_latest, not_ltb _ _ h, lt→ltb _ _ h)

-- a failure newer than all entries
reachable-failure :
    (now : ℕ) (s : CheckStatus) (e : LogEntry)
    → LogsSorted s
    → IsOlder s e.start
    → reachable_status (finish now (add_failure_log_entry e s)) ≡ some "False"
unfolding add_failure_log_entry
reachable-failure now s e sorted older =
    let newest = latest-append s.failures e sorted.1 (omega (arith, older.1)) in
    reachable-failing now (add_failure_log_entry e s) (rw newest older.0)

-- a success newer than all entries
reachable-success :
    (now : ℕ) (s : CheckStatus) (e : LogEntry)
    → LogsSorted s
    → IsOlder s e.start
    → reachable_status (finish now (add_success_log_entry e s)) ≡ some "True"
unfolding add_success_log_entry
reachable-success now s e sorted older =
    let newest = latest-append s.successes e sorted.0 (omega (arith, older.0)) in
    reachable-succeeding now (add_success_log_entry e s) (rw newest older.1)

-- the status after the host was resolved
add_success-LogsSorted :
    (s : CheckStatus) (e : LogEntry) → LogsSorted s → LogsSorted (add_success_log_entry e s)
unfolding add_success_log_entry
add_success-LogsSorted s e sorted = ((append_log_entry_newest s.successes (e ∷ [])).1, sorted.1)

add_success-IsOlder :
    (s : CheckStatus) (e : LogEntry) (t : ℕ)
    → LogsSorted s
    → IsOlder s e.start
    → e.start < t
    → IsOlder (add_success_log_entry e s) t
unfolding add_success_log_entry
add_success-IsOlder s e t sorted older h =
    let newest = latest-append s.successes e sorted.0 (omega (arith, older.0)) in
    (rw newest h, omega (arith, older.1))

-- After one check, with logs that are newest first and a probe that followed everything in them, the
-- Reachable condition says "True" if the probe connected, and "False" if it failed, by the name
-- service or otherwise.
pub check_endpoint-reachable :
    (now : ℕ) (s : CheckStatus) (check : Check) (latency : LatencyInfo) (error : CheckError)
    → LogsSorted s
    → Follows s latency error
    → reachable_status (apply_updates now (check_endpoint check error latency).0 s).0
      ≡ some (verdict error)
unfolding apply_updates check_endpoint
check_endpoint-reachable now s check latency (dns_error e) sorted follows =
    reachable-failure now s (dns_failure_entry check latency e) sorted follows
check_endpoint-reachable now s check latency (connect_error e) sorted follows =
    elim (Bool-cases (latency.dns == 0)) [
      | inl skipped ↦
          rw skipped
            (reachable-failure now s (connect_failure_entry check latency e) sorted follows.0)
      | inr resolved ↦
          let (older, later) = resolved_first _ _ latency.dns resolved follows.1 in
          rw resolved (
            reachable-failure now (add_success_log_entry (dns_entry check latency) s)
              (connect_failure_entry check latency e)
              (add_success-LogsSorted s (dns_entry check latency) sorted)
              (add_success-IsOlder s (dns_entry check latency) latency.connect_start sorted older
                later))
    ]
check_endpoint-reachable now s check latency no_error sorted follows =
    elim (Bool-cases (latency.dns == 0)) [
      | inl skipped ↦
          rw skipped (reachable-success now s (connect_entry check latency) sorted follows.0)
      | inr resolved ↦
          let (older, later) = resolved_first _ _ latency.dns resolved follows.1 in
          rw resolved (
            reachable-success now (add_success_log_entry (dns_entry check latency) s)
              (connect_entry check latency)
              (add_success-LogsSorted s (dns_entry check latency) sorted)
              (add_success-IsOlder s (dns_entry check latency) latency.connect_start sorted older
                later))
    ]
