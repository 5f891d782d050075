-- ===== src/CheckEndpoints/Checker.antt =====
-- `manageStatusLogs` and `checkEndpoint`: from the result of one probe to the updates of the status.
-- The probe itself (dialling, TLS) is outside: its error and its latencies are arguments. So are the
-- description and the host, which the code cuts out of the check's name and endpoint by a regular
-- expression and `net.SplitHostPort`.
pub mod Reachability
use cluster_network_operator.Prelude.{
  ℕ, String, Bool, true, false, List, [], ◌∷◌, ◌++◌, ◌==◌, nat_eq, if◌then◌else◌, concat,
}
use cluster_network_operator.CheckEndpoints.Status.{LogEntry, CheckStatus, CheckEvent}
use cluster_network_operator.CheckEndpoints.Logs.{add_success_log_entry, add_failure_log_entry}
use cluster_network_operator.CheckEndpoints.Outage.{manage_status_outage}
use cluster_network_operator.CheckEndpoints.Conditions.{manage_status_conditions}

pub record LatencyInfo : Type 0 where
  pub dns : ℕ
  pub connect : ℕ
  pub dns_start : ℕ
  pub connect_start : ℕ

-- the error of the probe: none, one whose cause is the name service, any other
pub data CheckError : Type 0 where
  no_error : CheckError
  dns_error : String → CheckError
  connect_error : String → CheckError

pub record Check : Type 0 where
  pub description : String
  pub host : String
  pub target_endpoint : String

-- the functions on the status that are queued
pub data StatusUpdate : Type 0 where
  add_success add_failure : LogEntry → StatusUpdate
  status_outage status_conditions : StatusUpdate

-- An update runs when the queue is processed: `now` is the clock of that moment.
unfoldable pub apply_update : ℕ → StatusUpdate → CheckStatus → CheckStatus × List CheckEvent
apply_update now (add_success e) s = (add_success_log_entry e s, [])
apply_update now (add_failure e) s = (add_failure_log_entry e s, [])
apply_update now status_outage s = manage_status_outage s
apply_update now status_conditions s = (manage_status_conditions now s, [])

-- the loop over the update functions in `UpdateStatus`
unfoldable pub apply_updates : ℕ → List StatusUpdate → CheckStatus → CheckStatus × List CheckEvent
unfolding apply_update
apply_updates now [] s = (s, [])
apply_updates now (u ∷ updates) s =
    let (s', events) = apply_update now u s in
    let (t, later) = apply_updates now updates s' in (t, events ++ later)

unfoldable pub dns_entry : Check → LatencyInfo → LogEntry
dns_entry check latency = record {
  start = latency.dns_start;
  success = true;
  reason = "DNSResolve";
  message =
      concat (check.description ∷ ": resolved host name " ∷ check.host ∷ " successfully" ∷ []);
  latency = latency.dns;
}

unfoldable pub dns_failure_entry : Check → LatencyInfo → String → LogEntry
dns_failure_entry check latency error = record {
  start = latency.dns_start;
  success = false;
  reason = "DNSError";
  message =
      concat (check.description ∷ ": failure looking up host " ∷ check.host ∷ ": " ∷ error ∷ []);
  latency = latency.dns;
}

unfoldable pub connect_entry : Check → LatencyInfo → LogEntry
connect_entry check latency = record {
  start = latency.connect_start;
  success = true;
  reason = "TCPConnect";
  message =
      concat
        (check.description ∷ ": tcp connection to " ∷ check.target_endpoint ∷ " succeeded" ∷ []);
  latency = latency.connect;
}

unfoldable pub connect_failure_entry : Check → LatencyInfo → String → LogEntry
connect_failure_entry check latency error = record {
  start = latency.connect_start;
  success = false;
  reason = "TCPConnectError";
  message = concat (
      check.description ∷ ": failed to establish a TCP connection to " ∷ check.target_endpoint
      ∷ ": " ∷ error ∷ []);
  latency = latency.connect;
}

-- the part before the probe's own result: the name was resolved, if that took any time
unfoldable pub dns_updates : Check → LatencyInfo → List StatusUpdate
unfolding dns_entry
dns_updates check latency =
    if latency.dns == 0 then [] else add_success (dns_entry check latency) ∷ []

-- `overallStart`
unfoldable pub overall_start : LatencyInfo → ℕ
overall_start latency =
    let start = if latency.dns == 0 then 0 else latency.dns_start in
    if start == 0 then latency.connect_start else start

unfoldable pub manage_status_logs : Check → CheckError → LatencyInfo → List StatusUpdate × ℕ
unfolding dns_updates overall_start dns_failure_entry connect_entry connect_failure_entry
manage_status_logs check (dns_error e) latency =
    (add_failure (dns_failure_entry check latency e) ∷ [], latency.dns_start)
manage_status_logs check (connect_error e) latency = (
  dns_updates check latency ++ add_failure (connect_failure_entry check latency e) ∷ [],
  overall_start latency,
)
manage_status_logs check no_error latency = (
  dns_updates check latency ++ add_success (connect_entry check latency) ∷ [],
  overall_start latency,
)

-- The updates and the timestamp that `checkEndpoint` gives to the updates manager. The logs always
-- change, so both tests of the length hold.
unfoldable pub check_endpoint : Check → CheckError → LatencyInfo → List StatusUpdate × ℕ
unfolding manage_status_logs
check_endpoint check error latency =
    let (updates, timestamp) = manage_status_logs check error latency in
    (with_conditions (with_outage updates), timestamp)
  where
    with_outage : List StatusUpdate → List StatusUpdate
    with_outage [] = []
    with_outage (u ∷ updates) = (u ∷ updates) ++ status_outage ∷ []

    with_conditions : List StatusUpdate → List StatusUpdate
    with_conditions [] = []
    with_conditions (u ∷ updates) = (u ∷ updates) ++ status_conditions ∷ []
