-- ===== src/Tests/Checks.antt =====
-- A check of an endpoint that fails and succeeds.
use cluster_network_operator.Prelude.{
  ℕ, ◌≡◌, inr, true, false, Bool, [], ◌∷◌, some, arith, ltb, if◌then◌else◌, string_eq,
}
use cluster_network_operator.CheckEndpoints.Status.{LogEntry, zero_entry, CheckStatus, detected_at}
use cluster_network_operator.CheckEndpoints.Outage.{manage_status_outage}
use cluster_network_operator.CheckEndpoints.Outage.Bounds.{
  IsWellFormed, manage_status_outage-IsWellFormed,
}
use cluster_network_operator.CheckEndpoints.Outage.Tracking.{has_open_outage, outage_tracks_latest}
use cluster_network_operator.CheckEndpoints.Conditions.Laws.{reachable_status}
use cluster_network_operator.CheckEndpoints.Checker.{
  Check, LatencyInfo, connect_error, apply_updates, check_endpoint,
}
use cluster_network_operator.CheckEndpoints.Checker.Reachability.{check_endpoint-reachable}

abbrev entry : ℕ → Bool → LogEntry
entry start success = record zero_entry { start = start; success = success }

abbrev down : CheckStatus
down = record {
  successes = entry 10 true ∷ [];
  failures = entry 20 false ∷ [];
  outages =
      record {
        start = 20;
        end = 0;
        start_logs = entry 20 false ∷ [];
        end_logs = entry 20 false ∷ [];
        message = detected_at 20;
      }
      ∷ [];
  conditions = [];
}

abbrev endpoint : Check
endpoint = record {
  description = "kubernetes-apiserver-endpoint-0";
  host = "api.example.com";
  target_endpoint = "api.example.com:6443";
}

abbrev latency : LatencyInfo
latency = record { dns = 5; connect = 10; dns_start = 30; connect_start = 36 }

down-IsWellFormed : IsWellFormed down
down-IsWellFormed = record {
  few = omega arith;
  only_first_open = (
    record {
      start_logs_pos = omega arith;
      start_logs_bound = omega arith;
      end_logs_bound = omega arith;
    },
    tt,
  );
}

manage_status_outage-IsWellFormed_example : IsWellFormed (manage_status_outage down).0
manage_status_outage-IsWellFormed_example = manage_status_outage-IsWellFormed down down-IsWellFormed

outage_tracks_latest_example :
    has_open_outage (manage_status_outage down).0
    ≡ (if ltb 10 20 then true else if ltb 20 10 then false else has_open_outage down)
outage_tracks_latest_example = outage_tracks_latest down

check_endpoint-reachable_example :
    reachable_status
      (apply_updates 40 (check_endpoint endpoint (connect_error "refused") latency).0 down).0
    ≡ some "False"
check_endpoint-reachable_example =
    check_endpoint-reachable 40 down endpoint latency (connect_error "refused") ((tt, tt), (tt, tt))
      ((omega arith, omega arith), inr ((omega arith, omega arith), omega arith))
