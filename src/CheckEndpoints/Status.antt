-- ===== src/CheckEndpoints/Status.antt =====
-- The status of a PodNetworkConnectivityCheck, as far as the checks read and write it. A time is a
-- number of nanoseconds, and the zero time, which `IsZero` recognises, is 0.
use cluster_network_operator.Prelude.{ℕ, String, Bool, List}

pub record LogEntry : Type 0 where
  pub start : ℕ
  pub success : Bool
  pub reason : String
  pub message : String
  pub latency : ℕ

-- what a missing entry reads as
abbrev pub zero_entry : LogEntry
zero_entry = record { start = 0; success = Bool.false; reason = ""; message = ""; latency = 0 }

-- the texts of an outage, with the times that are formatted into them
pub data OutageMessage : Type 0 where
  detected_at : ℕ → OutageMessage
  restored_after : ℕ → ℕ → OutageMessage  -- from its start to its end

pub record OutageEntry : Type 0 where
  pub start : ℕ
  pub end : ℕ
  pub start_logs : List LogEntry
  pub end_logs : List LogEntry
  pub message : OutageMessage

pub record Condition : Type 0 where
  pub type : String
  pub status : String
  pub last_transition_time : ℕ
  pub reason : String
  pub message : String

pub record CheckStatus : Type 0 where
  pub successes : List LogEntry
  pub failures : List LogEntry
  pub outages : List OutageEntry
  pub conditions : List Condition

-- what the checks record as events
pub data CheckEvent : Type 0 where
  outage_detected : String → CheckEvent
  connectivity_restored : ℕ → ℕ → String → CheckEvent
