-- ===== src/Apps.antt =====
-- The Kubernetes objects that roll pods out (apps/v1), with the fields that the operator reads. The
-- API's counters and generations are never negative, so they are natural numbers.
use cluster_network_operator.Prelude.{ℕ, String, Dict}

pub record DaemonSetStatus : Type 0 where
  pub current_number_scheduled : ℕ
  pub number_misscheduled : ℕ
  pub desired_number_scheduled : ℕ
  pub number_ready : ℕ
  pub observed_generation : ℕ
  pub updated_number_scheduled : ℕ
  pub number_available : ℕ
  pub number_unavailable : ℕ

pub record DaemonSet : Type 0 where
  pub namespace : String
  pub name : String
  pub annotations : Dict String String
  pub generation : ℕ
  pub status : DaemonSetStatus

-- `DeploymentStatus` and `StatefulSetStatus` share the names of the counters that are read.
pub record ReplicaStatus : Type 0 where
  pub observed_generation : ℕ
  pub replicas : ℕ
  pub updated_replicas : ℕ
  pub ready_replicas : ℕ
  pub available_replicas : ℕ
  pub unavailable_replicas : ℕ  -- of a deployment

pub record Deployment : Type 0 where
  pub namespace : String
  pub name : String
  pub annotations : Dict String String
  pub generation : ℕ
  pub status : ReplicaStatus

pub record StatefulSet : Type 0 where
  pub namespace : String
  pub name : String
  pub annotations : Dict String String
  pub generation : ℕ
  pub status : ReplicaStatus
