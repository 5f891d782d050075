-- ===== src/Ovn/Status.antt =====
-- pkg/bootstrap/types.go: the state of the running ovn-kubernetes that the decisions read.
use cluster_network_operator.Prelude.{String, Bool, Option}

-- `OVNUpdateStatus`; kind, namespace, name and the CIDR annotation decide nothing here.
pub record UpdateStatus : Type 0 where
  pub version : String
  pub ip_family_mode : String
  pub progressing : Bool

-- `OVNBootstrapResult`: nil when the object does not exist
pub record OvnBootstrapResult : Type 0 where
  pub control_plane_update_status : Option UpdateStatus
  pub node_update_status : Option UpdateStatus
  pub pre_puller_update_status : Option UpdateStatus
