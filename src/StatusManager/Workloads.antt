-- ===== src/StatusManager/Workloads.antt =====
-- pod_status.go, one object at a time: is a daemonset, deployment or stateful set still rolling out,
-- and has it stopped making progress? The texts that are shown are values of a type of their own.
pub mod Rollout
pub mod Hang
use cluster_network_operator.Prelude.{
  ℕ, ◌+◌, ◌-◌, String, Bool, true, false, ◌&&◌, ◌||◌, not, List, [], ◌∷◌, ◌++◌, Option, none, some,
  ltb, ◌==◌, nat_eq, string_eq, Eq, if◌then◌else◌, Dict, lookup, insert, remove, is_some, ◌≡◌, ◌↔◌,
  arith, eq_iff,
}
use cluster_network_operator.Apps.{
  DaemonSet, DaemonSetStatus, Deployment, StatefulSet, ReplicaStatus,
}

-- ten minutes
abbrev pub progress_timeout : ℕ
progress_timeout = 600000000000

abbrev pub non_critical_annotation : String
non_critical_annotation = "networkoperator.openshift.io/non-critical"

abbrev pub version_annotation : String
version_annotation = "release.openshift.io/version"

abbrev pub cluster_name_annotation : String
cluster_name_annotation = "network.operator.openshift.io/cluster-name"

abbrev pub or_empty : Option String → String
or_empty none = ""
or_empty (some s) = s

pub record ClusteredName : Type 0 where
  pub cluster_name : String
  pub namespace : String
  pub name : String

abbrev pub same_name : ClusteredName → ClusteredName → Bool
same_name a b = a.cluster_name == b.cluster_name && a.namespace == b.namespace && a.name == b.name

pub same_name_iff : (a b : ClusteredName) → (same_name a b ≡ true) ↔ (a ≡ b)
same_name_iff a b = ground (
  arith,
  eq_iff a.cluster_name b.cluster_name,
  eq_iff a.namespace b.namespace,
  eq_iff a.name b.name,
)

instance abbrev pub name_eq : Eq ClusteredName
name_eq = record { equals = same_name; decides = same_name_iff }

pub data Kind : Type 0 where
  daemon_set stateful_set deployment : Kind

-- what the texts of the conditions say
pub data PodMessage : Type 0 where
  deploying : PodMessage
  waiting_for_operators : Kind → ClusteredName → PodMessage
  rolling_out : Kind → ClusteredName → ℕ → ℕ → PodMessage
  not_available : Kind → ClusteredName → ℕ → PodMessage
  not_scheduled : Kind → ClusteredName → PodMessage
  not_making_progress : Kind → ClusteredName → ℕ → PodMessage
  crash_looping : Kind → ClusteredName → String → PodMessage

-- what one pass finds out about an object, over the type of its status
pub record Workload {ℓ} (S : Type ℓ) : Type ℓ where
  pub name : ClusteredName
  pub kind : Kind
  pub non_critical : Bool
  pub at_release : Bool
  pub status : S
  pub progress : Option PodMessage
  pub checks_crashes : Bool

unfoldable pub clustered_name : Dict String String → String → String → ClusteredName
clustered_name annotations namespace name = record {
  cluster_name = or_empty (lookup cluster_name_annotation annotations);
  namespace = namespace;
  name = name;
}

unfoldable pub is_non_critical : Dict String String → Bool
is_non_critical annotations = is_some (lookup non_critical_annotation annotations)

unfoldable pub is_at_release : String → Dict String String → Bool
is_at_release release annotations = or_empty (lookup version_annotation annotations) == release

-- the first part of the loop over the daemonsets
unfoldable pub daemon_set_progress : Bool → DaemonSet → Option PodMessage
daemon_set_progress install_complete ds =
    let name = clustered_name ds.annotations ds.namespace ds.name in
    let active = not install_complete || ltb updated_number_scheduled current_number_scheduled in
    if is_non_critical ds.annotations && number_ready == 0 && not install_complete
    then some (waiting_for_operators daemon_set name)
    else if ltb updated_number_scheduled current_number_scheduled
    then some (rolling_out daemon_set name updated_number_scheduled current_number_scheduled)
    else if ltb 0 number_unavailable
    then (if active then some (not_available daemon_set name number_unavailable) else none)
    else if number_available == 0
        && (ltb 0 desired_number_scheduled || ltb observed_generation ds.generation)
        && active
    then some (not_scheduled daemon_set name)
    else none
  where
    open ds.status use {
      updated_number_scheduled, current_number_scheduled, number_ready, number_unavailable,
      number_available, desired_number_scheduled, observed_generation,
    }

-- the same conditions, for the check of the pods
unfoldable pub daemon_set_checks_crashes : Bool → DaemonSet → Bool
daemon_set_checks_crashes install_complete ds =
    not (is_non_critical ds.annotations)
    && not (ltb updated_number_scheduled current_number_scheduled)
    && ltb 0 number_unavailable
  where
    open ds.status use {updated_number_scheduled, current_number_scheduled, number_unavailable}

unfoldable pub stateful_set_progress : Bool → StatefulSet → Option PodMessage
stateful_set_progress install_complete ss =
    let name = clustered_name ss.annotations ss.namespace ss.name in
    let active = not install_complete || ltb updated_replicas replicas in
    if is_non_critical ss.annotations && ready_replicas == 0 && not install_complete
    then some (waiting_for_operators stateful_set name)
    else if ltb updated_replicas replicas
    then some (rolling_out stateful_set name updated_replicas replicas)
    else if ltb 0 ready_replicas && ltb ready_replicas replicas
    then (if active
        then some (not_available stateful_set name (replicas - ready_replicas))
        else none)
    else if available_replicas == 0 && active
    then some (not_scheduled stateful_set name)
    else none
  where
    open ss.status use {updated_replicas, replicas, ready_replicas, available_replicas}

unfoldable pub stateful_set_checks_crashes : Bool → StatefulSet → Bool
stateful_set_checks_crashes install_complete ss =
    not (is_non_critical ss.annotations)
    && not (ltb updated_replicas replicas)
    && ltb 0 ready_replicas
    && ltb ready_replicas replicas
  where
    open ss.status use {updated_replicas, replicas, ready_replicas}

unfoldable pub deployment_progress : Bool → Deployment → Option PodMessage
deployment_progress install_complete dep =
    let name = clustered_name dep.annotations dep.namespace dep.name in
    let active = not install_complete || ltb updated_replicas replicas in
    if is_non_critical dep.annotations && ltb 0 unavailable_replicas && not install_complete
    then some (waiting_for_operators deployment name)
    else if ltb updated_replicas replicas
    then some (rolling_out deployment name updated_replicas replicas)
    else if ltb 0 unavailable_replicas
    then (if active then some (not_available deployment name unavailable_replicas) else none)
    else if available_replicas == 0 && active
    then some (not_scheduled deployment name)
    else none
  where
    open dep.status use {updated_replicas, replicas, unavailable_replicas, available_replicas}

unfoldable pub deployment_checks_crashes : Bool → Deployment → Bool
deployment_checks_crashes install_complete dep =
    not (is_non_critical dep.annotations)
    && not (ltb updated_replicas replicas)
    && ltb 0 unavailable_replicas
  where
    open dep.status use {updated_replicas, replicas, unavailable_replicas}

unfoldable pub daemon_set_workload : String → Bool → DaemonSet → Workload DaemonSetStatus
unfolding clustered_name is_non_critical is_at_release daemon_set_progress daemon_set_checks_crashes
daemon_set_workload release install_complete ds = record {
  name = clustered_name ds.annotations ds.namespace ds.name;
  kind = daemon_set;
  non_critical = is_non_critical ds.annotations;
  at_release = is_at_release release ds.annotations;
  status = ds.status;
  progress = daemon_set_progress install_complete ds;
  checks_crashes = daemon_set_checks_crashes install_complete ds;
}

unfoldable pub stateful_set_workload : String → Bool → StatefulSet → Workload ReplicaStatus
unfolding clustered_name is_non_critical is_at_release stateful_set_progress
    stateful_set_checks_crashes
stateful_set_workload release install_complete ss = record {
  name = clustered_name ss.annotations ss.namespace ss.name;
  kind = stateful_set;
  non_critical = is_non_critical ss.annotations;
  at_release = is_at_release release ss.annotations;
  status = ss.status;
  progress = stateful_set_progress install_complete ss;
  checks_crashes = stateful_set_checks_crashes install_complete ss;
}

unfoldable pub deployment_workload : String → Bool → Deployment → Workload ReplicaStatus
unfolding clustered_name is_non_critical is_at_release deployment_progress deployment_checks_crashes
deployment_workload release install_complete dep = record {
  name = clustered_name dep.annotations dep.namespace dep.name;
  kind = deployment;
  non_critical = is_non_critical dep.annotations;
  at_release = is_at_release release dep.annotations;
  status = dep.status;
  progress = deployment_progress install_complete dep;
  checks_crashes = deployment_checks_crashes install_complete dep;
}

-- `daemonsetState` and its siblings
pub record LastSeen {ℓ} (S : Type ℓ) : Type ℓ where
  pub status : S
  pub change_time : ℕ

-- an object that must become available, and has not yet
abbrev pub is_blocking {ℓ} : {S : Type ℓ} → Workload S → Bool
is_blocking w = is_some w.progress && not w.non_critical

module _ {ℓ} {S : Type ℓ} ⦃e : Eq S⦄ where
  -- the state to keep for an object that is blocking: unchanged while its status is
  unfoldable pub refreshed : ℕ → S → Option (LastSeen S) → LastSeen S
  refreshed now status none = record { status = status; change_time = now }
  refreshed now status (some last) =
      if last.status == status then last else record { status = status; change_time = now }

  unfoldable pub is_hung : ℕ → S → Option (LastSeen S) → Bool
  unfolding refreshed
  is_hung now status none = false
  is_hung now status (some last) =
      ltb progress_timeout (now - (refreshed now status (some last)).change_time)

  -- the second part of each loop: the states after the object, and whether it is hung
  unfoldable pub track_workload :
      ℕ → Workload S → Dict ClusteredName (LastSeen S) → Dict ClusteredName (LastSeen S) × Bool
  unfolding is_hung
  track_workload now w states =
      let last = lookup w.name states in
      if is_blocking w
      then (insert w.name (refreshed now w.status last) states, is_hung now w.status last)
      else (remove w.name states, false)
