-- ===== src/StatusManager/Pods.antt =====
-- `SetFromPods`: what all workloads say together, and what is reported of it. The state that is kept
-- in an annotation between two passes (getLastPodState, setLastPodState) is an argument and a result;
-- an annotation that cannot be read is the empty one. What the texts look like is an argument.
pub mod Availability
pub mod Outcome
pub mod Install
use cluster_network_operator.Prelude.{
  ℕ, ◌+◌, String, Bool, true, false, ◌&&◌, ◌||◌, not, List, [], ◌∷◌, ◌++◌, map, any, Option, none,
  some, ◌==◌, nat_eq, string_eq, option_eq, Eq, nat_beq_iff, if◌then◌else◌, Dict, lookup, is_some,
  ◌≡◌, ◌↔◌, arith, concat, length,
}
use cluster_network_operator.Apps.{
  DaemonSet, DaemonSetStatus, Deployment, StatefulSet, ReplicaStatus,
}
use cluster_network_operator.StatusManager.Publish.{
  available, condition, Environment, World, StatusManager, set,
}
use cluster_network_operator.StatusManager.Manager.{
  State, pod_deployment, rollout_hung, pod_crash_loop_back_off, set_degraded, maybe_set_degraded,
  set_not_degraded, set_progressing, unset_progressing,
}
use cluster_network_operator.StatusManager.Workloads.{
  ClusteredName, name_eq, Kind, daemon_set, stateful_set, deployment, PodMessage, deploying,
  not_making_progress, crash_looping, Workload, LastSeen, is_blocking, refreshed, track_workload,
  daemon_set_workload, stateful_set_workload, deployment_workload,
}

-- `reflect.DeepEqual` on the counters of a status
abbrev pub same_daemon_set_status : DaemonSetStatus → DaemonSetStatus → Bool
same_daemon_set_status a b =
    a.current_number_scheduled == b.current_number_scheduled
    && a.number_misscheduled == b.number_misscheduled
    && a.desired_number_scheduled == b.desired_number_scheduled
    && a.number_ready == b.number_ready
    && a.observed_generation == b.observed_generation
    && a.updated_number_scheduled == b.updated_number_scheduled
    && a.number_available == b.number_available
    && a.number_unavailable == b.number_unavailable

pub same_daemon_set_status_iff :
    (a b : DaemonSetStatus) → (same_daemon_set_status a b ≡ true) ↔ (a ≡ b)
same_daemon_set_status_iff a b = ground arith

instance abbrev pub daemon_set_status_eq : Eq DaemonSetStatus
daemon_set_status_eq = record {
  equals = same_daemon_set_status;
  decides = same_daemon_set_status_iff;
}

abbrev pub same_replica_status : ReplicaStatus → ReplicaStatus → Bool
same_replica_status a b =
    a.observed_generation == b.observed_generation
    && a.replicas == b.replicas
    && a.updated_replicas == b.updated_replicas
    && a.ready_replicas == b.ready_replicas
    && a.available_replicas == b.available_replicas
    && a.unavailable_replicas == b.unavailable_replicas

pub same_replica_status_iff : (a b : ReplicaStatus) → (same_replica_status a b ≡ true) ↔ (a ≡ b)
same_replica_status_iff a b = ground arith

instance abbrev pub replica_status_eq : Eq ReplicaStatus
replica_status_eq = record { equals = same_replica_status; decides = same_replica_status_iff }

-- a pod as CheckCrashLoopBackOffPods reads it: per container the reason it waits for, if it waits
pub record Pod : Type 0 where
  pub name : String
  pub waiting : List (Option String)

-- one message for every pod with a container that is crash looping
unfoldable pub check_crash_loop_back_off_pods : Kind → ClusteredName → List Pod → List PodMessage
check_crash_loop_back_off_pods kind name [] = []
check_crash_loop_back_off_pods kind name (pod ∷ pods) =
    let rest = check_crash_loop_back_off_pods kind name pods in
    if any (λ r. r == some "CrashLoopBackOff") pod.waiting
    then crash_looping kind name pod.name ∷ rest
    else rest

-- what the loops collect; `annotations` says which objects are marked as hung, or no longer
pub record Findings : Type 0 where
  pub is_available : Bool
  pub progressing : List PodMessage
  pub hung : List PodMessage
  pub crashing : List PodMessage
  pub annotations : List (Kind × ClusteredName × Bool)

abbrev pub nothing_found : Findings
nothing_found = record {
  is_available = true;
  progressing = [];
  hung = [];
  crashing = [];
  annotations = [];
}

abbrev pub both_found : Findings → Findings → Findings
both_found f g = record {
  is_available = f.is_available && g.is_available;
  progressing = f.progressing ++ g.progressing;
  hung = f.hung ++ g.hung;
  crashing = f.crashing ++ g.crashing;
  annotations = f.annotations ++ g.annotations;
}

abbrev pub to_list : Option PodMessage → List PodMessage
to_list none = []
to_list (some m) = m ∷ []

module _ {ℓ} {S : Type ℓ} ⦃e : Eq S⦄ (now : ℕ) (pods : ClusteredName → List Pod) where
  unfoldable pub find_workload : Workload S → Dict ClusteredName (LastSeen S) → Findings
  unfolding check_crash_loop_back_off_pods track_workload
  find_workload w states =
      let hung = (track_workload now w states).1 in
      record {
        is_available = w.at_release && not (is_blocking w);
        progressing = to_list w.progress;
        hung =
            if hung
            then not_making_progress w.kind w.name
                (refreshed now w.status (lookup w.name states)).change_time
              ∷ []
            else [];
        crashing =
            if w.checks_crashes
            then check_crash_loop_back_off_pods w.kind w.name (pods w.name)
            else [];
        annotations = (w.kind, w.name, hung) ∷ [];
      }

  -- the loop over the objects of one kind
  unfoldable pub find_workloads :
      List (Workload S)
      → Dict ClusteredName (LastSeen S)
      → Dict ClusteredName (LastSeen S) × Findings
  unfolding find_workload
  find_workloads [] states = (states, nothing_found)
  find_workloads (w ∷ workloads) states =
      let (final, found) = find_workloads workloads (track_workload now w states).0 in
      (final, both_found (find_workload w states) found)

-- `podState`
pub record PodStates : Type 0 where
  pub daemon_sets : Dict ClusteredName (LastSeen DaemonSetStatus)
  pub deployments : Dict ClusteredName (LastSeen ReplicaStatus)
  pub stateful_sets : Dict ClusteredName (LastSeen ReplicaStatus)
  pub install_complete : Bool

-- the objects that the informers list
pub record Objects : Type 0 where
  pub daemon_sets : List DaemonSet
  pub deployments : List Deployment
  pub stateful_sets : List StatefulSet
  pub pods : ClusteredName → List Pod

abbrev pub has_objects : Objects → Bool
has_objects o = not (length o.daemon_sets + length o.deployments + length o.stateful_sets == 0)

-- the part before anything is reported
unfoldable pub find_all : ℕ → String → Bool → Objects → PodStates → PodStates × Findings
unfolding find_workloads daemon_set_workload stateful_set_workload deployment_workload
find_all now release install_complete o last =
    let (dss, f) =
      find_workloads now o.pods (map (daemon_set_workload release install_complete) o.daemon_sets)
        last.daemon_sets in
    let (sss, g) =
      find_workloads now o.pods
        (map (stateful_set_workload release install_complete) o.stateful_sets) last.stateful_sets in
    let (deps, h) =
      find_workloads now o.pods (map (deployment_workload release install_complete) o.deployments)
        last.deployments in
    let found = both_found f (both_found g h) in
    (
      record last { daemon_sets = dss; deployments = deps; stateful_sets = sss },
      record found {
        is_available = has_objects o && found.is_available;
        progressing = (if has_objects o then [] else deploying ∷ []) ++ found.progressing;
      },
    )

abbrev pub is_nil {ℓ} : {A : Type ℓ} → List A → Bool
is_nil [] = true
is_nil (x ∷ xs) = false

-- the texts, joined by line breaks
abbrev pub joined : (PodMessage → String) → List PodMessage → String
joined text [] = ""
joined text (m ∷ []) = text m
joined text (m ∷ n ∷ messages) = concat (text m ∷ "\n" ∷ joined text (n ∷ messages) ∷ [])

module _ (env : Environment) (text : PodMessage → String) where
  -- the reports, in the order of the code
  unfoldable pub report_progress : List PodMessage → State → State
  report_progress messages st =
      if is_nil messages
      then unset_progressing env pod_deployment st
      else set_progressing env pod_deployment "Deploying" (joined text messages) st

  unfoldable pub report_available : Bool → State → State
  report_available reached (m, w) =
      if reached then set env true (condition available "True" "" "" ∷ []) m w else (m, w)

  unfoldable pub report_hung : List PodMessage → State → State
  report_hung messages st =
      if is_nil messages
      then set_not_degraded env rollout_hung st
      else set_degraded env rollout_hung "RolloutHung" (joined text messages) st

  unfoldable pub report_crashing : ℕ → List PodMessage → State → State
  report_crashing now messages st =
      if is_nil messages
      then set_not_degraded env pod_crash_loop_back_off st
      else maybe_set_degraded env now pod_crash_loop_back_off "CrashLoopBackOff"
          (joined text messages) st

  abbrev pub complete_if : Bool → State → State
  complete_if done (m, w) = (record m { install_complete = m.install_complete || done }, w)

  -- the states to keep, the marks for hung objects, and the reports
  unfoldable pub set_from_pods :
      ℕ → Objects → PodStates → State → PodStates × List (Kind × ClusteredName × Bool) × State
  unfolding find_all report_progress report_available report_hung report_crashing
  set_from_pods now o last st =
      let (m, w) = complete_if last.install_complete st in
      let (states, found) = find_all now env.release m.install_complete o last in
      let (m', w') =
        complete_if (found.is_available && is_nil found.progressing)
          (set_not_degraded env pod_deployment (m, w)) in
      (
        record states { install_complete = m'.install_complete },
        found.annotations,
        report_crashing now found.crashing (
            report_hung found.hung
              (report_available found.is_available (report_progress found.progressing (m', w')))),
      )
