-- ===== src/StatusManager/Pods/Install.antt =====
-- When the installation counts as complete, in one pass and in later ones.
use mathlib.Core.Option
use cluster_network_operator.Prelude.{
  ℕ, ◌-◌, String, ◌≡◌, refl, ◌∙◌, ap, Bool, true, false, ◌&&◌, ◌||◌, List, [], ◌∷◌, Option, none,
  some, Bool-cases, inl, inr, nat_eq, ltb,
}
use cluster_network_operator.StatusManager.Conditions.{OperatorCondition}
use cluster_network_operator.StatusManager.Publish.{
  Environment, World, StatusManager, OperatorStatus, set, write_cluster, write_operator,
  operator_status_after,
}
use cluster_network_operator.StatusManager.Manager.{
  StatusLevel, State, pod_deployment, rollout_hung, pod_crash_loop_back_off,
  degraded_failure_duration_threshold, set_not_degraded, set_degraded, debounced,
  maybe_set_degraded, sync_degraded, set_progressing, unset_progressing, sync_progressing,
}
use cluster_network_operator.StatusManager.Workloads.{PodMessage}
use cluster_network_operator.StatusManager.Pods.{
  PodStates, Objects, find_all, is_nil, complete_if, report_progress, report_available, report_hung,
  report_crashing, set_from_pods,
}

-- the flag of the manager
abbrev complete : State → Bool
complete (m, w) = m.install_complete

write_cluster-complete :
    (env : Environment) (reached : Bool) (status : Option OperatorStatus) (m : StatusManager)
    (w : World)
    → complete (write_cluster env reached status m w) ≡ m.install_complete
unfolding write_cluster
write_cluster-complete env reached status m w = elim (Bool-cases w.cluster_readable) [
  | inl can ↦ rw can
  | inr cannot ↦ rw cannot
]

set-complete :
    (env : Environment) (reached : Bool) (conditions : List OperatorCondition) (m : StatusManager)
    (w : World)
    → complete (set env reached conditions m w) ≡ m.install_complete
unfolding set
set-complete env reached conditions m w =
    let status = Option.map (operator_status_after env conditions w) w.operator in
    write_cluster-complete env reached status m (write_operator env status w)

module _ (env : Environment) (text : PodMessage → String) where
  set_degraded-complete :
      (level : StatusLevel) (reason message : String) (st : State)
      → complete (set_degraded env level reason message st) ≡ complete st
  unfolding set_degraded sync_degraded
  set_degraded-complete level reason message (m, w) = set-complete env false _ _ w

  set_not_degraded-complete :
      (level : StatusLevel) (st : State) → complete (set_not_degraded env level st) ≡ complete st
  unfolding set_not_degraded sync_degraded
  set_not_degraded-complete level (m, w) = set-complete env false _ _ w

  debounced-complete :
      (now : ℕ) (seen : Option ℕ) (level : StatusLevel) (reason message : String) (st : State)
      → complete (debounced env now seen level reason message st) ≡ complete st
  unfolding debounced
  debounced-complete now none level reason message (m, w) = refl
  debounced-complete now (some seen) level reason message (m, w) =
      elim (Bool-cases (ltb (now - seen) degraded_failure_duration_threshold)) [
        | inl early ↦ rw early
        | inr late ↦ rw late (set_degraded-complete level reason message (m, w))
      ]

  report_progress-complete :
      (messages : List PodMessage) (st : State)
      → complete (report_progress env text messages st) ≡ complete st
  unfolding report_progress set_progressing unset_progressing sync_progressing
  report_progress-complete [] (m, w) = set-complete env false _ _ w
  report_progress-complete (x ∷ messages) (m, w) = set-complete env false _ _ w

  report_available-complete :
      (reached : Bool) (st : State) → complete (report_available env text reached st) ≡ complete st
  unfolding report_available
  report_available-complete true (m, w) = set-complete env true _ m w
  report_available-complete false (m, w) = refl

  report_hung-complete :
      (messages : List PodMessage) (st : State)
      → complete (report_hung env text messages st) ≡ complete st
  unfolding report_hung
  report_hung-complete [] st = set_not_degraded-complete rollout_hung st
  report_hung-complete (x ∷ messages) st = set_degraded-complete rollout_hung _ _ st

  report_crashing-complete :
      (now : ℕ) (messages : List PodMessage) (st : State)
      → complete (report_crashing env text now messages st) ≡ complete st
  unfolding report_crashing maybe_set_degraded
  report_crashing-complete now [] st = set_not_degraded-complete pod_crash_loop_back_off st
  report_crashing-complete now (x ∷ messages) (m, w) =
      debounced-complete now _ pod_crash_loop_back_off _ _ (m, w)

  -- After a pass over the pods the installation is complete, in the manager and in the state that is
  -- kept, exactly if it was complete in either before, or the pass found the operator available and
  -- nothing rolling out. So it never ends once it is complete.
  pub set_from_pods_complete :
      (now : ℕ) (o : Objects) (last : PodStates) (m : StatusManager) (w : World)
      → let before = m.install_complete || last.install_complete in
        let found = (find_all now env.release before o last).1 in
        let after = before || found.is_available && is_nil found.progressing in
        ((set_from_pods env text now o last (m, w)).2.0.install_complete ≡ after)
        × ((set_from_pods env text now o last (m, w)).0.install_complete ≡ after)
  unfolding set_from_pods
  set_from_pods_complete now o last m w =
      let m0 = record m { install_complete = m.install_complete || last.install_complete } in
      let found = (find_all now env.release m0.install_complete o last).1 in
      let s1 = set_not_degraded env pod_deployment (m0, w) in
      let done = found.is_available && is_nil found.progressing in
      let s2 = complete_if env text done s1 in
      let s3 = report_progress env text found.progressing s2 in
      let s4 = report_available env text found.is_available s3 in
      let s5 = report_hung env text found.hung s4 in
      let start : complete s2 ≡ (m0.install_complete || done) =
        ap (λ b. b || done) (set_not_degraded-complete pod_deployment (m0, w)) in
      (
        report_crashing-complete now found.crashing s5
            ∙ (report_hung-complete found.hung s4
                ∙ (report_available-complete found.is_available s3
                    ∙ (report_progress-complete found.progressing s2 ∙ start))),
        start,
      )
