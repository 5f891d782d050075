-- ===== src/StatusManager/Pods/Outcome.antt =====
-- What one pass over the pods leaves in the manager and in the report.
use cluster_network_operator.Prelude.{
  ℕ, zero, suc, ◌<◌, String, ◌≡◌, ◌≢◌, refl, sym, ap, subst, Bool, true, false, ◌&&◌, ◌||◌, List,
  [], ◌∷◌, none, some, arith, eq_iff, length, nat_eq,
}
use cluster_network_operator.StatusManager.Publish.{
  progressing, available, upgradeable, condition, Environment, World, StatusManager,
}
use cluster_network_operator.StatusManager.Publish.Mirror.{IsLawful, IsReachable, published}
use cluster_network_operator.StatusManager.Manager.{
  StatusLevel, index, set_at, pod_deployment, rollout_hung, pod_crash_loop_back_off,
  set_not_degraded, sync_degraded,
}
use cluster_network_operator.StatusManager.Manager.Report.{AllTrue, set_at-AllTrue, set-failing}
use cluster_network_operator.StatusManager.Manager.Steady.{
  Reports, set-Reports, set_progressing-Reports, set_degraded-Reports, set_not_degraded-Reports,
  maybe_set_degraded-Reports, set_not_degraded-IsReachable,
}
use cluster_network_operator.StatusManager.Workloads.{PodMessage}
use cluster_network_operator.StatusManager.Pods.{
  PodStates, Objects, find_all, is_nil, joined, report_progress, report_available, report_hung,
  report_crashing, set_from_pods,
}

progressing_not_available : progressing ≢ available
progressing_not_available = ground (arith, eq_iff progressing available)

progressing_not_upgradeable : progressing ≢ upgradeable
progressing_not_upgradeable = ground (arith, eq_iff progressing upgradeable)

length-set_at {ℓ} : {A : Type ℓ} (n : ℕ) (x : A) (xs : List A) → length (set_at n x xs) ≡ length xs
unfolding set_at
length-set_at n x [] = refl
length-set_at zero x (y ∷ xs) = refl
length-set_at (suc n) x (y ∷ xs) = ap suc (length-set_at n x xs)

set_not_degraded-failing :
    (env : Environment) (level : StatusLevel) (m : StatusManager) (w : World)
    → (set_not_degraded env level (m, w)).0.failing ≡ set_at (index level) none m.failing
unfolding set_not_degraded sync_degraded
set_not_degraded-failing env level m w = set-failing env false _ _ w

module _ (env : Environment) (lawful : IsLawful env) (text : PodMessage → String) where
  report_available-Reports :
      (reached : Bool) (s : String) (m : StatusManager) (w : World)
      → Reports env progressing s w
      → Reports env progressing s (report_available env text reached (m, w)).1
  unfolding report_available
  report_available-Reports true s m w r =
      set-Reports env lawful true (condition available "True" "" "") progressing s m w
        progressing_not_available progressing_not_upgradeable progressing_not_available r
  report_available-Reports false s m w r = r

  report_hung-Reports :
      (messages : List PodMessage) (s : String) (m : StatusManager) (w : World)
      → Reports env progressing s w
      → Reports env progressing s (report_hung env text messages (m, w)).1
  unfolding report_hung
  report_hung-Reports [] s m w r = set_not_degraded-Reports env lawful rollout_hung "" "" s m w r
  report_hung-Reports (x ∷ messages) s m w r =
      set_degraded-Reports env lawful rollout_hung "RolloutHung" (joined text (x ∷ messages)) s m w
        r

  report_crashing-Reports :
      (now : ℕ) (messages : List PodMessage) (s : String) (m : StatusManager) (w : World)
      → Reports env progressing s w
      → Reports env progressing s (report_crashing env text now messages (m, w)).1
  unfolding report_crashing
  report_crashing-Reports now [] s m w r =
      set_not_degraded-Reports env lawful pod_crash_loop_back_off "" "" s m w r
  report_crashing-Reports now (x ∷ messages) s m w r =
      maybe_set_degraded-Reports env lawful now pod_crash_loop_back_off "CrashLoopBackOff"
        (joined text (x ∷ messages)) s m w r

  report_progress-Reports :
      (messages : List PodMessage) (m : StatusManager) (w : World)
      → is_nil messages ≡ false
      → AllTrue m.failing
      → index pod_deployment < length m.failing
      → IsReachable env w
      → Reports env progressing "True" (report_progress env text messages (m, w)).1
  unfolding report_progress
  report_progress-Reports [] m w some_message ok in_range ready =
      absurd (ground (arith, some_message))
  report_progress-Reports (x ∷ messages) m w some_message ok in_range ready =
      set_progressing-Reports env lawful pod_deployment "Deploying" (joined text (x ∷ messages)) m w
        ok in_range ready

  -- Where both objects are there, readable and writable, the operator's with distinct conditions and an
  -- Available one, the libraries keep their laws and every failure is true: when a pass over the pods
  -- finds anything that is rolling out, the cluster operator reports Progressing after it, whatever the
  -- pass reports of hung and crashing pods.
  pub set_from_pods-published :
      (now : ℕ) (o : Objects) (last : PodStates) (m : StatusManager) (w : World)
      → AllTrue m.failing
      → index pod_deployment < length m.failing
      → IsReachable env w
      → is_nil
          (find_all now env.release
            (m.install_complete || last.install_complete)
            o
            last).1.progressing
        ≡ false
      → published env progressing (set_from_pods env text now o last (m, w)).2.1 ≡ some "True"
  unfolding set_from_pods
  set_from_pods-published now o last m w ok in_range ready found =
      let m0 = record m { install_complete = m.install_complete || last.install_complete } in
      let (states, findings) = find_all now env.release m0.install_complete o last in
      let (m1, w1) = set_not_degraded env pod_deployment (m0, w) in
      let m2 = record m1 {
        install_complete =
            m1.install_complete || findings.is_available && is_nil findings.progressing;
      } in
      let failing = sym (set_not_degraded-failing env pod_deployment m0 w) in
      let r2 =
        report_progress-Reports findings.progressing m2 w1 found
          (subst AllTrue failing (set_at-AllTrue (index pod_deployment) none m.failing tt ok))
          (subst (λ f. index pod_deployment < length f) failing
            (omega (arith, length-set_at (index pod_deployment) none m.failing, in_range)))
          (set_not_degraded-IsReachable env lawful pod_deployment m0 w ready) in
      let (m3, w3) = report_progress env text findings.progressing (m2, w1) in
      let (m4, w4) = report_available env text findings.is_available (m3, w3) in
      let (m5, w5) = report_hung env text findings.hung (m4, w4) in
      (report_crashing-Reports now findings.crashing "True" m5 w5 (
        report_hung-Reports findings.hung "True" m4 w4
          (report_available-Reports findings.is_available "True" m3 w3 r2))).by_cluster
