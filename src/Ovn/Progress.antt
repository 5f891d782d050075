-- ===== src/Ovn/Progress.antt =====
-- `daemonSetProgressing` and `deploymentProgressing`: is an object still rolling out a change?
use cluster_network_operator.Prelude.{
  ℕ, ◌+◌, ◌-◌, ◌*◌, ◌/◌, ◌≤◌, max, String, ◌≡◌, ◌⊎◌, Bool, true, false, ◌&&◌, ◌||◌, not, ◌==◌,
  nat_eq, string_eq, ltb, leb, if◌then◌else◌, is_some, lookup, arith,
}
use cluster_network_operator.Apps.{DaemonSet, Deployment}

abbrev pub rollout_hung_annotation : String
rollout_hung_annotation = "networkoperator.openshift.io/rollout-hung"

-- the counters of `daemonSetProgressing` that say that a change is not rolled out yet
unfoldable pub rollout_incomplete : DaemonSet → Bool
rollout_incomplete ds =
    ltb updated_number_scheduled desired_number_scheduled
    || ltb 0 number_unavailable
    || number_available == 0 && ltb 0 desired_number_scheduled
    || ltb observed_generation ds.generation
  where
    open ds.status use {
      updated_number_scheduled, desired_number_scheduled, number_unavailable, number_available,
      observed_generation,
    }

-- `math.Floor(float64(desired) * 0.1)` is `desired / 10` for a 32-bit count. The difference behind
-- `numBehind` may be negative in the source, and stops at 0 here: both are at most `max_behind`,
-- which is at least 1.
unfoldable pub max_behind : ℕ → ℕ
max_behind desired = max 1 (desired / 10)

unfoldable pub daemon_set_progressing : DaemonSet → Bool → Bool
unfolding rollout_incomplete max_behind
daemon_set_progressing ds allow_hung =
    let hung = is_some (lookup rollout_hung_annotation ds.annotations) in
    let num_behind = desired_number_scheduled - updated_number_scheduled in
    if not (rollout_incomplete ds)
    then false
    else if allow_hung && hung && leb num_behind (max_behind desired_number_scheduled)
    then false
    else true
  where
    open ds.status use {desired_number_scheduled, updated_number_scheduled}

unfoldable pub deployment_progressing : Deployment → Bool
deployment_progressing d =
    ltb updated_replicas replicas
    || ltb available_replicas replicas
    || ltb observed_generation d.generation
  where
    open d.status use {updated_replicas, replicas, available_replicas, observed_generation}

-- A daemonset that counts as rolled out has the new pods on all nodes but one, or on nine tenths of
-- them at least. If hung rollouts do not count, or it is not marked as hung, its rollout is
-- complete: every desired pod is updated, none is unavailable, and the controller has observed the
-- latest generation.
pub daemon_set_rolled_out :
    (ds : DaemonSet) (allow_hung : Bool)
    → daemon_set_progressing ds allow_hung ≡ false
    → let s = ds.status in
      ((s.desired_number_scheduled ≤ s.updated_number_scheduled + 1)
        ⊎ (9 * s.desired_number_scheduled ≤ 10 * s.updated_number_scheduled))
      × ((allow_hung ≡ true) × (is_some (lookup rollout_hung_annotation ds.annotations) ≡ true)
          ⊎ (s.desired_number_scheduled ≤ s.updated_number_scheduled)
            × (s.number_unavailable ≡ 0)
            × (ds.generation ≤ s.observed_generation))
unfolding daemon_set_progressing
daemon_set_rolled_out ds allow_hung h = ground arith

-- With hung rollouts counted as done, a hung daemonset with a single desired pod is done although
-- the pod is not updated.
pub hung_single_node :
    (ds : DaemonSet)
    → is_some (lookup rollout_hung_annotation ds.annotations) ≡ true
    → ds.status.desired_number_scheduled ≡ 1
    → ds.status.updated_number_scheduled ≡ 0
    → (daemon_set_progressing ds true ≡ false) × (daemon_set_progressing ds false ≡ true)
unfolding daemon_set_progressing
hung_single_node ds hung one none_updated = ground arith
