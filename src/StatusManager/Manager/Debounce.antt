-- ===== src/StatusManager/Manager/Debounce.antt =====
-- `MaybeSetDegraded` over time.
use cluster_network_operator.Prelude.{
  ℕ, ◌+◌, ◌≤◌, ◌<◌, String, ◌≡◌, refl, ◌∙◌, ap, List, [], ◌∷◌, Option, none, some, All, nat_eq,
  ==_refl, arith, lookup, insert, lookup-insert,
}
use cluster_network_operator.StatusManager.Publish.{Environment, World, StatusManager}
use cluster_network_operator.StatusManager.Manager.{
  StatusLevel, index, State, degraded_failure_duration_threshold, debounced, maybe_set_degraded,
  set_degraded,
}

-- the failure of one level, reported by MaybeSetDegraded at a time
pub record Report : Type 0 where
  pub now : ℕ
  pub reason : String
  pub message : String

module _ (env : Environment) (level : StatusLevel) where
  pub report_all : List Report → State → State
  unfolding maybe_set_degraded
  report_all [] st = st
  report_all (r ∷ reports) st =
      report_all reports (maybe_set_degraded env r.now level r.reason r.message st)

  first_seen : State → Option ℕ
  first_seen (m, w) = lookup (index level) m.failure_first_seen

  maybe_first :
      (now : ℕ) (reason message : String) (m : StatusManager) (w : World)
      → lookup (index level) m.failure_first_seen ≡ none
      → maybe_set_degraded env now level reason message (m, w)
        ≡ (record m { failure_first_seen = insert (index level) now m.failure_first_seen }, w)
  unfolding maybe_set_degraded debounced
  maybe_first now reason message m w fresh = rw fresh

  maybe_early :
      (now seen : ℕ) (reason message : String) (m : StatusManager) (w : World)
      → lookup (index level) m.failure_first_seen ≡ some seen
      → now < seen + degraded_failure_duration_threshold
      → maybe_set_degraded env now level reason message (m, w) ≡ (m, w)
  unfolding maybe_set_degraded debounced
  maybe_early now seen reason message m w h early = ground (arith, h, early)

  maybe_late :
      (now seen : ℕ) (reason message : String) (m : StatusManager) (w : World)
      → lookup (index level) m.failure_first_seen ≡ some seen
      → seen + degraded_failure_duration_threshold ≤ now
      → maybe_set_degraded env now level reason message (m, w)
        ≡ set_degraded env level reason message (m, w)
  unfolding maybe_set_degraded debounced
  maybe_late now seen reason message m w h late = ground (arith, h, late)

  waiting :
      (seen : ℕ) (reports : List Report) (m : StatusManager) (w : World)
      → lookup (index level) m.failure_first_seen ≡ some seen
      → All (λ r. r.now < seen + degraded_failure_duration_threshold) reports
      → report_all reports (m, w) ≡ (m, w)
  unfolding report_all
  waiting seen [] m w h early = refl
  waiting seen (r ∷ reports) m w h early =
      ap (report_all reports) (maybe_early r.now seen r.reason r.message m w h early.0)
      ∙ waiting seen reports m w h early.1

  -- A level that has not failed before is first reported at some time. As long as the reports after it
  -- come within two minutes of the first, nothing but the time of the first is noted. The first report
  -- after that sets the level degraded.
  pub debounce :
      (first last : Report) (reports : List Report) (m : StatusManager) (w : World)
      → lookup (index level) m.failure_first_seen ≡ none
      → All (λ r. r.now < first.now + degraded_failure_duration_threshold) reports
      → first.now + degraded_failure_duration_threshold ≤ last.now
      → let noted = record m {
        failure_first_seen = insert (index level) first.now m.failure_first_seen;
      } in
        (report_all (first ∷ reports) (m, w) ≡ (noted, w))
        × (maybe_set_degraded env last.now level last.reason last.message
              (report_all (first ∷ reports) (m, w))
            ≡ set_degraded env level last.reason last.message (noted, w))
  unfolding report_all
  debounce first last reports m w fresh early late =
      let noted = record m {
        failure_first_seen = insert (index level) first.now m.failure_first_seen;
      } in
      let seen : lookup (index level) noted.failure_first_seen ≡ some first.now = rw (
        lookup-insert (index level) (index level) first.now m.failure_first_seen,
        ==_refl (index level),
      ) in
      let whole : report_all (first ∷ reports) (m, w) ≡ (noted, w) =
        ap (report_all reports) (maybe_first first.now first.reason first.message m w fresh)
        ∙ waiting first.now reports noted w seen early in
      (
        whole,
        ap (maybe_set_degraded env last.now level last.reason last.message) whole
            ∙ maybe_late last.now first.now last.reason last.message noted w seen late,
      )
