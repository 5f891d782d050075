-- ===== src/StatusManager/Manager/Steady.antt =====
-- What becomes of the reported progress when degradation is reported.
use cluster_network_operator.Prelude.{
  ℕ, ◌-◌, ◌<◌, String, ◌≡◌, ◌≢◌, refl, sym, ◌∙◌, ap, subst, Bool, false, List, [], ◌∷◌, Option,
  none, some, ◌==◌, string_eq, nat_eq, inl, inr, Bool-cases, ltb, lookup, arith, eq_iff, length,
}
use cluster_network_operator.StatusManager.Conditions.{OperatorCondition}
use cluster_network_operator.StatusManager.Publish.{
  degraded, progressing, available, upgradeable, condition, Environment, World, StatusManager, set,
}
use cluster_network_operator.StatusManager.Publish.Mirror.{
  IsLawful, IsReachable, reported, published, set-IsReachable, set-reported, set-keeps,
  set-published,
}
use cluster_network_operator.StatusManager.Manager.{
  StatusLevel, index, set_at, first_failing, or_false, sync_degraded, set_degraded, debounced,
  maybe_set_degraded, set_not_degraded, set_progressing, sync_progressing,
  degraded_failure_duration_threshold,
}
use cluster_network_operator.StatusManager.Manager.Report.{
  two_types, AllTrue, first_failing-report, set_at-AllTrue, set_at-fails, progressing_apart, yes_no,
}

-- Both objects report the status, in a world where the API answers.
pub record Reports (env : Environment) (t s : String) (w : World) : Type 0 where
  pub ready : IsReachable env w
  pub by_operator : reported env t w ≡ some s
  pub by_cluster : published env t w ≡ some s

or_false-type :
    (t : String) (failing : List (Option OperatorCondition))
    → (or_false t (first_failing t failing)).type ≡ t
unfolding first_failing
or_false-type t [] = refl
or_false-type t (none ∷ failing) = or_false-type t failing
or_false-type t (some c ∷ failing) = elim (Bool-cases (c.type == t)) [
  | inl same ↦ rw same (ground (arith, eq_iff c.type t, same))
  | inr other ↦ rw other (or_false-type t failing)
]

module _ (env : Environment) (lawful : IsLawful env) where
  pub set-Reports :
      (reached : Bool) (c : OperatorCondition) (t s : String) (m : StatusManager) (w : World)
      → t ≢ available
      → t ≢ upgradeable
      → t ≢ c.type
      → Reports env t s w
      → Reports env t s (set env reached (c ∷ []) m w).1
  set-Reports reached c t s m w a u ne r =
      let kept = set-keeps env lawful reached c m w r.ready t a u ne ∙ r.by_operator in
      record {
        ready = set-IsReachable env lawful reached c m w r.ready;
        by_operator = kept;
        by_cluster = set-published env lawful reached c m w r.ready t s kept;
      }

  -- a condition that is set is reported by both objects
  pub set-Reports_own :
      (reached : Bool) (c : OperatorCondition) (m : StatusManager) (w : World)
      → c.type ≢ available
      → c.type ≢ upgradeable
      → IsReachable env w
      → Reports env c.type c.status (set env reached (c ∷ []) m w).1
  set-Reports_own reached c m w a u ready =
      let own = set-reported env lawful reached c m w ready a u in
      record {
        ready = set-IsReachable env lawful reached c m w ready;
        by_operator = own;
        by_cluster = set-published env lawful reached c m w ready c.type c.status own;
      }

  sync_degraded-Reports :
      (s : String) (m : StatusManager) (w : World)
      → Reports env progressing s w
      → Reports env progressing s (sync_degraded env (m, w)).1
  unfolding sync_degraded
  sync_degraded-Reports s m w r =
      let c = or_false degraded (first_failing degraded m.failing) in
      set-Reports false c progressing s m w progressing_apart.0 progressing_apart.1
        (λ e. two_types (e ∙ or_false-type degraded m.failing)) r

  sync_degraded-IsReachable :
      (m : StatusManager) (w : World)
      → IsReachable env w
      → IsReachable env (sync_degraded env (m, w)).1
  unfolding sync_degraded
  sync_degraded-IsReachable m w ready =
      set-IsReachable env lawful false (or_false degraded (first_failing degraded m.failing)) m w
        ready

  pub set_not_degraded-IsReachable :
      (level : StatusLevel) (m : StatusManager) (w : World)
      → IsReachable env w
      → IsReachable env (set_not_degraded env level (m, w)).1
  unfolding set_not_degraded
  set_not_degraded-IsReachable level m w ready = sync_degraded-IsReachable _ w ready

  -- what a level's progress makes both objects report
  pub set_progressing-Reports :
      (level : StatusLevel) (reason message : String) (m : StatusManager) (w : World)
      → AllTrue m.failing
      → index level < length m.failing
      → IsReachable env w
      → Reports env progressing "True" (set_progressing env level reason message (m, w)).1
  unfolding set_progressing sync_progressing
  set_progressing-Reports level reason message m w ok in_range ready =
      let own = condition progressing "True" reason message in
      let f = set_at (index level) (some own) m.failing in
      let m' = record m { failing = f } in
      let c = or_false progressing (first_failing progressing f) in
      let (type, status) =
        first_failing-report progressing f
          (set_at-AllTrue (index level) (some own) m.failing refl ok) in
      let shown =
        status
        ∙ ap yes_no (set_at-fails (index level) progressing (some own) m.failing in_range refl) in
      subst (λ v. Reports env progressing v (set env false (c ∷ []) m' w).1) shown
        (subst (λ t. Reports env t c.status (set env false (c ∷ []) m' w).1) type
          (set-Reports_own false c m' w (λ e. progressing_apart.0 (sym type ∙ e))
            (λ e. progressing_apart.1 (sym type ∙ e)) ready))

  module _ (level : StatusLevel) (reason message s : String) (m : StatusManager) (w : World)
      (r : Reports env progressing s w) where
    pub set_degraded-Reports :
        Reports env progressing s (set_degraded env level reason message (m, w)).1
    unfolding set_degraded
    set_degraded-Reports = sync_degraded-Reports s _ w r

    pub set_not_degraded-Reports : Reports env progressing s (set_not_degraded env level (m, w)).1
    unfolding set_not_degraded
    set_not_degraded-Reports = sync_degraded-Reports s _ w r

  debounced-Reports :
      (now : ℕ) (seen : Option ℕ) (level : StatusLevel) (reason message s : String)
      (m : StatusManager) (w : World)
      → Reports env progressing s w
      → Reports env progressing s (debounced env now seen level reason message (m, w)).1
  unfolding debounced
  debounced-Reports now none level reason message s m w r = r
  debounced-Reports now (some seen) level reason message s m w r =
      elim (Bool-cases (ltb (now - seen) degraded_failure_duration_threshold)) [
        | inl early ↦ rw early r
        | inr late ↦ rw late (set_degraded-Reports level reason message s m w r)
      ]

  pub maybe_set_degraded-Reports :
      (now : ℕ) (level : StatusLevel) (reason message s : String) (m : StatusManager) (w : World)
      → Reports env progressing s w
      → Reports env progressing s (maybe_set_degraded env now level reason message (m, w)).1
  unfolding maybe_set_degraded
  maybe_set_degraded-Reports now level reason message s m w r =
      debounced-Reports now (lookup (index level) m.failure_first_seen) level reason message s m w r
