-- ===== src/StatusManager/Manager/Report.antt =====
-- What the operations make the operator report, with an API that answers.
use cluster_network_operator.Prelude.{
  ℕ, zero, suc, ◌<◌, String, ◌≡◌, ◌≢◌, refl, sym, ◌∙◌, ap, subst, inl, inr, Bool, true, false, List,
  [], ◌∷◌, Option, none, some, any, All, length, ◌==◌, string_eq, Bool-cases, remove, nat_eq, arith,
  eq_iff,
}
use mathlib.Core.Option
use cluster_network_operator.StatusManager.Conditions.{OperatorCondition}
use cluster_network_operator.StatusManager.Publish.{
  degraded, progressing, available, upgradeable, condition, Environment, World, StatusManager, set,
  write_cluster, write_operator, operator_status_after, OperatorStatus,
}
use cluster_network_operator.StatusManager.Publish.Mirror.{
  IsLawful, IsReachable, reported, published, set-reported, set-keeps, set-published,
}
use cluster_network_operator.StatusManager.Manager.{
  StatusLevel, index, set_at, of_type, first_failing, or_false, sync_degraded, sync_progressing,
  set_degraded, set_not_degraded, set_progressing, unset_progressing,
}

-- does any level fail in this way?
abbrev pub fails : String → List (Option OperatorCondition) → Bool
fails t failing = any (of_type t) failing

abbrev pub yes_no : Bool → String
yes_no true = "True"
yes_no false = "False"

-- every failure is a condition of status "True"
abbrev IsTrue : Option OperatorCondition → Type 0
IsTrue none = Unit {0}
IsTrue (some c) = c.status ≡ "True"

abbrev pub AllTrue : List (Option OperatorCondition) → Type 0
AllTrue = All IsTrue

of_type-some :
    (t : String) (f : Option OperatorCondition)
    → of_type t f ≡ true
    → (c : OperatorCondition) × (f ≡ some c) × (c.type ≡ t)
of_type-some t none h = absurd (ground (arith, h))
of_type-some t (some c) h = (c, refl, ground (arith, h, eq_iff c.type t))

pub first_failing-report :
    (t : String) (failing : List (Option OperatorCondition))
    → AllTrue failing
    → let c = or_false t (first_failing t failing) in
      (c.type ≡ t) × (c.status ≡ yes_no (fails t failing))
unfolding first_failing
first_failing-report t [] ok = (refl, refl)
first_failing-report t (none ∷ failing) ok = first_failing-report t failing ok.1
first_failing-report t (some c ∷ failing) ok = elim (Bool-cases (c.type == t)) [
  | inl same ↦ rw same (ground (arith, eq_iff c.type t, same), ok.0)
  | inr other ↦ rw other (first_failing-report t failing ok.1)
]

pub set_at-AllTrue :
    (n : ℕ) (f : Option OperatorCondition) (failing : List (Option OperatorCondition))
    → IsTrue f
    → AllTrue failing
    → AllTrue (set_at n f failing)
unfolding set_at
set_at-AllTrue n f [] t ok = tt
set_at-AllTrue zero f (g ∷ failing) t ok = (t, ok.1)
set_at-AllTrue (suc n) f (g ∷ failing) t ok = (ok.0, set_at-AllTrue n f failing t ok.1)

pub set_at-fails :
    (n : ℕ) (t : String) (f : Option OperatorCondition) (failing : List (Option OperatorCondition))
    → n < length failing
    → of_type t f ≡ true
    → fails t (set_at n f failing) ≡ true
unfolding set_at
set_at-fails n t f [] h e = absurd (omega arith)
set_at-fails zero t f (g ∷ failing) h e = ground (arith, e)
set_at-fails (suc n) t f (g ∷ failing) h e =
    ground (arith, set_at-fails n t f failing (omega arith) e)

set_at-other :
    (n : ℕ) (t : String) (f : Option OperatorCondition) (failing : List (Option OperatorCondition))
    → of_type t f ≡ false
    → fails t (set_at n f failing) ≡ fails t (set_at n none failing)
unfolding set_at
set_at-other n t f [] h = refl
set_at-other zero t f (g ∷ failing) h = ground (arith, h)
set_at-other (suc n) t f (g ∷ failing) h = ground (arith, set_at-other n t f failing h)

write_cluster-failing :
    (env : Environment) (reached : Bool) (status : Option OperatorStatus) (m : StatusManager)
    (w : World)
    → (write_cluster env reached status m w).0.failing ≡ m.failing
unfolding write_cluster
write_cluster-failing env reached status m w = elim (Bool-cases w.cluster_readable) [
  | inl can ↦ rw can
  | inr cannot ↦ rw cannot
]

pub set-failing :
    (env : Environment) (reached : Bool) (conditions : List OperatorCondition) (m : StatusManager)
    (w : World)
    → (set env reached conditions m w).0.failing ≡ m.failing
unfolding set
set-failing env reached conditions m w =
    let status = Option.map (operator_status_after env conditions w) w.operator in
    write_cluster-failing env reached status m (write_operator env status w)

pub two_types : progressing ≢ degraded
two_types = ground (arith, eq_iff progressing degraded)

pub degraded_apart : (degraded ≢ available) × (degraded ≢ upgradeable)
degraded_apart = ground (arith, eq_iff degraded available, eq_iff degraded upgradeable)

pub progressing_apart : (progressing ≢ available) × (progressing ≢ upgradeable)
progressing_apart = ground (arith, eq_iff progressing available, eq_iff progressing upgradeable)

module _ (env : Environment) (lawful : IsLawful env) where
  pub sync_published :
      (t : String) (m : StatusManager) (w : World)
      → t ≢ available
      → t ≢ upgradeable
      → AllTrue m.failing
      → IsReachable env w
      → let c = or_false t (first_failing t m.failing) in
        published env t (set env false (c ∷ []) m w).1 ≡ some (yes_no (fails t m.failing))
  sync_published t m w a u ok ready =
      let c = or_false t (first_failing t m.failing) in
      let (type, status) = first_failing-report t m.failing ok in
      set-published env lawful false c m w ready t (yes_no (fails t m.failing)) (
        subst
          (λ s. reported env s (set env false (c ∷ []) m w).1 ≡ some (yes_no (fails t m.failing)))
          type
          (set-reported env lawful false c m w ready (λ e. a (sym type ∙ e)) (λ e. u (sym type ∙ e))
            ∙ ap some status))

  module _ (level : StatusLevel) (m : StatusManager) (w : World) (ok : AllTrue m.failing)
      (ready : IsReachable env w) where
    -- Where both objects are there, readable and writable, the operator's with distinct conditions and
    -- an Available one, the libraries keep their laws and every failure is true: after a level was
    -- set degraded, the cluster operator reports Degraded.
    pub set_degraded-published :
        (reason message : String)
        → index level < length m.failing
        → published env degraded (set_degraded env level reason message (m, w)).1 ≡ some "True"
    unfolding set_degraded sync_degraded
    set_degraded-published reason message in_range =
        let c = condition degraded "True" reason message in
        sync_published degraded _ w degraded_apart.0 degraded_apart.1
          (set_at-AllTrue (index level) (some c) m.failing refl ok) ready
        ∙ ap (λ b. some (yes_no b))
            (set_at-fails (index level) degraded (some c) m.failing in_range refl)

    -- Where both objects are there, readable and writable, the operator's with distinct conditions and
    -- an Available one, the libraries keep their laws and every failure is true: after a level was
    -- set not degraded, the cluster operator reports Degraded exactly if another level still is.
    pub set_not_degraded-published :
        published env degraded (set_not_degraded env level (m, w)).1
        ≡ some (yes_no (fails degraded (set_at (index level) none m.failing)))
    unfolding set_not_degraded sync_degraded
    set_not_degraded-published =
        sync_published degraded _ w degraded_apart.0 degraded_apart.1
          (set_at-AllTrue (index level) none m.failing tt ok) ready

    -- Where both objects are there, readable and writable, the operator's with distinct conditions and
    -- an Available one, the libraries keep their laws and every failure is true: after progress of a
    -- level was reported, the cluster operator reports Progressing, and after it ended, exactly if
    -- another level is still progressing.
    pub progress-published :
        (reason message : String)
        → index level < length m.failing
        → (published env progressing (set_progressing env level reason message (m, w)).1
            ≡ some "True")
          × (published env progressing (unset_progressing env level (m, w)).1
              ≡ some (yes_no (fails progressing (set_at (index level) none m.failing))))
    unfolding set_progressing unset_progressing sync_progressing
    progress-published reason message in_range =
        let c = condition progressing "True" reason message in
        (
          sync_published progressing _ w progressing_apart.0 progressing_apart.1
                (set_at-AllTrue (index level) (some c) m.failing refl ok) ready
              ∙ ap (λ b. some (yes_no b))
                  (set_at-fails (index level) progressing (some c) m.failing in_range refl),
          sync_published progressing _ w progressing_apart.0 progressing_apart.1
              (set_at-AllTrue (index level) none m.failing tt ok) ready,
        )

    -- Where both objects are there, readable and writable, the operator's with distinct conditions and
    -- an Available one, the libraries keep their laws, every failure is true and Progressing is
    -- reported: when no level but one is progressing and that one is set degraded, no level is
    -- progressing any more, but the cluster operator still reports Progressing.
    pub degrading_keeps_progress :
        (reason message : String)
        → reported env progressing w ≡ some "True"
        → fails progressing (set_at (index level) none m.failing) ≡ false
        → let (m', w') = set_degraded env level reason message (m, w) in
          (fails progressing m'.failing ≡ false) × (published env progressing w' ≡ some "True")
    unfolding set_degraded sync_degraded
    degrading_keeps_progress reason message before alone =
        let f = set_at (index level) (some (condition degraded "True" reason message)) m.failing in
        let m0 = record m {
          failing = f;
          failure_first_seen = remove (index level) m.failure_first_seen;
        } in
        let c = or_false degraded (first_failing degraded f) in
        let type =
          (first_failing-report degraded f (set_at-AllTrue (index level) _ m.failing refl ok)).0 in
        (
          ap (fails progressing) (set-failing env false (c ∷ []) m0 w)
              ∙ (set_at-other (index level) progressing _ m.failing refl ∙ alone),
          set-published env lawful false c m0 w ready progressing "True" (
              set-keeps env lawful false c m0 w ready progressing progressing_apart.0
                progressing_apart.1 (λ e. two_types (e ∙ type))
              ∙ before),
        )
