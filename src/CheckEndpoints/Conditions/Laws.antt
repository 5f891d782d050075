-- ===== src/CheckEndpoints/Conditions/Laws.antt =====
-- Reading a condition after one was set.
use cluster_network_operator.Prelude.{
  ℕ, String, ◌≡◌, refl, ap, true, false, ◌||◌, List, [], ◌∷◌, ◌++◌, Option, none, some, inl, inr,
  Bool-cases, arith, eq_iff, ◌==◌, string_eq, ==_refl, if◌then◌else◌, is_some,
}
use mathlib.Core.Option
use cluster_network_operator.CheckEndpoints.Status.{Condition, CheckStatus}
use cluster_network_operator.CheckEndpoints.Outage.{current_outage}
use cluster_network_operator.CheckEndpoints.Conditions.{
  has_type, updated_condition, update_last, set_condition, reachable, reachable_condition,
  manage_status_conditions,
}

-- the last condition of a type
pub find_condition : String → List Condition → Option Condition
find_condition t [] = none
find_condition t (c ∷ conditions) =
    if has_type t conditions
    then find_condition t conditions
    else if c.type == t
    then some c
    else none

abbrev pub set_result : ℕ → Condition → Option Condition → Condition
set_result now new none = record new { last_transition_time = now }
set_result now new (some c) = updated_condition now new c

find-none : (t : String) (cs : List Condition) → has_type t cs ≡ false → find_condition t cs ≡ none
unfolding find_condition
find-none t [] h = refl
find-none t (c ∷ cs) h = ground (arith, find-none t cs)

has_type-append :
    (t : String) (cs : List Condition) (c : Condition)
    → has_type t (cs ++ c ∷ []) ≡ (has_type t cs || c.type == t)
has_type-append t [] c = ground arith
has_type-append t (d ∷ cs) c = ground (arith, has_type-append t cs c)

find-append :
    (t : String) (cs : List Condition) (c : Condition)
    → find_condition t (cs ++ c ∷ []) ≡ (if c.type == t then some c else find_condition t cs)
unfolding find_condition
find-append t [] c = ground arith
find-append t (d ∷ cs) c =
    ground (arith, find-append t cs c, has_type-append t cs c, find-none t cs)

has_type-update_last :
    (now : ℕ) (new : Condition) (t : String) (cs : List Condition)
    → has_type t (update_last now new cs) ≡ has_type t cs
unfolding update_last
has_type-update_last now new t [] = refl
has_type-update_last now new t (c ∷ cs) = ground (arith, has_type-update_last now new t cs)

find-update_last :
    (now : ℕ) (new : Condition) (t : String) (cs : List Condition)
    → has_type new.type cs ≡ true
    → find_condition t (update_last now new cs) ≡ (
        if new.type == t
        then some (set_result now new (find_condition t cs))
        else find_condition t cs)
unfolding update_last find_condition
find-update_last now new t [] h = ground arith
find-update_last now new t (c ∷ cs) h = ground (
  arith,
  find-update_last now new t cs,
  has_type-update_last now new t cs,
  eq_iff new.type t,
  eq_iff c.type t,
  eq_iff c.type new.type,
  find-none t cs,
)

-- Setting a condition changes only what is read at its type: the reason and the message always
-- follow the new condition, and the time of the last transition is the current one if the condition
-- is new or its status changes, and stays otherwise.
pub find-set_condition :
    (now : ℕ) (new : Condition) (t : String) (cs : List Condition)
    → find_condition t (set_condition now new cs) ≡ (
        if new.type == t
        then some (set_result now new (find_condition t cs))
        else find_condition t cs)
unfolding set_condition
find-set_condition now new t cs = elim (Bool-cases (has_type new.type cs)) [
  | inl old ↦ rw old (find-update_last now new t cs old)
  | inr fresh ↦ rw fresh (
      ground (
        arith,
        find-append t cs (record new { last_transition_time = now }),
        find-none new.type cs,
        eq_iff new.type t,
      ))
]

set_result-status :
    (now : ℕ) (new : Condition) (o : Option Condition) → (set_result now new o).status ≡ new.status
unfolding updated_condition
set_result-status now new none = refl
set_result-status now new (some c) = refl

abbrev pub reachable_status : CheckStatus → Option String
reachable_status s = Option.map (λ c. c.status) (find_condition reachable s.conditions)

status-set_condition :
    (now : ℕ) (new : Condition) (cs : List Condition)
    → Option.map (λ c. c.status) (find_condition new.type (set_condition now new cs))
      ≡ some new.status
status-set_condition now new cs =
    rw (find-set_condition now new new.type cs, ==_refl new.type)
      (ap some (set_result-status now new (find_condition new.type cs)))

-- After the conditions were managed, the Reachable condition says "False" if an outage is open, and
-- "True" if none is.
pub reachable_status-manage :
    (now : ℕ) (s : CheckStatus)
    → reachable_status (manage_status_conditions now s)
      ≡ some (if is_some (current_outage s.outages) then "False" else "True")
unfolding manage_status_conditions
reachable_status-manage now s = elim (Bool-cases (is_some (current_outage s.outages))) [
  | inl open_ ↦ rw (open_, reachable_condition) (status-set_condition now _ s.conditions)
  | inr over ↦ rw (over, reachable_condition) (status-set_condition now _ s.conditions)
]
