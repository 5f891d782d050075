-- ===== src/StatusManager/Publish/Operator.antt =====
-- The conditions of the operator's object after `set`.
use cluster_network_operator.Prelude.{
  String, ◌≡◌, ◌≢◌, refl, sym, ◌∙◌, ap, true, ◌&&◌, not, List, [], ◌∷◌, Option, none, some,
  string_eq, inl, inr, Bool-cases, ==_iff, ◌==◌, string_eq, is_some, arith, eq_iff,
}
use cluster_network_operator.StatusManager.Conditions.{
  OperatorCondition, ConditionLibrary, IsConditionLibrary, status_of, Distinct, set_all,
  set_all-Distinct,
}
use cluster_network_operator.StatusManager.Publish.{
  available, progressing, upgradeable, condition, startup, is_true, inherited, with_startup,
  operator_conditions_after,
}

module _ (library : ConditionLibrary) (laws : IsConditionLibrary library) where
  with_startup-Distinct :
      (cs : List OperatorCondition) → Distinct cs → Distinct (with_startup library cs)
  unfolding with_startup
  with_startup-Distinct cs d =
      elim (Bool-cases
        (not (is_some (library.find available cs)) && is_true (library.find progressing cs))) [
          | inl first ↦ rw first (laws.distinct startup cs d)
          | inr later ↦ rw later d
        ]

  inherited-Distinct :
      (cluster own : List OperatorCondition)
      → Distinct own
      → Distinct (inherited library cluster own)
  unfolding inherited
  inherited-Distinct cluster own d = elim (Bool-cases (is_some (library.find available own))) [
    | inl has ↦ rw has d
    | inr lacks ↦ rw lacks (set_all-Distinct library laws cluster own d)
  ]

  pub operator_conditions-Distinct :
      (conditions cluster own : List OperatorCondition)
      → Distinct own
      → Distinct (operator_conditions_after library conditions cluster own)
  unfolding operator_conditions_after
  operator_conditions-Distinct conditions cluster own d =
      laws.distinct (condition upgradeable "True" "" "") _ (
        with_startup-Distinct _
          (set_all-Distinct library laws conditions _ (inherited-Distinct cluster own d)))

  find-with_startup :
      (cs : List OperatorCondition) (t : String)
      → t ≢ available
      → library.find t (with_startup library cs) ≡ library.find t cs
  unfolding with_startup
  find-with_startup cs t h =
      elim (Bool-cases
        (not (is_some (library.find available cs)) && is_true (library.find progressing cs))) [
          | inl first ↦ rw first (laws.others startup cs t h)
          | inr later ↦ rw later
        ]

  find-operator_conditions :
      (conditions cluster own : List OperatorCondition) (t : String)
      → t ≢ available
      → t ≢ upgradeable
      → library.find t (operator_conditions_after library conditions cluster own)
        ≡ library.find t (set_all library conditions (inherited library cluster own))
  unfolding operator_conditions_after
  find-operator_conditions conditions cluster own t a u =
      laws.others (condition upgradeable "True" "" "") _ t u ∙ find-with_startup _ t a

  -- a condition that is set is reported
  pub operator_conditions-report :
      (c : OperatorCondition) (cluster own : List OperatorCondition)
      → c.type ≢ available
      → c.type ≢ upgradeable
      → status_of (library.find c.type (operator_conditions_after library (c ∷ []) cluster own))
        ≡ some c.status
  unfolding set_all
  operator_conditions-report c cluster own a u =
      ap status_of (find-operator_conditions (c ∷ []) cluster own c.type a u)
      ∙ laws.found c (inherited library cluster own)

  -- the others stay, once there is an Available condition
  pub operator_conditions-keep :
      (c : OperatorCondition) (cluster own : List OperatorCondition) (t : String)
      → t ≢ available
      → t ≢ upgradeable
      → t ≢ c.type
      → is_some (library.find available own) ≡ true
      → library.find t (operator_conditions_after library (c ∷ []) cluster own) ≡ library.find t own
  unfolding set_all inherited
  operator_conditions-keep c cluster own t a u ne has =
      find-operator_conditions (c ∷ []) cluster own t a u
      ∙ (laws.others c (inherited library cluster own) t ne ∙ rw has)

  inherited_self :
      (cluster own : List OperatorCondition)
      → is_some (library.find available own) ≡ true
      → inherited library cluster own ≡ own
  unfolding inherited
  inherited_self cluster own has = rw has

  with_startup_self :
      (cs : List OperatorCondition)
      → is_some (library.find available cs) ≡ true
      → with_startup library cs ≡ cs
  unfolding with_startup
  with_startup_self cs has = rw has

  apart : available ≢ upgradeable
  apart = ground (arith, eq_iff available upgradeable)

  is_some_status :
      (o : Option OperatorCondition) {s : String} → status_of o ≡ some s → is_some o ≡ true
  is_some_status none h = cc
  is_some_status (some c) h = refl

  has_available-set :
      (c : OperatorCondition) (own : List OperatorCondition)
      → is_some (library.find available own) ≡ true
      → is_some (library.find available (library.set c own)) ≡ true
  has_available-set c own has = elim (Bool-cases (c.type == available)) [
    | inl same ↦
        rw (sym ((==_iff c.type available).0 same))
          (is_some_status (library.find c.type (library.set c own)) (laws.found c own))
    | inr other ↦
        ap is_some (
          laws.others c own available
            (λ e. absurd (ground (arith, eq_iff c.type available, e, other))))
        ∙ has
  ]

  pub operator_conditions-available :
      (c : OperatorCondition) (cluster own : List OperatorCondition)
      → is_some (library.find available own) ≡ true
      → is_some (library.find available (operator_conditions_after library (c ∷ []) cluster own))
        ≡ true
  unfolding operator_conditions_after set_all
  operator_conditions-available c cluster own has =
      let up = condition upgradeable "True" "" "" in
      let still = has_available-set c own has in
      ap
        (λ q.
          is_some
            (library.find available (library.set up (with_startup library (library.set c q)))))
        (inherited_self cluster own has)
      ∙ (ap (λ q. is_some (library.find available (library.set up q)))
            (with_startup_self (library.set c own) still)
          ∙ has_available-set up (library.set c own) still)
