-- ===== src/Tests/Conditions.antt =====
-- A library of conditions that keeps one condition of each type, with its laws.
use cluster_network_operator.Prelude.{
  String, ◌≡◌, ◌≢◌, refl, true, List, [], ◌∷◌, All, Option, none, some, ◌==◌, string_eq, ==_refl,
  ==_iff, Bool-cases, inl, inr, if◌then◌else◌, arith, eq_iff,
}
use cluster_network_operator.StatusManager.Conditions.{
  OperatorCondition, ConditionLibrary, IsConditionLibrary, Distinct, status_of,
}

abbrev find : String → List OperatorCondition → Option OperatorCondition
find t [] = none
find t (c ∷ cs) = if c.type == t then some c else find t cs

abbrev set : OperatorCondition → List OperatorCondition → List OperatorCondition
set c [] = c ∷ []
set c (d ∷ cs) = if d.type == c.type then c ∷ cs else d ∷ set c cs

found :
    (c : OperatorCondition) (cs : List OperatorCondition)
    → status_of (find c.type (set c cs)) ≡ some c.status
found c [] = rw (==_refl c.type)
found c (d ∷ cs) = elim (Bool-cases (d.type == c.type)) [
  | inl same ↦ rw (same, ==_refl c.type)
  | inr other ↦ rw (other, other) (found c cs)
]

others :
    (c : OperatorCondition) (cs : List OperatorCondition) (t : String)
    → t ≢ c.type
    → find t (set c cs) ≡ find t cs
others c [] t ne = ground (arith, eq_iff c.type t)
others c (d ∷ cs) t ne =
    ground (arith, eq_iff c.type t, eq_iff d.type t, eq_iff d.type c.type, others c cs t ne)

absent-set :
    (c : OperatorCondition) (cs : List OperatorCondition) (t : String)
    → c.type ≢ t
    → All (λ d. d.type ≢ t) cs
    → All (λ d. d.type ≢ t) (set c cs)
absent-set c [] t ne a = (ne, tt)
absent-set c (d ∷ cs) t ne a = elim (Bool-cases (d.type == c.type)) [
  | inl same ↦ rw same (ne, a.1)
  | inr other ↦ rw other (a.0, absent-set c cs t ne a.1)
]

distinct : (c : OperatorCondition) (cs : List OperatorCondition) → Distinct cs → Distinct (set c cs)
distinct c [] d = (tt, tt)
distinct c (e ∷ cs) d = elim (Bool-cases (e.type == c.type)) [
  | inl same ↦ rw same (replace same d.0, d.1)
  | inr other ↦ rw other (
    absent-set c cs e.type (λ p. absurd (ground (arith, p, other, eq_iff e.type c.type))) d.0,
    distinct c cs d.1,
  )
]
  where
    replace :
        (e.type == c.type) ≡ true → All (λ b. b.type ≢ e.type) cs → All (λ b. b.type ≢ c.type) cs
    replace same a = rw ((==_iff e.type c.type).0 same) at a

abbrev pub conditions : ConditionLibrary
conditions = record { find = find; set = set }

pub conditions-IsConditionLibrary : IsConditionLibrary conditions
conditions-IsConditionLibrary = record {
  find_nil = λ t. refl;
  find_cons = λ t c cs. refl;
  found = found;
  others = others;
  distinct = distinct;
}
