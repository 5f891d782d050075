-- ===== src/StatusManager/Conditions.antt =====
-- Operator conditions and the library-go helpers that find and set them among others. The helpers are
-- third-party code: a parameter, with what their documentation says as a record of laws. One record
-- stands for operv1.OperatorCondition and for configv1.ClusterOperatorStatusCondition.
use cluster_network_operator.Prelude.{
  ℕ, String, ◌≡◌, ◌≢◌, refl, sym, ◌∙◌, true, List, [], ◌∷◌, Option, none, some, ◌==◌, string_eq,
  All, inl, inr, Bool-cases, ==_iff, ap, if◌then◌else◌,
}

pub record OperatorCondition : Type 0 where
  pub type : String
  pub status : String
  pub reason : String
  pub message : String
  pub last_transition_time : ℕ

-- `find`: the first condition of a type. `set`: SetOperatorCondition, or SetStatusCondition after
-- OperatorConditionToClusterOperatorCondition.
pub record ConditionLibrary : Type 0 where
  pub find : String → List OperatorCondition → Option OperatorCondition
  pub set : OperatorCondition → List OperatorCondition → List OperatorCondition

abbrev pub status_of : Option OperatorCondition → Option String
status_of none = none
status_of (some c) = some c.status

abbrev pub Distinct : List OperatorCondition → Type 0
Distinct [] = Unit {0}
Distinct (c ∷ cs) = All (λ d. d.type ≢ c.type) cs × Distinct cs

-- `found` and `others`: setting a condition sets its status and leaves the other types alone.
pub record IsConditionLibrary (library : ConditionLibrary) : Type 0 where
  pub find_nil : (t : String) → library.find t [] ≡ none
  pub find_cons :
      (t : String) (c : OperatorCondition) (cs : List OperatorCondition)
      → library.find t (c ∷ cs) ≡ (if c.type == t then some c else library.find t cs)
  pub found :
      (c : OperatorCondition) (cs : List OperatorCondition)
      → status_of (library.find c.type (library.set c cs)) ≡ some c.status
  pub others :
      (c : OperatorCondition) (cs : List OperatorCondition) (t : String)
      → t ≢ c.type
      → library.find t (library.set c cs) ≡ library.find t cs
  pub distinct :
      (c : OperatorCondition) (cs : List OperatorCondition)
      → Distinct cs
      → Distinct (library.set c cs)

-- the loops that set one condition after the other
module _ (library : ConditionLibrary) where
  unfoldable pub set_all : List OperatorCondition → List OperatorCondition → List OperatorCondition
  set_all [] cs = cs
  set_all (c ∷ conditions) cs = set_all conditions (library.set c cs)

module _ (library : ConditionLibrary) (laws : IsConditionLibrary library) where
  pub set_all-Distinct :
      (conditions cs : List OperatorCondition)
      → Distinct cs
      → Distinct (set_all library conditions cs)
  unfolding set_all
  set_all-Distinct [] cs d = d
  set_all-Distinct (c ∷ conditions) cs d =
      set_all-Distinct conditions (library.set c cs) (laws.distinct c cs d)

  find-set_all :
      (conditions cs : List OperatorCondition) (t : String)
      → All (λ d. d.type ≢ t) conditions
      → library.find t (set_all library conditions cs) ≡ library.find t cs
  unfolding set_all
  find-set_all [] cs t absent = refl
  find-set_all (c ∷ conditions) cs t absent =
      find-set_all conditions (library.set c cs) t absent.1
      ∙ laws.others c cs t (λ e. absent.0 (sym e))

  status-find_cons :
      (t : String) (c : OperatorCondition) (cs : List OperatorCondition)
      → (c.type == t) ≡ true
      → status_of (library.find t (c ∷ cs)) ≡ some c.status
  status-find_cons t c cs same = rw (laws.find_cons t c cs, same)

  -- Setting all conditions of a list with distinct types gives a type the status that it has there.
  pub status-set_all :
      (conditions cs : List OperatorCondition) (t s : String)
      → Distinct conditions
      → status_of (library.find t conditions) ≡ some s
      → status_of (library.find t (set_all library conditions cs)) ≡ some s
  unfolding set_all
  status-set_all [] cs t s d h = absurd (absent (rw (laws.find_nil t) at h))
    where
      absent : (◌≡◌ {A = Option String} none (some s)) → ⊥
      absent e = cc
  status-set_all (c ∷ conditions) cs t s d h = elim (Bool-cases (c.type == t)) [
    | inl same ↦ rw (sym ((==_iff c.type t).0 same)) (
        ap status_of (find-set_all conditions (library.set c cs) c.type d.0)
        ∙ (laws.found c cs ∙ (sym (status-find_cons t c conditions same) ∙ h)))
    | inr other ↦
        status-set_all conditions (library.set c cs) t s d.1
          (rw (laws.find_cons t c conditions, other) at h)
  ]

pub find-agree :
    (a b : ConditionLibrary)
    → IsConditionLibrary a
    → IsConditionLibrary b
    → (t : String) (cs : List OperatorCondition) → a.find t cs ≡ b.find t cs
find-agree a b la lb t [] = la.find_nil t ∙ sym (lb.find_nil t)
find-agree a b la lb t (c ∷ cs) =
    la.find_cons t c cs
    ∙ (ap (λ r. if c.type == t then some c else r) (find-agree a b la lb t cs)
        ∙ sym (lb.find_cons t c cs))
