-- ===== src/Ovn/Cluster/Convergence.antt =====
-- Upgrades in rounds: a reconciliation, after which the cluster finishes the rollouts it was given.
use cluster_network_operator.Prelude.{
  ℕ, zero, suc, String, ◌≡◌, ◌⊎◌, refl, inl, inr, false, Option, none, some, List, arith, eq_iff,
}
use cluster_network_operator.Ovn.Status.{UpdateStatus}
use cluster_network_operator.Version.{Semver, upgrade, compare_versions}
use cluster_network_operator.Ovn.Upgrade.{after_prepull, upgrade_update}
use cluster_network_operator.Ovn.Cluster.{
  Cluster, with_progressing, pre_puller_progressing, reconcile,
}
use cluster_network_operator.Ovn.Cluster.Invariant.{
  Ordered, FamilySettled, compare_versions_self, decide_rollout-settled,
}

abbrev pub settled : Cluster → Cluster
settled c = record {
  node = with_progressing false c.node;
  control_plane = with_progressing false c.control_plane;
  pre_puller = pre_puller_progressing false c.pre_puller;
}

abbrev pub AtVersion : String → Cluster → Type 0
AtVersion v c = (c.node.version ≡ v) × (c.control_plane.version ≡ v)

-- the pre-puller has pulled the image of the release
abbrev Pulled : String → Option UpdateStatus → Type 0
Pulled release none = ⊥
Pulled release (some p) = (p.version ≡ release) × (p.progressing ≡ false)

Pulled-cases :
    (release : String) (o : Option UpdateStatus)
    → Pulled release o
    → (p : UpdateStatus) × (o ≡ some p) × (p.version ≡ release) × (p.progressing ≡ false)
Pulled-cases release none h = absurd h
Pulled-cases release (some p) h = (p, refl, h.0, h.1)

module _ (semver : Semver) (service_network : List String) (release : String) where
  -- one reconciliation, after which the cluster finishes its rollouts
  round : Cluster → Cluster
  unfolding reconcile
  round c = settled (reconcile semver service_network release c)

  pub rounds : ℕ → Cluster → Cluster
  rounds zero c = c
  rounds (suc n) c = rounds n (round c)

-- The node has the new version, and has rolled it out.
abbrev NodeDone : String → String → Cluster → Type 0
NodeDone old release c =
    (c.node.version ≡ release)
    × (c.node.progressing ≡ false)
    × ((c.control_plane.version ≡ old) ⊎ (c.control_plane.version ≡ release))

-- One round at each stage of an upgrade.
module _ (semver : Semver) (service_network : List String) (old release : String) where
  round-FamilySettled :
      (c : Cluster)
      → FamilySettled service_network c
      → FamilySettled service_network (round semver service_network release c)
  unfolding round
  round-FamilySettled c f = ground arith

  module _ (older : compare_versions semver old release ≡ upgrade) (c : Cluster)
      (f : FamilySettled service_network c) where
    round-Ordered :
        Ordered old release c.node c.control_plane
        → let d = round semver service_network release c in NodeDone old release d ⊎ AtVersion old d
    unfolding round after_prepull upgrade_update
    round-Ordered l = ground (
      arith,
      decide_rollout-settled semver service_network release c f,
      compare_versions_self semver release,
      eq_iff c.node.version release,
      eq_iff c.control_plane.version release,
      eq_iff old release,
    )

    round-AtVersion :
        AtVersion old c
        → let d = round semver service_network release c in
          NodeDone old release d ⊎ (AtVersion old d × Pulled release d.pre_puller)
    unfolding round after_prepull upgrade_update
    round-AtVersion l = ground (
      arith,
      decide_rollout-settled semver service_network release c f,
      compare_versions_self semver release,
      eq_iff c.node.version release,
      eq_iff c.control_plane.version release,
      eq_iff old release,
    )

    round-Pulled :
        AtVersion old c
        → (p : UpdateStatus) → c.pre_puller ≡ some p
        → p.version ≡ release
        → p.progressing ≡ false
        → NodeDone old release (round semver service_network release c)
    unfolding round after_prepull upgrade_update
    round-Pulled l p e v q = ground (
      arith,
      decide_rollout-settled semver service_network release c f,
      compare_versions_self semver release,
      eq_iff c.node.version release,
      eq_iff c.control_plane.version release,
      eq_iff old release,
      eq_iff p.version release,
    )

    round-NodeDone :
        NodeDone old release c
        → AtVersion release (round semver service_network release c)
          × NodeDone old release (round semver service_network release c)
    unfolding round after_prepull upgrade_update
    round-NodeDone l = ground (
      arith,
      decide_rollout-settled semver service_network release c f,
      compare_versions_self semver release,
      eq_iff c.node.version release,
      eq_iff c.control_plane.version release,
      eq_iff old release,
    )

  round-Updated :
      (c : Cluster)
      → FamilySettled service_network c
      → AtVersion release c
      → AtVersion release (round semver service_network release c)
  unfolding round after_prepull upgrade_update
  round-Updated c f l = ground (
    arith,
    decide_rollout-settled semver service_network release c f,
    compare_versions_self semver release,
    eq_iff c.node.version release,
    eq_iff c.control_plane.version release,
    eq_iff old release,
  )

  rounds-Updated :
      (n : ℕ) (c : Cluster)
      → FamilySettled service_network c
      → AtVersion release c
      → AtVersion release (rounds semver service_network release n c)
  unfolding rounds
  rounds-Updated zero c f l = l
  rounds-Updated (suc n) c f l =
      rounds-Updated n (round semver service_network release c) (round-FamilySettled c f)
        (round-Updated c f l)

  module _ (older : compare_versions semver old release ≡ upgrade) where
    rounds-NodeDone :
        (n : ℕ) (c : Cluster)
        → FamilySettled service_network c
        → NodeDone old release c
        → AtVersion release (rounds semver service_network release (suc n) c)
    unfolding rounds
    rounds-NodeDone n c f l =
        rounds-Updated n (round semver service_network release c) (round-FamilySettled c f)
          (round-NodeDone older c f l).0

    rounds-Pulled :
        (n : ℕ) (c : Cluster)
        → FamilySettled service_network c
        → NodeDone old release c ⊎ (AtVersion old c × Pulled release c.pre_puller)
        → AtVersion release (rounds semver service_network release (suc (suc n)) c)
    unfolding rounds
    rounds-Pulled n c f (inl l) = rounds-NodeDone (suc n) c f l
    rounds-Pulled n c f (inr (l, pulled)) =
        let (p, e, v, q) = Pulled-cases release c.pre_puller pulled in
        rounds-NodeDone n (round semver service_network release c) (round-FamilySettled c f)
          (round-Pulled older c f l p e v q)

    rounds-AtVersion :
        (n : ℕ) (c : Cluster)
        → FamilySettled service_network c
        → NodeDone old release c ⊎ AtVersion old c
        → AtVersion release (rounds semver service_network release (suc (suc (suc n))) c)
    unfolding rounds
    rounds-AtVersion n c f (inl l) = rounds-NodeDone (suc (suc n)) c f l
    rounds-AtVersion n c f (inr l) =
        rounds-Pulled n (round semver service_network release c) (round-FamilySettled c f)
          (round-AtVersion older c f l)

    -- Upgrading from `old` to `release` from any point of an upgrade, with no conversion between IP
    -- families going on: after four rounds or more, in each of which the cluster finishes the
    -- rollouts that it was given, both the node and the control plane are at the new version.
    pub rounds-upgrade :
        (n : ℕ) (c : Cluster)
        → FamilySettled service_network c
        → Ordered old release c.node c.control_plane
        → AtVersion release (rounds semver service_network release (suc (suc (suc (suc n)))) c)
    unfolding rounds
    rounds-upgrade n c f o =
        rounds-AtVersion n (round semver service_network release c) (round-FamilySettled c f)
          (round-Ordered older c f o)
