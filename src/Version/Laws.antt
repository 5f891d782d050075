-- ===== src/Version/Laws.antt =====
-- What the version comparison promises, given the laws of the semver package.
use Prim.Native.Nat.{Ordering}
use cluster_network_operator.Prelude.{
  ℕ, ◌≤◌, ◌<◌, String, ◌≡◌, ◌↔◌, ◌⊎◌, true, Option, some, arith, eq_iff,
}
use cluster_network_operator.Version.{
  Semver, VersionChange, upgrade, same, downgrade, unknown, compare_parsed, compare_versions,
  is_version_greater_than_or_equal_to,
}

abbrev pub flip : Ordering → Ordering
flip Ordering.lt = Ordering.gt
flip Ordering.eq = Ordering.eq
flip Ordering.gt = Ordering.lt

-- `Compare` is documented as a three-way comparison, so its two directions agree.
pub record IsComparison (semver : Semver) : Type 0 where
  pub flipped : (v w : semver.Version) → semver.compare w v ≡ flip (semver.compare v w)

abbrev pub opposite : VersionChange → VersionChange
opposite upgrade = downgrade
opposite same = same
opposite downgrade = upgrade
opposite unknown = unknown

module _ (semver : Semver) (laws : IsComparison semver) where
  open semver use {Version, new_version}

  flipped-compare_parsed :
      (p q : Option Version) → compare_parsed semver q p ≡ opposite (compare_parsed semver p q)
  unfolding compare_parsed
  flipped-compare_parsed (some v) (some w) = ground (arith, laws.flipped v w)
  flipped-compare_parsed (some v) _ = ground arith
  flipped-compare_parsed _ (some w) = ground arith
  flipped-compare_parsed _ _ = ground arith

  -- An upgrade from one version to another is a downgrade the other way round, equal versions are
  -- the same both ways, and a change is unknown in both directions or in neither.
  pub compare_versions_flip :
      (a b : String) → compare_versions semver b a ≡ opposite (compare_versions semver a b)
  unfolding compare_versions
  compare_versions_flip a b =
      ground (arith, eq_iff a b, eq_iff b a, flipped-compare_parsed (new_version a) (new_version b))

-- For a version that parses, the test is the lexicographic order on (major, minor).
pub is_version_greater_than_or_equal_to_iff :
    (semver : Semver) (version : String) (v : semver.Version) (major minor : ℕ)
    → semver.new_version version ≡ some v
    → (is_version_greater_than_or_equal_to semver version major minor ≡ true)
      ↔ ((major < semver.major v) ⊎ ((semver.major v ≡ major) × (minor ≤ semver.minor v)))
unfolding is_version_greater_than_or_equal_to
is_version_greater_than_or_equal_to_iff semver version v major minor parsed = ground arith
