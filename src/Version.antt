-- ===== src/Version.antt =====
-- pkg/version/semver.go: comparing release versions. The semver package is third-party code: a
-- parameter, with the documented laws of a comparison as a record of their own.
pub mod Laws
use Prim.Native.Nat.{Ordering}
use cluster_network_operator.Prelude.{
  ℕ, String, ◌≡◌, Bool, true, false, Option, none, some, ◌==◌, nat_eq, string_eq, ltb, leb,
  if◌then◌else◌,
}

-- github.com/Masterminds/semver: `NewVersion`, `Compare`, `Major` and `Minor`
pub record Semver : Type 1 where
  pub Version : Type 0
  pub new_version : String → Option Version
  pub compare : Version → Version → Ordering
  pub major : Version → ℕ
  pub minor : Version → ℕ

pub data VersionChange : Type 0 where
  upgrade same downgrade unknown : VersionChange

-- the conversion `versionChange(v1.Compare(v2))` of -1, 0 and 1
abbrev pub of_compare : Ordering → VersionChange
of_compare Ordering.lt = upgrade
of_compare Ordering.eq = same
of_compare Ordering.gt = downgrade

module _ (semver : Semver) where
  open semver use {Version, new_version, compare, major, minor}

  unfoldable pub compare_parsed : Option Version → Option Version → VersionChange
  compare_parsed none v2 = unknown
  compare_parsed (some v1) none = unknown
  compare_parsed (some v1) (some v2) = of_compare (compare v1 v2)

  unfoldable pub compare_versions : String → String → VersionChange
  unfolding compare_parsed
  compare_versions from_version to_version =
      if from_version == to_version
      then same
      else compare_parsed (new_version from_version) (new_version to_version)

  unfoldable pub is_version_greater_than_or_equal_to : String → ℕ → ℕ → Bool
  is_version_greater_than_or_equal_to version maj min = elim (new_version version) [
    | none ↦ false
    | some v ↦
        if ltb maj (major v) then true else if major v == maj then leb min (minor v) else false
  ]
