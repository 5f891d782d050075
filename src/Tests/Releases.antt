-- ===== src/Tests/Releases.antt =====
-- Comparing the versions "4.17" and "4.18", with a table for the semver package.
use Prim.Native.Nat.{compare}
use cluster_network_operator.Prelude.{ℕ, String, Option, none, some, ◌==◌, string_eq, if◌then◌else◌}
use cluster_network_operator.Version.{Semver}

abbrev parse : String → Option ℕ
parse s = if s == "4.17" then some 17 else if s == "4.18" then some 18 else none

abbrev pub releases : Semver
releases = record {
  Version = ℕ;
  new_version = parse;
  compare = compare;
  major = λ v. 4;
  minor = λ v. v;
}
