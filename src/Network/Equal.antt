-- ===== src/Network/Equal.antt =====
-- Equality of the configurations: `reflect.DeepEqual`, but that a nil slice is an empty one here.
use native.Mathlib.Decide.{ℕ_discrete}
use cluster_network_operator.Prelude.{
  String, ◌≡◌, ◌↔◌, refl, Bool, true, false, Eq, ◌==◌, ==_iff, string_eq, arith,
}
use cluster_network_operator.Network.Subnets.{Address}
use cluster_network_operator.Network.Spec.{ClusterNetworkEntry, HybridOverlayConfig, NetworkSpec}

to_dec {ℓ} : {P : Type ℓ} (b : Bool) → (b ≡ true) ↔ P → Dec P
to_dec true i = yes (i.0 refl)
to_dec false i = no (λ p. ground (arith, i.1 p))

unfoldable String-discrete : Discrete String
unfolding to_dec
String-discrete a b = to_dec (a == b) (==_iff a b)

abbrev of_dec {ℓ} : {P : Type ℓ} → Dec P → Bool
of_dec (yes p) = true
of_dec (no q) = false

pub of_dec_iff {ℓ} : {P : Type ℓ} (d : Dec P) → (of_dec d ≡ true) ↔ P
of_dec_iff (yes p) = ground (arith, p)
of_dec_iff (no q) = (λ h. absurd (ground arith), λ p. absurd (q p))

abbrev of_discrete {ℓ} : {A : Type ℓ} → Discrete A → Eq A
of_discrete dec = record { equals = λ a b. of_dec (dec a b); decides = λ a b. of_dec_iff (dec a b) }

unfoldable pub ClusterNetworkEntry-discrete : Discrete ClusterNetworkEntry
unfolding String-discrete
ClusterNetworkEntry-discrete = hlevel (ℕ_discrete, String-discrete)

unfoldable pub Address-discrete : Discrete Address
Address-discrete = hlevel ℕ_discrete

unfoldable pub HybridOverlayConfig-discrete : Discrete HybridOverlayConfig
unfolding String-discrete
HybridOverlayConfig-discrete = hlevel (ℕ_discrete, String-discrete)

unfoldable pub NetworkSpec-discrete : Discrete NetworkSpec
unfolding String-discrete
NetworkSpec-discrete = hlevel (ℕ_discrete, String-discrete)

instance abbrev pub cluster_network_entry_eq : Eq ClusterNetworkEntry
cluster_network_entry_eq = of_discrete ClusterNetworkEntry-discrete

instance abbrev pub address_eq : Eq Address
address_eq = of_discrete Address-discrete

instance abbrev pub hybrid_overlay_config_eq : Eq HybridOverlayConfig
hybrid_overlay_config_eq = of_discrete HybridOverlayConfig-discrete

instance abbrev pub network_spec_eq : Eq NetworkSpec
network_spec_eq = of_discrete NetworkSpec-discrete
