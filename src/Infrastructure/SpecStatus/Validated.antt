-- ===== src/Infrastructure/SpecStatus/Validated.antt =====
-- What the validations of VIPs let through (validations.go).
use cluster_network_operator.Prelude.{
  ok, >>=-eq-ok, String, Bool, true, false, List, [], ◌∷◌, Option, none, some, string_eq, nat_eq,
  length, ◌≡◌, ◌≢◌, ◌≤◌, refl, sym, arith, eq_iff, All, Option-cases, ◌↔◌, ◌⊎◌, inl, inr,
}
use cluster_network_operator.Infrastructure.SpecStatus.{
  AddressLibrary, same_index_equal, not_dual, validate_vips_with_vips, in_networks, parsed_addr,
  vips_in_networks, validate_vips_with_machine_networks,
}

-- nowhere the same text at the same index
abbrev pub DifferAtEachIndex : List String → List String → Type 0
DifferAtEachIndex [] ingress = Unit
DifferAtEachIndex (a ∷ api) [] = Unit
DifferAtEachIndex (a ∷ api) (i ∷ ingress) = (a ≢ i) × DifferAtEachIndex api ingress

same_index_equal_iff :
    (api ingress : List String)
    → same_index_equal api ingress ≡ false ↔ DifferAtEachIndex api ingress
unfolding same_index_equal
same_index_equal_iff [] ingress = ground arith
same_index_equal_iff (a ∷ api) [] = ground arith
same_index_equal_iff (a ∷ api) (i ∷ ingress) =
    ground (arith, eq_iff a i, same_index_equal_iff api ingress)

not_dual_iff : (answer : Option Bool) → not_dual answer ≡ false ↔ answer ≡ some true
not_dual_iff none = ground arith
not_dual_iff (some true) = ground arith
not_dual_iff (some false) = ground arith

module _ (addresses : AddressLibrary) where
  open addresses use {Addr, Prefix, is_dual_stack, parse_addr, parse_prefix, contains}

  -- VIPs pass the validation against each other exactly when there are at most two of each kind, as
  -- many for the ingress as for the API, when without an external load balancer no index has the same
  -- VIP in both, and when two VIPs of a kind are of both IP families.
  pub validate_vips_with_vips_iff :
      (api ingress : List String) (elb : Bool)
      → validate_vips_with_vips addresses api ingress elb ≡ ok tt
        ↔ (length api ≤ 2)
          × (length ingress ≡ length api)
          × ((elb ≡ true) ⊎ DifferAtEachIndex api ingress)
          × ((length api ≤ 1)
              ⊎ ((is_dual_stack api ≡ some true) × (is_dual_stack ingress ≡ some true)))
  unfolding validate_vips_with_vips
  validate_vips_with_vips_iff api ingress elb = ground (
    arith,
    same_index_equal_iff api ingress,
    not_dual_iff (is_dual_stack api),
    not_dual_iff (is_dual_stack ingress),
  )

  -- a network that holds the address, and every network before it is well-formed
  abbrev pub Inside : Addr → List String → Type 0
  Inside ip [] = ⊥
  Inside ip (network ∷ networks) =
      (prefix : Prefix) × (parse_prefix network ≡ some prefix)
      × ((contains prefix ip ≡ true) ⊎ Inside ip networks)

  parsed_addr-ok :
      (answer : Option Addr) {ip : Addr} → parsed_addr addresses answer ≡ ok ip → answer ≡ some ip
  parsed_addr-ok none h = cc
  parsed_addr-ok (some ip) h = cc

  in_networks-Inside :
      (ip : Addr) (networks : List String)
      → in_networks addresses ip networks ≡ ok true
      → Inside ip networks
  unfolding in_networks
  in_networks-Inside ip [] h = cc
  in_networks-Inside ip (network ∷ networks) h = elim (Option-cases (parse_prefix network)) [
    | inl e ↦ absurd (ground (arith, e, h))
    | inr (prefix, e) ↦ (prefix, e, ground (arith, e, h, in_networks-Inside ip networks))
  ]

  vips_in_networks-Inside :
      (vips networks : List String)
      → vips_in_networks addresses vips networks ≡ ok tt
      → All (λ vip. (ip : Addr) × (parse_addr vip ≡ some ip) × Inside ip networks) vips
  unfolding vips_in_networks
  vips_in_networks-Inside [] networks h = tt
  vips_in_networks-Inside (vip ∷ vips) networks h =
      let (ip, hip, h1) = >>=-eq-ok (parsed_addr addresses (parse_addr vip)) _ h in
      let (found, hf, h2) = >>=-eq-ok (in_networks addresses ip networks) _ h1 in
      (
        (
          ip,
          parsed_addr-ok (parse_addr vip) hip,
          in_networks-Inside ip networks (ground (arith, hf, h2)),
        ),
        vips_in_networks-Inside vips networks (ground (arith, h2)),
      )

  -- Validated against at least one machine network, every VIP is an address that one of the networks
  -- holds.
  pub validate_vips_with_machine_networks-Inside :
      (vips networks : List String)
      → networks ≢ []
      → validate_vips_with_machine_networks addresses vips networks ≡ ok tt
      → All (λ vip. (ip : Addr) × (parse_addr vip ≡ some ip) × Inside ip networks) vips
  unfolding validate_vips_with_machine_networks
  validate_vips_with_machine_networks-Inside vips [] some_network h = absurd (some_network refl)
  validate_vips_with_machine_networks-Inside vips (network ∷ networks) some_network h =
      vips_in_networks-Inside vips (network ∷ networks) h

  -- Only VIPs at the same index are compared: a pair of VIPs of both families, given to the API and in
  -- the opposite order to the ingress, passes without an external load balancer although both VIPs
  -- are shared.
  pub crossed_vips_pass :
      (a b : String)
      → a ≢ b
      → is_dual_stack (a ∷ b ∷ []) ≡ some true
      → is_dual_stack (b ∷ a ∷ []) ≡ some true
      → validate_vips_with_vips addresses (a ∷ b ∷ []) (b ∷ a ∷ []) false ≡ ok tt
  crossed_vips_pass a b differ ab ba =
      (validate_vips_with_vips_iff (a ∷ b ∷ []) (b ∷ a ∷ []) false).1
        (omega arith, refl, inr (differ, (λ e. differ (sym e), tt)), inr (ab, ba))
