-- ===== src/Network/Subnets/Pool.antt =====
-- A pool of subnets: adding to it, and its invariant.
use cluster_network_operator.Prelude.{
  ◌≡◌, ◌↔◌, refl, inl, inr, false, Bool-cases, List, [], ◌∷◌, ◌++◌, none, All, All-append, arith,
  ok,
}
use cluster_network_operator.Network.Subnets.{Address, Subnet, nets_overlap, first_overlap, add}
use cluster_network_operator.Network.Subnets.Overlap.{Contains, nets_overlap_iff}

abbrev pub Apart : Subnet → Subnet → Type 0
Apart a b = (x : Address) → Contains a x → ¬ Contains b x

-- a list of which no two members share an address
abbrev pub AllApart : List Subnet → Type 0
AllApart [] = Unit {0}
AllApart (n ∷ cidrs) = All (Apart n) cidrs × AllApart cidrs

pub apart_iff : (a b : Subnet) → (nets_overlap a b ≡ false) ↔ Apart a b
apart_iff a b = (
  λ separate x in_a in_b. cc (separate, (nets_overlap_iff a b).1 (x, in_a, in_b)),
  λ apart. elim (Bool-cases (nets_overlap a b)) [
    | inl over ↦ let (x, in_a, in_b) = (nets_overlap_iff a b).0 over in absurd (apart x in_a in_b)
    | inr separate ↦ separate
  ],
)

first_overlap_step :
    (cidr n : Subnet) (cidrs : List Subnet)
    → (first_overlap cidr (n ∷ cidrs) ≡ none)
      ↔ ((nets_overlap n cidr ≡ false) × (first_overlap cidr cidrs ≡ none))
unfolding first_overlap
first_overlap_step cidr n cidrs = ground arith

pub first_overlap-none :
    (cidr : Subnet) (cidrs : List Subnet)
    → (first_overlap cidr cidrs ≡ none) ↔ All (λ n. Apart n cidr) cidrs
unfolding first_overlap
first_overlap-none cidr [] = (λ h. tt, λ h. refl)
first_overlap-none cidr (n ∷ cidrs) =
    let step = first_overlap_step cidr n cidrs in
    let rest = first_overlap-none cidr cidrs in
    (
      λ h. ((apart_iff n cidr).0 (step.0 h).0, rest.0 (step.0 h).1),
      λ h. step.1 ((apart_iff n cidr).1 h.0, rest.1 h.1),
    )

pub AllApart-append :
    (cidrs : List Subnet) (cidr : Subnet)
    → AllApart cidrs
    → All (λ n. Apart n cidr) cidrs
    → AllApart (cidrs ++ cidr ∷ [])
AllApart-append [] cidr old new = (tt, tt)
AllApart-append (n ∷ cidrs) cidr old new = (
  All-append (Apart n) cidrs (cidr ∷ []) old.0 (new.0, tt),
  AllApart-append cidrs cidr old.1 new.1,
)

-- Adding a subnet succeeds exactly if it shares no address with any in the pool; it is put last.
pub add_iff :
    (cidr : Subnet) (cidrs after : List Subnet)
    → (add cidr cidrs ≡ ok after) ↔ (All (λ n. Apart n cidr) cidrs × (after ≡ cidrs ++ cidr ∷ []))
add_iff cidr cidrs after =
    let free = first_overlap-none cidr cidrs in
    (λ h. (free.0 (added h).0, (added h).1), λ (apart, last). put (free.1 apart) last)
  where
    added :
        add cidr cidrs ≡ ok after → (first_overlap cidr cidrs ≡ none) × (after ≡ cidrs ++ cidr ∷ [])
    added h = unfold add in ground arith

    put : first_overlap cidr cidrs ≡ none → after ≡ cidrs ++ cidr ∷ [] → add cidr cidrs ≡ ok after
    put h e = unfold add in ground arith
