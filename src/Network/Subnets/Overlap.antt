-- ===== src/Network/Subnets/Overlap.antt =====
-- What the four comparisons of NetsOverlap decide.
use native.Mathlib.Nat.{
  div-div-eq-div-mul, mul-add-div_right, div-eq_of_lt, one-le-pow, pow-suc, add-suc, mul_assoc,
  add-zero, mul-one,
}
use cluster_network_operator.Prelude.{
  ℕ, zero, suc, ◌+◌, ◌-◌, ◌*◌, ◌/◌, ◌^◌, ◌<◌, ◌≤◌, ◌≡◌, ◌↔◌, ◌⊎◌, refl, sym, ap, ◌∙◌, inl, inr,
  true, arith, nat_eq, bool_eq, ==_iff, Bool-cases, leb, leb→le, tests,
}
use cluster_network_operator.Network.Subnets.{
  Address, Subnet, width, block, contains, last_ip, nets_overlap,
}

pow_split : (n k : ℕ) → 2 ^ (n + k) ≡ 2 ^ n * 2 ^ k
pow_split n zero = simp (add-zero, mul-one)
pow_split n (suc k) =
    ap (λ e. 2 ^ e) (add-suc n k)
    ∙ (pow-suc 2 (n + k)
        ∙ (ap (λ p. p * 2) (pow_split n k)
            ∙ (mul_assoc (2 ^ n) (2 ^ k) 2 ∙ ap (λ p. 2 ^ n * p) (sym (pow-suc 2 k)))))

pub block_pos : (s : Subnet) → 0 < block s
block_pos s = one-le-pow (width s.ip.is_ipv6 - s.ones) 2 (omega arith)

-- of two blocks of one family one is a multiple of the other
pub blocks_nest :
    (a b : Subnet)
    → a.ip.is_ipv6 ≡ b.ip.is_ipv6
    → width a.ip.is_ipv6 - a.ones ≤ width b.ip.is_ipv6 - b.ones
    → (k : ℕ) × (block b ≡ block a * k)
blocks_nest a b family le =
    let i = width a.ip.is_ipv6 - a.ones in
    let j = width b.ip.is_ipv6 - b.ones in
    (2 ^ (j - i), ap (λ e. 2 ^ e) (omega (arith, le)) ∙ pow_split i (j - i))

-- An address is in the subnet: its family and its network part are the subnet's.
abbrev pub Contains : Subnet → Address → Type 0
Contains s a = (s.ip.is_ipv6 ≡ a.is_ipv6) × (s.ip.value / block s ≡ a.value / block s)

pub contains_iff : (s : Subnet) (a : Address) → (contains s a ≡ true) ↔ Contains s a
unfolding contains
contains_iff s a =
    ground (arith, ==_iff s.ip.is_ipv6 a.is_ipv6, ==_iff (s.ip.value / block s) (a.value / block s))

pub Contains-ip : (s : Subnet) → Contains s s.ip
Contains-ip s = (refl, refl)

pub Contains-last_ip : (s : Subnet) → Contains s (last_ip s)
unfolding last_ip
Contains-last_ip s =
    let b = block s in
    let q = s.ip.value / b in
    (
      refl,
      sym (
          mul-add-div_right (block_pos s) q (b - 1)
          ∙ (ap (λ r. q + r) (div-eq_of_lt (omega (arith, block_pos s))) ∙ add-zero q)),
    )

-- What the smaller of two subnets shares with the larger one shares its own address.
smaller_inside :
    (a b : Subnet) (x : Address) (k : ℕ)
    → block b ≡ block a * k
    → Contains a x
    → Contains b x
    → Contains b a.ip
smaller_inside a b x k nest in_a in_b = (
  in_b.0 ∙ sym in_a.0,
  in_b.1 ∙ (coarse x.value ∙ (ap (λ q. q / k) (sym in_a.1) ∙ sym (coarse a.ip.value))),
)
  where
    coarse : (v : ℕ) → v / block b ≡ v / block a / k
    coarse v = ap (λ m. v / m) nest ∙ sym (div-div-eq-div-mul v (block a) k)

-- An address that two subnets of a family share: the own address of one of them is shared, too.
own_address_shared :
    (a b : Subnet) (x : Address) → Contains a x → Contains b x → Contains b a.ip ⊎ Contains a b.ip
own_address_shared a b x in_a in_b =
    let i = width a.ip.is_ipv6 - a.ones in
    let j = width b.ip.is_ipv6 - b.ones in
    elim (Bool-cases (leb i j)) [
      | inl le ↦
          let (k, nest) = blocks_nest a b (in_a.0 ∙ sym in_b.0) (leb→le i j le) in
          inl (smaller_inside a b x k nest in_a in_b)
      | inr gt ↦
          let (k, nest) = blocks_nest b a (in_b.0 ∙ sym in_a.0) (omega (tests, gt)) in
          inr (smaller_inside b a x k nest in_b in_a)
    ]

nets_overlap_of_own : (a b : Subnet) → Contains b a.ip ⊎ Contains a b.ip → nets_overlap a b ≡ true
unfolding nets_overlap
nets_overlap_of_own a b (inl in_b) =
    ground (arith, contains_iff b a.ip, in_b, ==_iff a.ip.is_ipv6 b.ip.is_ipv6)
nets_overlap_of_own a b (inr in_a) =
    ground (arith, contains_iff a b.ip, in_a, ==_iff a.ip.is_ipv6 b.ip.is_ipv6)

-- which of the four comparisons succeeded
overlap_cases :
    (a b : Subnet)
    → nets_overlap a b ≡ true
    → Contains a b.ip ⊎ Contains a (last_ip b) ⊎ Contains b a.ip ⊎ Contains b (last_ip a)
unfolding nets_overlap
overlap_cases a b h = ground (
  arith,
  contains_iff a b.ip,
  contains_iff a (last_ip b),
  contains_iff b a.ip,
  contains_iff b (last_ip a),
)

shared : (a b : Subnet) → nets_overlap a b ≡ true → (x : Address) × Contains a x × Contains b x
shared a b h = elim (overlap_cases a b h) [
  | inl own ↦ (b.ip, own, Contains-ip b)
  | inr (inl last) ↦ (last_ip b, last, Contains-last_ip b)
  | inr (inr (inl own)) ↦ (a.ip, Contains-ip a, own)
  | inr (inr (inr last)) ↦ (last_ip a, Contains-last_ip a, last)
]

-- Two subnets overlap, by the four comparisons of the code, exactly if there is an address in both.
pub nets_overlap_iff :
    (a b : Subnet) → (nets_overlap a b ≡ true) ↔ ((x : Address) × Contains a x × Contains b x)
nets_overlap_iff a b =
    (shared a b, λ (x, in_a, in_b). nets_overlap_of_own a b (own_address_shared a b x in_a in_b))
