-- ===== src/Network/Subnets.antt =====
-- pkg/util/ip/addr.go, with what it uses of package net. An address is its number, and a flag for the
-- length of its slice (4 or 16 bytes; IPv4 addresses in sixteen bytes are left out). Clearing the host
-- bits of an address is the division by the block's size, setting them all is `last_ip`.
pub mod Overlap
pub mod Pool
use cluster_network_operator.Prelude.{
  ℕ, ◌+◌, ◌-◌, ◌*◌, ◌/◌, ◌^◌, Bool, true, false, not, ◌&&◌, ◌||◌, List, [], ◌∷◌, ◌++◌, Option, none,
  some, ◌==◌, nat_eq, bool_eq, if◌then◌else◌, Outcome, ok, fail,
}

pub record Address : Type 0 where
  pub is_ipv6 : Bool
  pub value : ℕ

-- `net.IPNet`, with the number of ones of its mask
pub record Subnet : Type 0 where
  pub ip : Address
  pub ones : ℕ

-- the length of an address in bits
abbrev pub width : Bool → ℕ
width true = 128
width false = 32

-- how many addresses the subnet has
abbrev pub block : Subnet → ℕ
block s = 2 ^ (width s.ip.is_ipv6 - s.ones)

-- IPNet.Contains
unfoldable pub contains : Subnet → Address → Bool
contains s a = s.ip.is_ipv6 == a.is_ipv6 && s.ip.value / block s == a.value / block s

unfoldable pub last_ip : Subnet → Address
last_ip s = record {
  is_ipv6 = s.ip.is_ipv6;
  value = s.ip.value / block s * block s + (block s - 1);
}

unfoldable pub nets_overlap : Subnet → Subnet → Bool
unfolding contains last_ip
nets_overlap a b =
    if not (a.ip.is_ipv6 == b.ip.is_ipv6)
    then false
    else contains a b.ip || contains a (last_ip b) || contains b a.ip || contains b (last_ip a)

-- the two subnets that overlap
pub data PoolError : Type 0 where
  overlap : Subnet → Subnet → PoolError

-- the loop of IPPool.Add: the first subnet that overlaps
unfoldable pub first_overlap : Subnet → List Subnet → Option Subnet
unfolding nets_overlap
first_overlap cidr [] = none
first_overlap cidr (n ∷ cidrs) =
    let rest = first_overlap cidr cidrs in if nets_overlap n cidr then some n else rest

-- IPPool.Add, on the subnets of the pool
unfoldable pub add : Subnet → List Subnet → Outcome PoolError (List Subnet)
unfolding first_overlap
add cidr cidrs = elim (first_overlap cidr cidrs) [
  | some n ↦ fail (overlap n cidr)
  | none ↦ ok (cidrs ++ cidr ∷ [])
]
