-- ===== src/StatusManager/MachineConfigs/Rollout.antt =====
-- When a machine config counts as rolled out, and which ones are forgotten.
use cluster_network_operator.Prelude.{
  String, ◌≡◌, ◌⊎◌, ◌↔◌, refl, Bool, true, false, List, [], ◌∷◌, All, arith, inl, inr, lookup,
  string_eq,
}
use cluster_network_operator.StatusManager.MachineConfigs.{
  Caches, Pool, has, is_settled, PoolCheck, processing, settled, seen, check_pools, check_config,
  after_check, or_no_names,
}

-- the check found no pool that is still at work
abbrev pub is_done : PoolCheck → Bool
is_done (processing name) = false
is_done (settled saw) = true

abbrev pub saw_pool : PoolCheck → Bool
saw_pool (processing name) = false
saw_pool (settled saw) = saw

seen-is_done : (c : PoolCheck) → (is_done (seen c) ≡ is_done c) × (saw_pool (seen c) ≡ is_done c)
seen-is_done (processing name) = ground arith
seen-is_done (settled saw) = ground arith

-- A machine config is rolled out exactly if every pool of its role that is not paused has it, or no
-- longer has it when it is being removed.
pub check_pools_iff :
    (removing : Bool) (config : String) (pools : List Pool)
    → (is_done (check_pools removing config pools) ≡ true)
      ↔ All (λ p. (p.paused ≡ true) ⊎ (is_settled removing config p ≡ true)) pools
unfolding check_pools
check_pools_iff removing config [] = ground arith
check_pools_iff removing config (p ∷ pools) =
    ground (
      arith,
      check_pools_iff removing config pools,
      seen-is_done (check_pools removing config pools),
    )

after_check-keeps :
    (role config : String) (removing : Bool) (c : PoolCheck) (caches : Caches)
    → ((after_check role config removing c caches).0 ≡ caches)
      ⊎ ((removing ≡ true) × (is_done c ≡ true))
unfolding after_check
after_check-keeps role config removing (processing name) caches = inl refl
after_check-keeps role config true (settled saw) caches = inr (refl, refl)
after_check-keeps role config false (settled saw) caches = inl refl

-- Checking a machine config changes the caches only if the config is being removed and no pool of its
-- role that is not paused lists it any more.
pub check_config-keeps :
    (pools : List Pool) (role config : String) (caches : Caches)
    → ((check_config pools role config caches).0 ≡ caches)
      ⊎ ((has (or_no_names (lookup role caches.removed)) config ≡ true)
          × All (λ p. (p.paused ≡ true) ⊎ (is_settled true config p ≡ true)) pools)
unfolding check_config
check_config-keeps pools role config caches = ground (
  arith,
  after_check-keeps role config (has (or_no_names (lookup role caches.removed)) config)
      (check_pools (has (or_no_names (lookup role caches.removed)) config) config pools) caches,
  check_pools_iff true config pools,
)
