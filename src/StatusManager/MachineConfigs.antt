-- ===== src/StatusManager/MachineConfigs.antt =====
-- machineconfig_status.go: the operator's machine configs that are rendered, and those on their way
-- out, per role, and what the pools of the machine config operator have made of them. A Go set is a
-- list without order. Writing the caches to their annotation succeeds here; texts are left out.
pub mod Removal
pub mod Rollout
use cluster_network_operator.Prelude.{
  ℕ, String, Bool, true, false, ◌&&◌, ◌||◌, not, List, [], ◌∷◌, ◌++◌, map, any, Option, none, some,
  ◌==◌, string_eq, if◌then◌else◌, Dict, lookup, insert, remove, is_some, Outcome, ok, fail, ◌>>=◌,
}
use cluster_network_operator.StatusManager.Publish.{Environment}
use cluster_network_operator.StatusManager.Manager.{
  State, machine_config, set_degraded, set_not_degraded, set_progressing, unset_progressing,
}

-- role, names
abbrev pub Configs : Type 0
Configs = Dict String (List String)

abbrev pub has : List String → String → Bool
has names n = any (λ m. m == n) names

-- s.Difference(t)
unfoldable pub difference : List String → List String → List String
difference [] gone = []
difference (n ∷ names) gone =
    let rest = difference names gone in if has gone n then rest else n ∷ rest

-- a machine config as it is rendered: its name, and its role if it has the label
pub record RenderedConfig : Type 0 where
  pub name : String
  pub role : Option String

abbrev pub or_no_names : Option (List String) → List String
or_no_names none = []
or_no_names (some names) = names

-- s[role].Insert(names...), with s[role] made if it is missing
unfoldable pub insert_names : String → List String → Configs → Configs
insert_names role names configs =
    let old = or_no_names (lookup role configs) in insert role (old ++ difference names old) configs

-- newlyRenderedMachineConfigMap; a config without the label is skipped
unfoldable pub by_role : List RenderedConfig → Configs → Configs
unfolding insert_names
by_role [] configs = configs
by_role (c ∷ rendered) configs = elim c.role [
  | none ↦ by_role rendered configs
  | some role ↦ by_role rendered (insert_names role (c.name ∷ []) configs)
]

-- an assignment into a map that was not made ends the program
pub data RuntimeError : Type 0 where
  nil_map_assignment : RuntimeError

-- `Insert` into the set of a role in a map that has no entry for it: nothing to insert is fine
abbrev pub insert_into_nil : List String → Configs → Outcome RuntimeError Configs
insert_into_nil [] removed = ok removed
insert_into_nil (n ∷ names) removed = fail nil_map_assignment

-- what one role of the old configs adds to those being removed
abbrev pub remove_role :
    String → List String → Option (List String) → Configs → Outcome RuntimeError Configs
remove_role role names none removed = ok (insert role names removed)
remove_role role names (some new) removed = insert_into_nil (difference names new) removed

-- the loop over the roles that were rendered before
unfoldable pub being_removed : Configs → Configs → Configs → Outcome RuntimeError Configs
unfolding difference
being_removed [] newly removed = ok removed
being_removed ((role, names) ∷ rendered) newly removed = do
  removed' ← remove_role role names (lookup role newly) removed
  being_removed rendered newly removed'

-- the loop over the roles that are rendered now: names are only added
unfoldable pub add_rendered : Configs → Configs → Configs
unfolding insert_names
add_rendered [] rendered = rendered
add_rendered ((role, names) ∷ newly) rendered =
    add_rendered newly (insert_names role names rendered)

-- `reflect.DeepEqual` of two maps of sets
unfoldable pub covers : Configs → Configs → Bool
covers [] configs = true
covers ((role, names) ∷ rest) configs =
    let others = covers rest configs in
    is_some (lookup role configs) && same_names names (or_no_names (lookup role configs)) && others
  where
    within : List String → List String → Bool
    within [] names = true
    within (n ∷ rest) names = has names n && within rest names

    same_names : List String → List String → Bool
    same_names a b = within a b && within b a

pub record Caches : Type 0 where
  pub rendered : Configs
  pub removed : Configs

-- the caches after new configs were rendered, and whether the pools have to be looked at
unfoldable pub set_machine_configs :
    List RenderedConfig → Caches → Outcome RuntimeError (Caches × Bool)
unfolding by_role being_removed add_rendered covers
set_machine_configs new caches =
    let newly = by_role new [] in
    if covers newly caches.rendered && covers caches.rendered newly then ok (caches, false) else (do
      removed ← being_removed caches.rendered newly []
      ok (record { rendered = add_rendered newly caches.rendered; removed = removed }, true))

-- A pool; `selects` is nil for a selector that is no valid one.
pub record Pool : Type 0 where
  pub name : String
  pub paused : Bool
  pub is_degraded : Bool
  pub selects : Option (String → Bool)
  pub source : List String

abbrev pub selected : Option (String → Bool) → String → Bool
selected none role = false
selected (some matches) role = matches role

-- the pools of a role; an invalid selector among the pools is logged, and no pool is found
unfoldable pub find_pools : List Pool → String → List Pool
find_pools pools role = if any (λ p. not (is_some p.selects)) pools then [] else choose pools
  where
    choose : List Pool → List Pool
    choose [] = []
    choose (p ∷ rest) =
        let others = choose rest in if selected p.selects role then p ∷ others else others

unfoldable pub any_degraded : List Pool → Option String
any_degraded [] = none
any_degraded (p ∷ pools) =
    let rest = any_degraded pools in if p.is_degraded then some p.name else rest

-- the first loop: the first role with a degraded pool
unfoldable pub degraded_pool : List Pool → Configs → Option String
unfolding find_pools any_degraded
degraded_pool pools [] = none
degraded_pool pools ((role, names) ∷ rendered) =
    let rest = degraded_pool pools rendered in
    elim (any_degraded (find_pools pools role)) [ some name ↦ some name | none ↦ rest ]

-- the pool has what is wanted of a config: it is gone, or it is there
abbrev pub is_settled : Bool → String → Pool → Bool
is_settled removing config p = if removing then not (has p.source config) else has p.source config

-- what the pools of a role make of one config
pub data PoolCheck : Type 0 where
  processing : String → PoolCheck  -- the name of a pool
  settled : Bool → PoolCheck  -- whether a pool that is not paused was seen

abbrev pub seen : PoolCheck → PoolCheck
seen (processing name) = processing name
seen (settled saw) = settled true

unfoldable pub check_pools : Bool → String → List Pool → PoolCheck
check_pools removing config [] = settled false
check_pools removing config (p ∷ pools) =
    let rest = check_pools removing config pools in
    if p.paused then rest else if is_settled removing config p then seen rest else processing p.name

-- forgetRemovedMachineConfig on one of the two maps: a role without names is dropped
unfoldable pub forget_in : String → String → Configs → Configs
unfolding difference
forget_in role config configs = store (difference (or_no_names (lookup role configs)) (config ∷ []))
  where
    store : List String → Configs
    store [] = remove role configs
    store (n ∷ names) = insert role (n ∷ names) configs

unfoldable pub forget : String → String → Caches → Caches
unfolding forget_in
forget role config caches = record {
  rendered = forget_in role config caches.rendered;
  removed = forget_in role config caches.removed;
}

-- after the check of one config: stop at a pool that is processing it, or go on
unfoldable pub after_check : String → String → Bool → PoolCheck → Caches → Caches × Option String
unfolding forget
after_check role config removing (processing name) caches = (caches, some name)
after_check role config removing (settled saw) caches =
    (if removing && saw then forget role config caches else caches, none)

unfoldable pub check_config : List Pool → String → String → Caches → Caches × Option String
unfolding after_check check_pools
check_config pools role config caches =
    let removing = has (or_no_names (lookup role caches.removed)) config in
    after_check role config removing (check_pools removing config pools) caches

-- the loop over the configs of a role
unfoldable pub check_configs : List Pool → String → List String → Caches → Caches × Option String
unfolding check_config
check_configs pools role [] caches = (caches, none)
check_configs pools role (config ∷ configs) caches =
    let (caches', stop) = check_config pools role config caches in
    let rest = check_configs pools role configs caches' in
    elim stop [ none ↦ rest | some name ↦ (caches', some name) ]

module _ (env : Environment) (text : String → String) where
  -- the second loop, over the roles
  unfoldable pub check_roles : List Pool → Configs → Caches × State → Caches × State
  unfolding check_configs find_pools
  check_roles pools [] cs = cs
  check_roles pools ((role, names) ∷ rendered) (caches, st) =
      let (caches', stop) = check_configs (find_pools pools role) role names caches in
      let rest = check_roles pools rendered (caches', unset_progressing env machine_config st) in
      elim stop [
        | some name ↦ (caches', set_progressing env machine_config "MachineConfig" (text name) st)
        | none ↦ rest
      ]

  unfoldable pub set_from_machine_config_pool : List Pool → Caches × State → Caches × State
  unfolding check_roles degraded_pool
  set_from_machine_config_pool pools (caches, st) = elim (degraded_pool pools caches.rendered) [
    | some name ↦ (caches, set_degraded env machine_config "MachineConfig" (text name) st)
    | none ↦ check_roles pools caches.rendered (caches, set_not_degraded env machine_config st)
  ]
