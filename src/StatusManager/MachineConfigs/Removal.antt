-- ===== src/StatusManager/MachineConfigs/Removal.antt =====
-- Which changes of the rendered machine configs the code survives.
use cluster_network_operator.Prelude.{
  String, ◌≡◌, refl, Bool, true, false, ◌&&◌, List, [], ◌∷◌, Option, none, some, lookup, insert,
  string_eq, Outcome, ok, fail, ◌>>=◌,
}
use cluster_network_operator.StatusManager.MachineConfigs.{
  Configs, difference, RuntimeError, insert_into_nil, remove_role, being_removed,
}

abbrev pub succeeds {ℓ κ} : {E : Type ℓ} {A : Type κ} → Outcome E A → Bool
succeeds (ok value) = true
succeeds (fail error) = false

abbrev pub is_empty : List String → Bool
is_empty [] = true
is_empty (n ∷ names) = false

-- a role is dropped altogether, or none of its names is
abbrev pub whole_role : List String → Option (List String) → Bool
whole_role names none = true
whole_role names (some new) = is_empty (difference names new)

abbrev pub drops_whole_roles : Configs → Configs → Bool
drops_whole_roles [] newly = true
drops_whole_roles ((role, names) ∷ rendered) newly =
    whole_role names (lookup role newly) && drops_whole_roles rendered newly

insert_into_nil-succeeds :
    (gone : List String) (b : Bool) (removed : Configs)
    (next : Configs → Outcome RuntimeError Configs)
    → ((r : Configs) → succeeds (next r) ≡ b)
    → succeeds (insert_into_nil gone removed >>= next) ≡ (is_empty gone && b)
insert_into_nil-succeeds [] b removed next h = h removed
insert_into_nil-succeeds (n ∷ gone) b removed next h = refl

remove_role-succeeds :
    (role : String) (names : List String) (new : Option (List String)) (b : Bool)
    (removed : Configs) (next : Configs → Outcome RuntimeError Configs)
    → ((r : Configs) → succeeds (next r) ≡ b)
    → succeeds (remove_role role names new removed >>= next) ≡ (whole_role names new && b)
remove_role-succeeds role names none b removed next h = h (insert role names removed)
remove_role-succeeds role names (some new) b removed next h =
    insert_into_nil-succeeds (difference names new) b removed next h

-- New machine configs are taken over exactly if every role that was rendered before keeps all of its
-- names or is gone altogether. When a role keeps some of its names and loses another, the code
-- assigns into a map that was not made, and the operator panics.
pub being_removed-succeeds :
    (rendered newly removed : Configs)
    → succeeds (being_removed rendered newly removed) ≡ drops_whole_roles rendered newly
unfolding being_removed
being_removed-succeeds [] newly removed = refl
being_removed-succeeds ((role, names) ∷ rendered) newly removed =
    remove_role-succeeds role names (lookup role newly) (drops_whole_roles rendered newly) removed
      (being_removed rendered newly) (being_removed-succeeds rendered newly)
