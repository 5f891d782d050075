-- ===== src/CheckEndpoints/Logs.antt =====
-- `appendLogEntry`, `AddSuccessLogEntry` and `AddFailureLogEntry`: the logs hold the ten newest
-- entries, newest first.
use mathlib.Core.List.{Perm}
use cluster_network_operator.Prelude.{
  ℕ, zero, suc, ◌≤◌, ◌≡◌, refl, sym, ap, ◌∙◌, inl, inr, Bool, true, false, List, [], ◌∷◌, ◌++◌,
  take, length, ltb, if◌then◌else◌, Bool-cases, ltb_false→le, arith, length-take, take-eq_self,
  stable_sort, IsSorted, perm-stable_sort, stable_sort-IsSorted, stable_sort_of_IsSorted,
}
use cluster_network_operator.CheckEndpoints.Status.{LogEntry, CheckStatus}

-- `log[i].Start.After(log[j].Start)`
abbrev pub after : LogEntry → LogEntry → Bool
after x y = ltb y.start x.start

-- `log[:10]` where the log is longer
unfoldable pub append_log_entry : List LogEntry → List LogEntry → List LogEntry
append_log_entry log entries =
    let sorted = stable_sort after (entries ++ log) in
    if ltb 10 (length sorted) then take 10 sorted else sorted

unfoldable pub add_success_log_entry : LogEntry → CheckStatus → CheckStatus
unfolding append_log_entry
add_success_log_entry e s = record s { successes = append_log_entry s.successes (e ∷ []) }

unfoldable pub add_failure_log_entry : LogEntry → CheckStatus → CheckStatus
unfolding append_log_entry
add_failure_log_entry e s = record s { failures = append_log_entry s.failures (e ∷ []) }

-- newest first
abbrev pub NewestFirst : List LogEntry → Type 0
NewestFirst = IsSorted after

after_asymmetric : (x y : LogEntry) → after x y ≡ true → after y x ≡ false
after_asymmetric x y h = ground arith

take-NewestFirst : (n : ℕ) (log : List LogEntry) → NewestFirst log → NewestFirst (take n log)
take-NewestFirst zero log s = tt
take-NewestFirst (suc n) [] s = tt
take-NewestFirst (suc zero) (x ∷ xs) s = (tt, tt)
take-NewestFirst (suc (suc n)) (x ∷ []) s = (tt, tt)
take-NewestFirst (suc (suc n)) (x ∷ y ∷ ys) s = (s.0, take-NewestFirst (suc n) (y ∷ ys) s.1)

append_log_entry-take :
    (log entries : List LogEntry)
    → append_log_entry log entries ≡ take 10 (stable_sort after (entries ++ log))
unfolding append_log_entry
append_log_entry-take log entries =
    elim (Bool-cases (ltb 10 (length (stable_sort after (entries ++ log))))) [
      | inl long ↦ rw long
      | inr short ↦ rw short (
          sym (
            take-eq_self 10 _
              (ltb_false→le 10 (length (stable_sort after (entries ++ log))) short)))
    ]

-- Whatever is added to whatever log, the result has at most ten entries, newest first, and they are
-- the first ones of an ordering of the old and new entries by time.
pub append_log_entry_newest :
    (log entries : List LogEntry)
    → (length (append_log_entry log entries) ≤ 10)
      × NewestFirst (append_log_entry log entries)
      × ((all : List LogEntry) × Perm all (entries ++ log)
          × NewestFirst all
          × (append_log_entry log entries ≡ take 10 all))
append_log_entry_newest log entries =
    let sorted = stable_sort after (entries ++ log) in
    let newest = stable_sort-IsSorted after after_asymmetric (entries ++ log) in
    rw append_log_entry-take (
      omega (arith, length-take 10 sorted),
      take-NewestFirst 10 sorted newest,
      (sorted, perm-stable_sort after (entries ++ log), newest, refl),
    )

-- An entry that is not older than a log that is newest first becomes its first entry, and nothing
-- but the eleventh entry is dropped.
pub append_log_entry_in_order :
    (log : List LogEntry) (e : LogEntry)
    → NewestFirst (e ∷ log)
    → append_log_entry log (e ∷ []) ≡ take 10 (e ∷ log)
append_log_entry_in_order log e s =
    append_log_entry-take log (e ∷ [])
    ∙ ap (λ all. take 10 all) (stable_sort_of_IsSorted after (e ∷ log) s)
