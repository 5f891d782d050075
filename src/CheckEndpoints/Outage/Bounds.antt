-- ===== src/CheckEndpoints/Outage/Bounds.antt =====
-- The well-formedness of the outages: the sizes of the logs and the list, and which are open.
use cluster_network_operator.Prelude.{
  ℕ, zero, suc, ◌≤◌, ◌<◌, inl, inr, List, [], ◌∷◌, none, some, take, length, All, ltb, ◌==◌, nat_eq,
  Bool-cases, arith, length-take,
}
use cluster_network_operator.CheckEndpoints.Status.{LogEntry, OutageEntry, CheckStatus}
use cluster_network_operator.CheckEndpoints.Outage.{
  latest, limit, new_outage, extend_start_logs, ongoing_outage, ended_outage, track, current_outage,
  manage_status_outage,
}

-- the logs of one outage
pub record IsBounded (o : OutageEntry) : Type 0 where
  pub start_logs_pos : 0 < length o.start_logs
  pub start_logs_bound : length o.start_logs ≤ 5
  pub end_logs_bound : length o.end_logs ≤ 5

-- an outage that is over
pub record IsOver (o : OutageEntry) : Type 0 where
  pub bounded : IsBounded o
  pub ended : 0 < o.end

abbrev pub OnlyFirstOpen : List OutageEntry → Type 0
OnlyFirstOpen [] = Unit {0}
OnlyFirstOpen (o ∷ outages) = IsBounded o × All IsOver outages

pub record IsWellFormed (s : CheckStatus) : Type 0 where
  pub few : length s.outages ≤ 20
  pub only_first_open : OnlyFirstOpen s.outages

length-limit {ℓ} : {A : Type ℓ} (n : ℕ) (xs : List A) → length (limit n xs) ≤ n
length-limit n xs = ground (arith, length-take n xs)

new_outage-IsBounded : (e : LogEntry) → IsBounded (new_outage e)
unfolding new_outage
new_outage-IsBounded e = ground arith

extend_start_logs_bounds :
    (logs : List LogEntry) (e : LogEntry)
    → length logs ≤ 5
    → (0 < length (extend_start_logs logs e)) × (length (extend_start_logs logs e) ≤ 5)
unfolding extend_start_logs
extend_start_logs_bounds [] e h = ground arith
extend_start_logs_bounds (x ∷ logs) e h = ground arith

ongoing_outage-IsBounded :
    (o : OutageEntry) (e : LogEntry) → IsBounded o → IsBounded (ongoing_outage o e)
unfolding ongoing_outage
ongoing_outage-IsBounded o e h = omega (
  arith,
  extend_start_logs_bounds o.start_logs e h.start_logs_bound,
  length-limit 5 (e ∷ o.end_logs),
)

ended_outage-IsBounded :
    (o : OutageEntry) (e : LogEntry) → IsBounded o → IsBounded (ended_outage o e)
unfolding ended_outage
ended_outage-IsBounded o e h = omega (arith, length-limit 5 (e ∷ o.end_logs))

take-All {ℓ κ} : {A : Type ℓ} (P : A → Type κ) (n : ℕ) (xs : List A) → All P xs → All P (take n xs)
take-All P zero xs h = tt
take-All P (suc n) [] h = tt
take-All P (suc n) (x ∷ xs) h = (h.0, take-All P n xs h.1)

take-OnlyFirstOpen : (n : ℕ) (xs : List OutageEntry) → OnlyFirstOpen xs → OnlyFirstOpen (take n xs)
take-OnlyFirstOpen zero xs h = tt
take-OnlyFirstOpen (suc n) [] h = tt
take-OnlyFirstOpen (suc n) (x ∷ xs) h = (h.0, take-All IsOver n xs h.1)

limit-OnlyFirstOpen :
    (n : ℕ) (xs : List OutageEntry) → OnlyFirstOpen xs → OnlyFirstOpen (limit n xs)
limit-OnlyFirstOpen n xs h = elim (Bool-cases (ltb n (length xs))) [
  | inl long ↦ rw long (take-OnlyFirstOpen n xs h)
  | inr short ↦ rw short h
]

-- the switch with no outage going on
track-none-OnlyFirstOpen :
    (outages : List OutageEntry) (failure success : LogEntry)
    → All IsOver outages
    → OnlyFirstOpen outages
    → OnlyFirstOpen (track none outages failure success).0
unfolding track
track-none-OnlyFirstOpen outages failure success over h =
    elim (Bool-cases (ltb success.start failure.start)) [
      | inl newer ↦ rw newer (new_outage-IsBounded failure, over)
      | inr older ↦ rw older h
    ]

-- the switch with the first outage going on
track-some-OnlyFirstOpen :
    (o : OutageEntry) (outages : List OutageEntry) (failure success : LogEntry)
    → IsBounded o
    → All IsOver outages
    → OnlyFirstOpen (track (some o) (o ∷ outages) failure success).0
unfolding track
track-some-OnlyFirstOpen o outages failure success h over =
    elim (Bool-cases (ltb success.start failure.start)) [
      | inl newer ↦ rw newer (ongoing_outage-IsBounded o failure h, over)
      | inr older ↦ elim (Bool-cases (ltb failure.start success.start)) [
        | inl restored ↦ rw (older, restored) (ended_outage-IsBounded o success h, over)
        | inr equal ↦ rw (older, equal) (h, over)
      ]
    ]

track-OnlyFirstOpen :
    (outages : List OutageEntry) (failure success : LogEntry)
    → OnlyFirstOpen outages
    → OnlyFirstOpen (track (current_outage outages) outages failure success).0
unfolding current_outage
track-OnlyFirstOpen [] failure success h = track-none-OnlyFirstOpen [] failure success tt tt
track-OnlyFirstOpen (o ∷ outages) failure success h = elim (Bool-cases (o.end == 0)) [
  | inl open_ ↦ rw open_ (track-some-OnlyFirstOpen o outages failure success h.0 h.1)
  | inr over ↦ rw over (
      track-none-OnlyFirstOpen (o ∷ outages) failure success
        (record { bounded = h.0; ended = ground arith }, h.1) h)
]

-- Managing the outages keeps a status well formed: at most twenty outages, of which only the first
-- may be open, each with one to five start logs and at most five end logs.
pub manage_status_outage-IsWellFormed :
    (s : CheckStatus) → IsWellFormed s → IsWellFormed (manage_status_outage s).0
unfolding manage_status_outage
manage_status_outage-IsWellFormed s h =
    let failure = latest s.failures in
    let success = latest s.successes in
    let outages = (track (current_outage s.outages) s.outages failure success).0 in
    record {
      few = length-limit 20 outages;
      only_first_open =
          limit-OnlyFirstOpen 20 outages
            (track-OnlyFirstOpen s.outages failure success h.only_first_open);
    }
