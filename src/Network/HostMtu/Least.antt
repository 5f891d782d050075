-- ===== src/Network/HostMtu/Least.antt =====
-- The MTU that is found, among those of the links of the default routes.
use cluster_network_operator.Prelude.{
  some_injective, ℕ, ◌+◌, ◌≤◌, ◌<◌, ◌≡◌, ◌⊎◌, refl, sym, ap, subst, ◌∙◌, inl, inr, not, Bool-cases,
  List, [], ◌∷◌, ◌++◌, Option, some, Option-cases, ◌==◌, nat_eq, ltb, All, All-append, arith,
  if◌then◌else◌, Outcome, ok, fail, >>=-eq-ok, ok-injective,
}
use cluster_network_operator.Network.Pools.{is_nil}
use cluster_network_operator.Network.HostMtu.{
  Route, HostMtuError, mtu_not_determined, smaller, step_link, scan_links, step_route, scan_routes,
  get_default_mtu,
}

-- the links of a route that count
abbrev pub route_links : Route → List ℕ
route_links route =
    if not route.is_default
    then []
    else if route.link_index == 0
    then route.multi_path
    else route.link_index ∷ []

abbrev pub default_links : List Route → List ℕ
default_links [] = []
default_links (route ∷ routes) = route_links route ++ default_links routes

-- an index of the list
abbrev pub IsIn : ℕ → List ℕ → Type 0
IsIn i [] = ⊥
IsIn i (j ∷ links) = (j ≡ i) ⊎ IsIn i links

left-IsIn : (i : ℕ) (xs ys : List ℕ) → IsIn i xs → IsIn i (xs ++ ys)
left-IsIn i (x ∷ xs) ys (inl h) = inl h
left-IsIn i (x ∷ xs) ys (inr h) = inr (left-IsIn i xs ys h)
left-IsIn i [] ys h = absurd h

right-IsIn : (i : ℕ) (xs ys : List ℕ) → IsIn i ys → IsIn i (xs ++ ys)
right-IsIn i [] ys h = h
right-IsIn i (x ∷ xs) ys h = inr (right-IsIn i xs ys h)

failed : {e : HostMtuError} {m : ℕ} → ◌≡◌ {A = Outcome HostMtuError ℕ} (fail e) (ok m) → ⊥
failed h = absurd (ground (arith, h))

smaller_lem :
    (new mtu : ℕ)
    → (smaller new mtu ≤ mtu)
      × (0 < new → smaller new mtu ≤ new)
      × ((smaller new mtu ≡ mtu) ⊎ ((smaller new mtu ≡ new) × (0 < new)))
smaller_lem new mtu = (ground arith, λ p. ground arith, ground arith)

determined :
    (found mtu : ℕ)
    → (if ltb 65536 found then fail mtu_not_determined else ok found) ≡ ok mtu
    → (found ≤ 65536) × (found ≡ mtu)
determined found mtu h = elim (Bool-cases (ltb 65536 found)) [
  | inl large ↦ absurd (failed (rw large at h))
  | inr small ↦ (ground (arith, small), ok-injective (rw small at h))
]

module _ (link_mtu : ℕ → Option ℕ) where
  -- From `start` on, the links have no smaller MTU, and the result is one of theirs or `start`.
  abbrev pub IsLeast : ℕ → List ℕ → ℕ → Type 0
  IsLeast start links mtu =
      (mtu ≤ start)
      × All (λ i. (n : ℕ) → link_mtu i ≡ some n → 0 < n → mtu ≤ n) links
      × ((mtu ≡ start) ⊎ ((i : ℕ) × IsIn i links × (link_mtu i ≡ some mtu) × (0 < mtu)))

  IsLeast-append :
      (start middle mtu : ℕ) (xs ys : List ℕ)
      → IsLeast start xs middle
      → IsLeast middle ys mtu
      → IsLeast start (xs ++ ys) mtu
  IsLeast-append start middle mtu xs ys (le, all, found) (le', all', found') =
      (omega (arith, le, le'), All-append _ xs ys (lower xs all) all', joined found found')
    where
      joined :
          (middle ≡ start) ⊎ ((i : ℕ) × IsIn i xs × (link_mtu i ≡ some middle) × (0 < middle))
          → (mtu ≡ middle) ⊎ ((i : ℕ) × IsIn i ys × (link_mtu i ≡ some mtu) × (0 < mtu))
          → (mtu ≡ start) ⊎ ((i : ℕ) × IsIn i (xs ++ ys) × (link_mtu i ≡ some mtu) × (0 < mtu))
      joined before (inr (i, at, e, p)) = inr (i, right-IsIn i xs ys at, e, p)
      joined (inl b) (inl e) = inl (e ∙ b)
      joined (inr (i, at, b, p)) (inl e) =
          inr (i, left-IsIn i xs ys at, b ∙ ap some (sym e), omega (arith, e, p))

      lower :
          (zs : List ℕ)
          → All (λ i. (n : ℕ) → link_mtu i ≡ some n → 0 < n → middle ≤ n) zs
          → All (λ i. (n : ℕ) → link_mtu i ≡ some n → 0 < n → mtu ≤ n) zs
      lower [] a = tt
      lower (z ∷ zs) (a, rest) = (λ n e p. omega (arith, a n e p, le'), lower zs rest)

  IsLeast-nil : (start mtu : ℕ) → start ≡ mtu → IsLeast start [] mtu
  IsLeast-nil start mtu h = (omega (arith, h), tt, inl (sym h))

  step-IsLeast :
      (i start mtu : ℕ) → step_link link_mtu i start ≡ ok mtu → IsLeast start (i ∷ []) mtu
  step-IsLeast i start mtu h = elim (Option-cases (link_mtu i)) [
    | inl missing ↦ absurd (failed (rw (missing, step_link) at h))
    | inr (new, e) ↦
        let same : smaller new start ≡ mtu = ok-injective (rw (e, step_link) at h) in
        let (below, least, which) = smaller_lem new start in
        (
          omega (arith, below, same),
          (
            λ n k p.
                omega (arith, least (omega (arith, p, given new n e k)), same, given new n e k),
            tt,
          ),
          elim which [
            | inl old ↦ inl (sym same ∙ old)
            | inr (taken, positive) ↦
                inr (i, inl refl, e ∙ ap some (sym taken ∙ same), omega (arith, positive, same))
          ],
        )
  ]
    where
      given : (new n : ℕ) → link_mtu i ≡ some new → link_mtu i ≡ some n → new ≡ n
      given new n e k = some_injective (sym e ∙ k)

  links-IsLeast :
      (links : List ℕ) (start mtu : ℕ)
      → scan_links link_mtu links start ≡ ok mtu
      → IsLeast start links mtu
  unfolding scan_links
  links-IsLeast [] start mtu h = IsLeast-nil start mtu (ok-injective h)
  links-IsLeast (i ∷ links) start mtu h =
      let (middle, first, rest) =
        >>=-eq-ok (step_link link_mtu i start) (scan_links link_mtu links) h in
      IsLeast-append start middle mtu (i ∷ []) links (step-IsLeast i start middle first)
        (links-IsLeast links middle mtu rest)

  route-IsLeast :
      (route : Route) (start mtu : ℕ)
      → step_route link_mtu route start ≡ ok mtu
      → IsLeast start (route_links route) mtu
  unfolding step_route
  route-IsLeast route start mtu h = elim (Bool-cases route.is_default) [
    | inr other ↦ rw other (IsLeast-nil start mtu (ok-injective (rw other at h)))
    | inl default ↦ elim (Bool-cases (route.link_index == 0)) [
      | inr single ↦
          rw (default, single) (step-IsLeast route.link_index start mtu (rw (default, single) at h))
      | inl multi ↦ elim (Bool-cases (is_nil route.multi_path)) [
        | inl empty ↦ absurd (failed (rw (default, multi, empty) at h))
        | inr paths ↦
            rw (default, multi)
              (links-IsLeast route.multi_path start mtu (rw (default, multi, paths) at h))
      ]
    ]
  ]

  routes-IsLeast :
      (routes : List Route) (start mtu : ℕ)
      → scan_routes link_mtu routes start ≡ ok mtu
      → IsLeast start (default_links routes) mtu
  unfolding scan_routes
  routes-IsLeast [] start mtu h = IsLeast-nil start mtu (ok-injective h)
  routes-IsLeast (route ∷ routes) start mtu h =
      let (middle, first, rest) =
        >>=-eq-ok (step_route link_mtu route start) (scan_routes link_mtu routes) h in
      IsLeast-append start middle mtu (route_links route) (default_links routes)
        (route-IsLeast route start middle first) (routes-IsLeast routes middle mtu rest)

  picked : (P : ℕ → Type 0) (i : ℕ) (links : List ℕ) → All P links → IsIn i links → P i
  picked P i [] all at = absurd at
  picked P i (j ∷ links) (p, rest) (inl same) = subst P same p
  picked P i (j ∷ links) (p, rest) (inr at) = picked P i links rest at

  -- The MTU of the host is positive, at most 65536, the MTU of a link of a default route, and none of
  -- the other links of default routes has a smaller positive one.
  pub get_default_mtu-least :
      (routes : List Route) (mtu other n : ℕ)
      → get_default_mtu link_mtu (some routes) ≡ ok mtu
      → IsIn other (default_links routes)
      → link_mtu other ≡ some n
      → 0 < n
      → (0 < mtu)
        × (mtu ≤ 65536)
        × ((i : ℕ) × IsIn i (default_links routes) × (link_mtu i ≡ some mtu))
        × (mtu ≤ n)
  unfolding get_default_mtu
  get_default_mtu-least [] mtu other n h at is_n positive_n = absurd at
  get_default_mtu-least (route ∷ routes) mtu other n h at is_n positive_n =
      let all = route ∷ routes in
      let (found, scanned, last) =
        >>=-eq-ok (scan_routes link_mtu all (65536 + 1))
          (λ m. if ltb 65536 m then fail mtu_not_determined else ok m) h in
      let (small, same) = determined found mtu last in
      let (le, least, which) = routes-IsLeast all (65536 + 1) found scanned in
      elim which [
        | inl unset ↦ absurd (omega (arith, unset, small))
        | inr (i, in_links, e, positive) ↦ (
          omega (arith, positive, same),
          omega (arith, small, same),
          (i, in_links, e ∙ ap some same),
          omega (arith, picked _ other (default_links all) least at n is_n positive_n, same),
        )
      ]
