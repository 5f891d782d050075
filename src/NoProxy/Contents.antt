-- ===== src/NoProxy/Contents.antt =====
-- Which texts the merged set has.
use cluster_network_operator.Prelude.{
  String, ◌≡◌, refl, sym, ap, subst, ◌∙◌, inl, inr, Bool, true, false, not, ◌&&◌, ◌||◌, Bool-cases,
  List, [], ◌∷◌, ◌++◌, Option, none, some, ◌==◌, ==_iff, string_eq, arith, if◌then◌else◌, Outcome,
  ok, fail, ◌>>=◌, >>=-eq-ok, ok-injective,
}
use cluster_network_operator.NoProxy.{
  NoProxyError, internal_url_invalid, service_network_missing, cluster_network_missing,
  InstallConfig, Infrastructure, NetworkStatus, TextLibrary, elem, insert_text, insert_all,
  default_cidr, or_fail, base_values, add_machine_cidr, add_machine_networks, add_internal_url,
  add_networks, all_platform_values, user_values, merged_set,
}

abbrev pub IsDistinct : List String → Type 0
IsDistinct [] = Unit {0}
IsDistinct (x ∷ xs) = (elem x xs ≡ false) × IsDistinct xs

elem-insert_text :
    (x y : String) (set : List String) → elem x (insert_text y set) ≡ ((y == x) || elem x set)
unfolding insert_text
elem-insert_text x y set = elim (Bool-cases (elem y set)) [
  | inl h ↦ elim (Bool-cases (y == x)) [
    | inl e ↦ rw (h, e) (ap (λ z. elem z set) (sym ((==_iff y x).0 e)) ∙ h)
    | inr n ↦ rw (h, n) refl
  ]
  | inr h ↦ rw h refl
]

elem-insert_all :
    (x : String) (xs set : List String) → elem x (insert_all xs set) ≡ (elem x xs || elem x set)
unfolding insert_all
elem-insert_all x [] set = refl
elem-insert_all x (y ∷ xs) set =
    ground (arith, elem-insert_all x xs (insert_text y set), elem-insert_text x y set)

IsDistinct-insert_text :
    (y : String) (set : List String) → IsDistinct set → IsDistinct (insert_text y set)
unfolding insert_text
IsDistinct-insert_text y set d = elim (Bool-cases (elem y set)) [
  | inl h ↦ rw h d
  | inr h ↦ rw h (h, d)
]

IsDistinct-insert_all : (xs set : List String) → IsDistinct set → IsDistinct (insert_all xs set)
unfolding insert_all
IsDistinct-insert_all [] set d = d
IsDistinct-insert_all (x ∷ xs) set d =
    IsDistinct-insert_all xs (insert_text x set) (IsDistinct-insert_text x set d)

insert_all-append :
    (xs ys set : List String) → insert_all (xs ++ ys) set ≡ insert_all ys (insert_all xs set)
unfolding insert_all
insert_all-append [] ys set = refl
insert_all-append (x ∷ xs) ys set = insert_all-append xs ys (insert_text x set)

-- the texts of the parts of the code, each by itself
abbrev pub machine_cidr_values : String → List String
machine_cidr_values cidr = if not (cidr == "") && not (cidr == default_cidr) then cidr ∷ [] else []

unfoldable pub machine_network_values : List String → List String
machine_network_values [] = []
machine_network_values (cidr ∷ cidrs) =
    let rest = machine_network_values cidrs in if cidr == default_cidr then rest else cidr ∷ rest

abbrev pub one_or_none : Option String → List String
one_or_none none = []
one_or_none (some x) = x ∷ []

abbrev pub internal_values : TextLibrary → String → String → List String
internal_values lib env url = if env == "true" then [] else one_or_none (lib.hostname url)

failed :
    {e : NoProxyError} {set : List String}
    → ◌≡◌ {A = Outcome NoProxyError (List String)} (fail e) (ok set)
    → ⊥
failed h = absurd (ground (arith, h))

host_lem :
    (host : Option String) (set result : List String)
    → (or_fail host internal_url_invalid >>= λ h. ok (insert_text h set)) ≡ ok result
    → result ≡ insert_all (one_or_none host) set
unfolding insert_all
host_lem none set result h = absurd (failed h)
host_lem (some host) set result h = sym (ok-injective h)

module _ (lib : TextLibrary) where
  cidr_lem :
      (cidr : String) (set result : List String)
      → add_machine_cidr lib cidr set ≡ ok result
      → result ≡ insert_all (machine_cidr_values cidr) set
  unfolding add_machine_cidr insert_all
  cidr_lem cidr set result h = elim (Bool-cases (not (cidr == "") && not (cidr == default_cidr))) [
    | inl given ↦ elim (Bool-cases (lib.is_cidr cidr)) [
      | inl valid ↦ rw given (sym (ok-injective (rw (given, valid) at h)))
      | inr invalid ↦ absurd (failed (rw (given, invalid) at h))
    ]
    | inr skipped ↦ rw skipped (sym (ok-injective (rw skipped at h)))
  ]

  networks_lem :
      (cidrs set result : List String)
      → add_machine_networks lib cidrs set ≡ ok result
      → result ≡ insert_all (machine_network_values cidrs) set
  unfolding add_machine_networks machine_network_values insert_all
  networks_lem [] set result h = sym (ok-injective h)
  networks_lem (cidr ∷ cidrs) set result h = elim (Bool-cases (cidr == default_cidr)) [
    | inl skipped ↦ rw skipped (networks_lem cidrs set result (rw skipped at h))
    | inr kept ↦ elim (Bool-cases (lib.is_cidr cidr)) [
      | inl valid ↦
          rw kept (networks_lem cidrs (insert_text cidr set) result (rw (kept, valid) at h))
      | inr invalid ↦ absurd (failed (rw (kept, invalid) at h))
    ]
  ]

  url_lem :
      (env url : String) (set result : List String)
      → add_internal_url lib env url set ≡ ok result
      → result ≡ insert_all (internal_values lib env url) set
  unfolding add_internal_url insert_all
  url_lem env url set result h = elim (Bool-cases (env == "true")) [
    | inl skipped ↦ rw skipped (sym (ok-injective (rw skipped at h)))
    | inr needed ↦ elim (Bool-cases (url == "")) [
      | inl missing ↦ absurd (failed (rw (needed, missing) at h))
      | inr given ↦ rw needed (host_lem (lib.hostname url) set result (rw (needed, given) at h))
    ]
  ]

given_lem :
    (e : NoProxyError) (xs set result : List String)
    → add_networks e xs set ≡ ok result
    → result ≡ insert_all xs set
unfolding add_networks
given_lem e [] set result h = absurd (ground arith)
given_lem e (x ∷ xs) set result h = sym (ok-injective h)

-- all texts, in the order of the code
abbrev pub no_proxy_entries :
    TextLibrary
    → Bool
    → String
    → InstallConfig
    → Infrastructure
    → NetworkStatus
    → String
    → List String
    → List String
no_proxy_entries lib hypershift env ic infra network no_proxy values =
    base_values hypershift
    ++ (machine_cidr_values ic.machine_cidr
        ++ (machine_network_values ic.machine_network
            ++ (internal_values lib env infra.internal_url
                ++ (network.service_network
                    ++ (values ++ (network.cluster_network ++ user_values lib no_proxy))))))

false_right : (b : Bool) → (b || false) ≡ b
false_right true = refl
false_right false = refl

then_insert :
    (xs ys a b : List String) → a ≡ insert_all xs b → insert_all ys a ≡ insert_all (xs ++ ys) b
then_insert xs ys a b h = ap (insert_all ys) h ∙ sym (insert_all-append xs ys b)

-- The set that is merged has no text twice, and has exactly the texts of its sources: the local ones,
-- the machine networks but for the default, the host of the internal API server unless it is left out,
-- the service and cluster networks, the platform's values, and the user's texts that are not empty.
pub merged_set-elem :
    (lib : TextLibrary) (hypershift : Bool) (env : String) (ic : InstallConfig)
    (infra : Infrastructure) (network : NetworkStatus) (no_proxy : String) (set : List String)
    → merged_set lib hypershift env ic infra network no_proxy ≡ ok set
    → (values : List String) × (all_platform_values infra.platform ≡ ok values)
      × IsDistinct set
      × ((x : String)
          → elem x set
            ≡ elem x (no_proxy_entries lib hypershift env ic infra network no_proxy values))
unfolding merged_set
merged_set-elem lib hypershift env ic infra network no_proxy set h =
    let (s1, e1, r1) =
      >>=-eq-ok (add_machine_cidr lib ic.machine_cidr (insert_all (base_values hypershift) [])) _
        h in
    let (s2, e2, r2) = >>=-eq-ok (add_machine_networks lib ic.machine_network s1) _ r1 in
    let (s3, e3, r3) = >>=-eq-ok (add_internal_url lib env infra.internal_url s2) _ r2 in
    let (s4, e4, r4) =
      >>=-eq-ok (add_networks service_network_missing network.service_network s3) _ r3 in
    let (values, e5, r5) = >>=-eq-ok (all_platform_values infra.platform) _ r4 in
    let (s5, e6, r6) =
      >>=-eq-ok
        (add_networks cluster_network_missing network.cluster_network (insert_all values s4)) _
        r5 in
    let entries = no_proxy_entries lib hypershift env ic infra network no_proxy values in
    let user = user_values lib no_proxy in
    let from_clusters = network.cluster_network ++ user in
    let from_values = values ++ from_clusters in
    let from_services = network.service_network ++ from_values in
    let from_url = internal_values lib env infra.internal_url ++ from_services in
    let from_machines = machine_network_values ic.machine_network ++ from_url in
    let from_cidr = machine_cidr_values ic.machine_cidr ++ from_machines in
    let whole : set ≡ insert_all entries [] =
      sym (ok-injective r6)
      ∙ then_insert network.cluster_network user s5 (insert_all values s4)
          (given_lem cluster_network_missing network.cluster_network (insert_all values s4) s5 e6)
      ∙ then_insert values from_clusters (insert_all values s4) s4 refl
      ∙ then_insert network.service_network from_values s4 s3
          (given_lem service_network_missing network.service_network s3 s4 e4)
      ∙ then_insert (internal_values lib env infra.internal_url) from_services s3 s2
          (url_lem lib env infra.internal_url s2 s3 e3)
      ∙ then_insert (machine_network_values ic.machine_network) from_url s2 s1
          (networks_lem lib ic.machine_network s1 s2 e2)
      ∙ then_insert (machine_cidr_values ic.machine_cidr) from_machines s1
          (insert_all (base_values hypershift) [])
          (cidr_lem lib ic.machine_cidr (insert_all (base_values hypershift) []) s1 e1)
      ∙ then_insert (base_values hypershift) from_cidr (insert_all (base_values hypershift) []) []
          refl in
    (
      values,
      e5,
      subst IsDistinct (sym whole) (IsDistinct-insert_all entries [] tt),
      λ x. ap (elem x) whole ∙ (elem-insert_all x entries [] ∙ false_right (elem x entries)),
    )
