-- ===== src/Infrastructure/SpecStatus.antt =====
-- sync_specstatus.go and validations.go: what the user specifies, what the status says, and the
-- validations between. Addresses and networks stay texts. The classification of address pairs
-- (k8s.io/utils/net) and the parsing of addresses and prefixes (net/netip) are arguments.
pub mod Synchronized
pub mod Validated
use cluster_network_operator.Prelude.{
  ℕ, String, Bool, true, false, not, ◌&&◌, List, [], ◌∷◌, Option, none, some, ◌==◌, string_eq,
  nat_eq, ltb, length, if◌then◌else◌, Outcome, ok, fail, ◌>>=◌, ◌>>◌, fail_if,
}

pub data VipError : Type 0 where
  too_many_api too_many_ingress counts_differ vips_equal api_not_dual ingress_not_dual : VipError
  bad_address bad_network vip_outside : VipError
  networks_removed first_network_changed first_vip_changed : VipError
  index_panic : VipError  -- the code indexes an empty slice

-- `is_dual_stack` is utilnet.IsDualStackIPStrings, with `none` for its error.
pub record AddressLibrary : Type 1 where
  pub Addr : Type 0
  pub Prefix : Type 0
  pub is_dual_stack : List String → Option Bool
  pub parse_addr : String → Option Addr
  pub parse_prefix : String → Option Prefix
  pub contains : Prefix → Addr → Bool

-- the part of a platform's spec, and of its status, that is synchronized
pub record VipSpec : Type 0 where
  pub api_vips : List String
  pub ingress_vips : List String
  pub machine_networks : List String

pub record VipStatus : Type 0 where
  pub api_vips : List String
  pub ingress_vips : List String
  pub machine_networks : List String

-- the new status; a nil or empty spec stays empty
unfoldable pub sync_machine_networks : List String → List String → Outcome VipError (List String)
sync_machine_networks spec [] = ok spec
sync_machine_networks [] (network ∷ status) = fail networks_removed
sync_machine_networks (wanted ∷ spec) (network ∷ status) =
    if wanted == network then ok (wanted ∷ spec) else fail first_network_changed

-- the new spec and the new status
unfoldable pub sync_vips : List String → List String → Outcome VipError (List String × List String)
sync_vips [] status = ok (status, status)
sync_vips (wanted ∷ spec) [] = fail index_panic
sync_vips (wanted ∷ spec) (vip ∷ status) =
    if wanted == vip then ok (wanted ∷ spec, wanted ∷ spec) else fail first_vip_changed

-- the loop that compares the VIPs at the same index
unfoldable pub same_index_equal : List String → List String → Bool
same_index_equal [] ingress = false
same_index_equal (a ∷ api) [] = false
same_index_equal (a ∷ api) (i ∷ ingress) =
    let rest = same_index_equal api ingress in if a == i then true else rest

-- `!ok || fail != nil`
abbrev pub not_dual : Option Bool → Bool
not_dual none = true
not_dual (some dual) = not dual

module _ (addresses : AddressLibrary) where
  open addresses use {Addr, Prefix, is_dual_stack, parse_addr, parse_prefix, contains}

  unfoldable pub validate_vips_with_vips :
      List String → List String → Bool → Outcome VipError (Unit {0})
  unfolding same_index_equal
  validate_vips_with_vips api ingress elb = do
    fail_if (ltb 2 (length api)) too_many_api
    fail_if (ltb 2 (length ingress)) too_many_ingress
    fail_if (not (length api == length ingress)) counts_differ
    fail_if (not elb && same_index_equal api ingress) vips_equal
    fail_if (ltb 1 (length api) && not_dual (is_dual_stack api)) api_not_dual
    fail_if (ltb 1 (length api) && not_dual (is_dual_stack ingress)) ingress_not_dual

  -- the inner loop: is the address in one of the networks?
  unfoldable pub in_networks : Addr → List String → Outcome VipError Bool
  in_networks ip [] = ok false
  in_networks ip (network ∷ networks) = elim (parse_prefix network) [
    | none ↦ fail bad_network
    | some prefix ↦ elim (contains prefix ip) [ true ↦ ok true | false ↦ in_networks ip networks ]
  ]

  abbrev pub parsed_addr : Option Addr → Outcome VipError Addr
  parsed_addr none = fail bad_address
  parsed_addr (some ip) = ok ip

  unfoldable pub vips_in_networks : List String → List String → Outcome VipError (Unit {0})
  unfolding in_networks
  vips_in_networks [] networks = ok tt
  vips_in_networks (vip ∷ vips) networks = do
    ip ← parsed_addr (parse_addr vip)
    found ← in_networks ip networks
    fail_if (not found) vip_outside
    vips_in_networks vips networks

  unfoldable pub validate_vips_with_machine_networks :
      List String → List String → Outcome VipError (Unit {0})
  unfolding vips_in_networks
  validate_vips_with_machine_networks vips [] = ok tt
  validate_vips_with_machine_networks vips (network ∷ networks) =
      vips_in_networks vips (network ∷ networks)

  -- what follows the switch over the platforms, on the fields of the platform at hand
  unfoldable pub synchronize_fields :
      VipSpec → VipStatus → Bool → Outcome VipError (VipSpec × VipStatus)
  unfolding sync_machine_networks sync_vips validate_vips_with_vips
      validate_vips_with_machine_networks
  synchronize_fields spec status elb = do
    networks ← sync_machine_networks spec.machine_networks status.machine_networks
    validate_vips_with_vips spec.api_vips spec.ingress_vips elb
    validate_vips_with_machine_networks spec.api_vips spec.machine_networks
    validate_vips_with_machine_networks spec.ingress_vips spec.machine_networks
    api ← sync_vips spec.api_vips status.api_vips
    ingress ← sync_vips spec.ingress_vips status.ingress_vips
    ok (
      record {
        api_vips = api.0;
        ingress_vips = ingress.0;
        machine_networks = spec.machine_networks;
      },
      record { api_vips = api.1; ingress_vips = ingress.1; machine_networks = networks },
    )

-- a platform's status with the type of its load balancer, if it names one
pub record PlatformStatus : Type 0 where
  pub vips : VipStatus
  pub load_balancer : Option String

abbrev pub user_managed : String
user_managed = "UserManaged"

-- `Status.PlatformStatus`, with the status of the platform of its type, and the spec of that platform
pub data PlatformConfig : Type 0 where
  no_platform_status other_platform : PlatformConfig
  synchronized_platform : Option PlatformStatus → Option VipSpec → PlatformConfig

abbrev pub empty_spec : VipSpec
empty_spec = record { api_vips = []; ingress_vips = []; machine_networks = [] }

-- A spec that is missing is created empty.
abbrev pub or_empty_spec : Option VipSpec → VipSpec
or_empty_spec none = empty_spec
or_empty_spec (some spec) = spec

abbrev pub is_user_managed : Option String → Bool
is_user_managed none = false
is_user_managed (some type) = type == user_managed

-- The cases of bare metal, vSphere and OpenStack are the same code, each on its own fields.
unfoldable pub spec_status_synchronize :
    AddressLibrary → PlatformConfig → Outcome VipError PlatformConfig
unfolding synchronize_fields
spec_status_synchronize addresses no_platform_status = ok no_platform_status
spec_status_synchronize addresses other_platform = ok other_platform
spec_status_synchronize addresses (synchronized_platform none spec) =
    ok (synchronized_platform none spec)
spec_status_synchronize addresses (synchronized_platform (some status) spec) = do
  fields ←
      synchronize_fields addresses (or_empty_spec spec) status.vips
        (is_user_managed status.load_balancer)
  ok (synchronized_platform (some (record status { vips = fields.1 })) (some fields.0))
