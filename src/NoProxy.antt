-- ===== src/NoProxy.antt =====
-- pkg/util/proxyconfig/no_proxy.go: the texts that a proxy is not used for, the system's and the
-- user's. The set is a list without repetitions; `nil_pointer` is the panic on a platform without its
-- own status.
pub mod Contents
use cluster_network_operator.Prelude.{
  ℕ, String, Bool, true, false, not, ◌&&◌, ◌||◌, List, [], ◌∷◌, ◌++◌, Option, none, some, ◌==◌,
  string_eq, any, Dict, lookup, concat, stable_sort, if◌then◌else◌, Outcome, ok, fail, ◌>>=◌,
}

pub data NoProxyError : Type 0 where
  install_config_missing install_config_invalid internal_url_missing internal_url_invalid :
      NoProxyError
  machine_cidr_invalid machine_network_invalid : String → NoProxyError
  service_network_missing cluster_network_missing nil_pointer : NoProxyError

-- what is read of the install config
pub record InstallConfig : Type 0 where
  pub machine_cidr : String
  pub machine_network : List String

pub record CloudStatus : Type 0 where
  pub type : String
  pub aws_region : Option String
  pub azure : Option (String × String)  -- CloudName and ARMEndpoint

pub record Infrastructure : Type 0 where
  pub internal_url : String
  pub platform : Option CloudStatus

-- the cluster's network status: its service networks, and the CIDRs of its cluster networks
pub record NetworkStatus : Type 0 where
  pub service_network : List String
  pub cluster_network : List String

-- yaml.Unmarshal of an install config, net.ParseCIDR by whether it accepts a text, the host name that
-- url.Parse finds, and strings.SplitSeq by commas
pub record TextLibrary : Type 0 where
  pub parse_install_config : String → Option InstallConfig
  pub is_cidr : String → Bool
  pub hostname : String → Option String
  pub split_commas : String → List String

abbrev pub elem : String → List String → Bool
elem x xs = any (λ y. y == x) xs

unfoldable pub insert_text : String → List String → List String
insert_text x set = if elem x set then set else x ∷ set

unfoldable pub insert_all : List String → List String → List String
unfolding insert_text
insert_all [] set = set
insert_all (x ∷ xs) set = insert_all xs (insert_text x set)

abbrev pub default_cidr : String
default_cidr = "0.0.0.0/0"

abbrev pub or_fail {ℓ} : {A : Type ℓ} → Option A → NoProxyError → Outcome NoProxyError A
or_fail none e = fail e
or_fail (some a) e = ok a

abbrev pub base_values : Bool → List String
base_values hypershift =
    "127.0.0.1"
    ∷ "localhost"
    ∷ ".svc"
    ∷ ".cluster.local"
    ∷ (if hypershift then ".hypershift.local" ∷ [] else [])

module _ (lib : TextLibrary) where
  unfoldable pub add_machine_cidr : String → List String → Outcome NoProxyError (List String)
  unfolding insert_text
  add_machine_cidr cidr set =
      if not (cidr == "") && not (cidr == default_cidr)
      then (if lib.is_cidr cidr
          then ok (insert_text cidr set)
          else fail (machine_cidr_invalid cidr))
      else ok set

  unfoldable pub add_machine_networks :
      List String → List String → Outcome NoProxyError (List String)
  unfolding insert_text
  add_machine_networks [] set = ok set
  add_machine_networks (cidr ∷ cidrs) set =
      let skipped = add_machine_networks cidrs set in
      let added = add_machine_networks cidrs (insert_text cidr set) in
      if cidr == default_cidr
      then skipped
      else if lib.is_cidr cidr
      then added
      else fail (machine_network_invalid cidr)

  unfoldable pub add_internal_url :
      String → String → List String → Outcome NoProxyError (List String)
  unfolding insert_text
  add_internal_url env url set =
      if env == "true"
      then ok set
      else if url == ""
      then fail internal_url_missing
      else (do host ← or_fail (lib.hostname url) internal_url_invalid; ok (insert_text host set))

-- the texts of a list that must not be empty
unfoldable pub add_networks :
    NoProxyError → List String → List String → Outcome NoProxyError (List String)
unfolding insert_all
add_networks e [] set = fail e
add_networks e (x ∷ xs) set = ok (insert_all (x ∷ xs) set)

abbrev pub region_value : String → String
region_value region =
    if region == "us-east-1"
    then ".ec2.internal"
    else concat ("." ∷ region ∷ ".compute.internal" ∷ [])

abbrev pub azure_values : String → String → List String
azure_values cloud endpoint =
    if cloud == "AzurePublicCloud"
    then []
    else "168.63.129.16" ∷ (if cloud == "AzureStackCloud" then endpoint ∷ [] else [])

-- the metadata server, and what is the platform's own
unfoldable pub platform_values : CloudStatus → Outcome NoProxyError (List String)
platform_values p =
    if p.type == "AWS"
    then (do
      region ← or_fail p.aws_region nil_pointer
      ok ("169.254.169.254" ∷ region_value region ∷ []))
    else if p.type == "Azure"
    then (do
      (cloud, endpoint) ← or_fail p.azure nil_pointer
      ok ("169.254.169.254" ∷ azure_values cloud endpoint))
    else if p.type == "GCP"
    then ok (
        "169.254.169.254" ∷ "metadata" ∷ "metadata.google.internal" ∷ "metadata.google.internal."
        ∷ [])
    else if p.type == "OpenStack"
    then ok ("169.254.169.254" ∷ [])
    else ok []

abbrev pub all_platform_values : Option CloudStatus → Outcome NoProxyError (List String)
all_platform_values none = ok []
all_platform_values (some p) = platform_values p

-- what the user gives, without the empty texts
unfoldable pub non_empty : List String → List String
non_empty [] = []
non_empty (x ∷ xs) = let rest = non_empty xs in if x == "" then rest else x ∷ rest

-- strings.Join, by commas
unfoldable pub join_commas : List String → String
join_commas [] = ""
join_commas (x ∷ []) = x
join_commas (x ∷ y ∷ xs) = concat (x ∷ "," ∷ join_commas (y ∷ xs) ∷ [])

module _ (lib : TextLibrary) where
  abbrev pub user_values : String → List String
  user_values no_proxy = if no_proxy == "" then [] else non_empty (lib.split_commas no_proxy)

  -- the set, from the install config on
  unfoldable pub merged_set :
      Bool
      → String
      → InstallConfig
      → Infrastructure
      → NetworkStatus
      → String
      → Outcome NoProxyError (List String)
  unfolding add_machine_cidr add_machine_networks add_internal_url add_networks platform_values
      non_empty
  merged_set hypershift env ic infra network no_proxy = do
    s1 ← add_machine_cidr lib ic.machine_cidr (insert_all (base_values hypershift) [])
    s2 ← add_machine_networks lib ic.machine_network s1
    s3 ← add_internal_url lib env infra.internal_url s2
    s4 ← add_networks service_network_missing network.service_network s3
    values ← all_platform_values infra.platform
    s5 ← add_networks cluster_network_missing network.cluster_network (insert_all values s4)
    ok (insert_all (user_values no_proxy) s5)

  -- mergeUserSystemNoProxy, by `<` on texts and the value of PROXY_INTERNAL_APISERVER_ADDRESS
  unfoldable pub merge_user_system_no_proxy :
      (String → String → Bool)
      → Bool
      → String
      → Dict String String
      → Infrastructure
      → NetworkStatus
      → String
      → Outcome NoProxyError String
  unfolding merged_set join_commas
  merge_user_system_no_proxy text_before hypershift env cluster infra network no_proxy = do
    data_text ← or_fail (lookup "install-config" cluster) install_config_missing
    ic ← or_fail (lib.parse_install_config data_text) install_config_invalid
    set ← merged_set hypershift env ic infra network no_proxy
    ok (join_commas (stable_sort text_before set))
