-- ===== src/Network/ProxyArguments.antt =====
-- pkg/util/k8s/kubeproxy.go: the arguments of kube-proxy are merged, and become its configuration. The
-- getters carry the arguments that are not used yet, and the errors, from one to the next.
use cluster_network_operator.Prelude.{
  ℕ, String, Bool, true, false, not, ◌&&◌, List, [], ◌∷◌, ◌++◌, Option, none, some, ◌==◌, string_eq,
  Dict, lookup, insert, remove, if◌then◌else◌,
}
use cluster_network_operator.Network.Pools.{error_if, is_nil}

abbrev pub Arguments : Type 0
Arguments = Dict String (List String)

-- the last of the values
abbrev pub last_value : List String → List String
last_value [] = []
last_value (v ∷ []) = v ∷ []
last_value (v ∷ w ∷ values) = last_value (w ∷ values)

-- one of the two loops; a map has no order, and the entries are taken from the last to the first
unfoldable pub merge_into : Arguments → Arguments → Arguments
merge_into args [] = args
merge_into args ((key, values) ∷ given) =
    let rest = merge_into args given in
    if is_nil values then rest else insert key (last_value values) rest

unfoldable pub merge_kube_proxy_arguments : Arguments → Arguments → Arguments
unfolding merge_into
merge_kube_proxy_arguments defaults overrides = merge_into (merge_into [] defaults) overrides

pub data ArgumentError : Type 0 where
  invalid : String → String → ArgumentError
  gate_invalid : String → ArgumentError
  unused : List String → ArgumentError

-- kpcArgs
pub record KpcArgs : Type 0 where
  pub args : Arguments
  pub errs : List ArgumentError

-- a getter: its value, and the arguments after it
abbrev pub Getter {ℓ} : Type ℓ → Type ℓ
Getter A = KpcArgs → A × KpcArgs

infixl 5 ◌>>=◌
unfoldable pub ◌>>=◌ {ℓ κ} : {A : Type ℓ} {B : Type κ} → Getter A → (A → Getter B) → Getter B
◌>>=◌ first rest s = let (a, s') = first s in rest a s'

unfoldable pub return {ℓ} : {A : Type ℓ} → A → Getter A
return a s = (a, s)

abbrev pub first_or_empty : Option (List String) → String
first_or_empty (some (v ∷ values)) = v
first_or_empty (some []) = ""
first_or_empty none = ""

abbrev pub has_value : Option (List String) → Bool
has_value (some (v ∷ values)) = true
has_value (some []) = false
has_value none = false

unfoldable pub get : String → Getter String
get key s =
    let found = lookup key s.args in
    (first_or_empty found, if has_value found then record s { args = remove key s.args } else s)

abbrev pub add_error : ArgumentError → KpcArgs → KpcArgs
add_error e s = record s { errs = s.errs ++ e ∷ [] }

abbrev pub or_error {ℓ} : {A : Type ℓ} → A → ArgumentError → Option A → Getter A
or_error unset e none s = (unset, add_error e s)
or_error unset e (some a) s = (a, s)

-- the value of an argument that parses, and otherwise an error
unfoldable pub parsed {ℓ} : {A : Type ℓ} → A → (String → Option A) → String → Getter A
unfolding get
parsed unset parse key s =
    let (value, s') = get key s in
    if value == "" then (unset, s') else or_error unset (invalid key value) (parse value) s'

-- a numeral, with its sign
pub data ℤ : Type 0 where
  pos negsuc : ℕ → ℤ

-- net.ParseIP, net.ParseCIDR, strconv.ParseUint of 16 bits and utilnet.ParsePortRange, by whether they
-- accept a text; net.JoinHostPort, strings.Split by commas, strconv.ParseInt of 32 bits,
-- strconv.ParseBool, time.ParseDuration in nanoseconds, and cliflag.MapStringBool.Set with whether it
-- has no error
pub record ArgumentLibrary : Type 0 where
  pub is_ip : String → Bool
  pub is_cidr : String → Bool
  pub is_uint16 : String → Bool
  pub is_port_range : String → Bool
  pub join_host_port : String → String → String
  pub split_commas : String → List String
  pub parse_int32 : String → Option ℤ
  pub parse_bool : String → Option Bool
  pub parse_duration : String → Option ℤ
  pub set_gates : String → Dict String Bool → Dict String Bool × Bool

abbrev pub text_if : (String → Bool) → String → Option String
text_if accepts value = if accepts value then some value else none

abbrev pub zero_duration : ℤ
zero_duration = pos 0

module _ (lib : ArgumentLibrary) where
  abbrev pub every_cidr : List String → Bool
  every_cidr [] = true
  every_cidr (v ∷ values) = lib.is_cidr v && every_cidr values

  abbrev pub cidr_list : String → Option (Option (List String))
  cidr_list value =
      let values = lib.split_commas value in if every_cidr values then some (some values) else none

  abbrev pub get_string : String → Getter String
  get_string = get

  abbrev pub get_address : String → Getter String
  get_address = parsed "" (text_if lib.is_ip)

  abbrev pub get_cidr : String → Getter String
  get_cidr = parsed "" (text_if lib.is_cidr)

  abbrev pub get_cidr_list : String → Getter (Option (List String))
  get_cidr_list = parsed none cidr_list

  abbrev pub get_string_list : String → Getter (Option (List String))
  get_string_list = parsed none (λ value. some (some (lib.split_commas value)))

  abbrev pub optional {ℓ} : {A : Type ℓ} → Option A → Option (Option A)
  optional none = none
  optional (some a) = some (some a)

  abbrev pub get_opt_int32 : String → Getter (Option ℤ)
  get_opt_int32 = parsed none (λ value. optional (lib.parse_int32 value))

  abbrev pub get_bool : String → Getter Bool
  get_bool = parsed false lib.parse_bool

  abbrev pub get_opt_bool : String → Getter (Option Bool)
  get_opt_bool = parsed none (λ value. optional (lib.parse_bool value))

  abbrev pub get_duration : String → Getter ℤ
  get_duration = parsed zero_duration lib.parse_duration

  abbrev pub get_port_range : String → Getter String
  get_port_range = parsed "" (text_if lib.is_port_range)

  -- the address and the port together, either by its default
  abbrev pub joined_address : String → String → String → String → String → Getter String
  joined_address address_key port_key default_port address port s =
      if address == "" && port == ""
      then ("", s)
      else if not (address == "") && not (lib.is_ip address)
      then ("", add_error (invalid address_key address) s)
      else if not (port == "") && not (lib.is_uint16 port)
      then ("", add_error (invalid port_key port) s)
      else (
        lib.join_host_port (if address == "" then "0.0.0.0" else address)
            (if port == "" then default_port else port),
        s,
      )

  unfoldable pub get_address_and_port : String → String → String → Getter String
  unfolding ◌>>=◌ get
  get_address_and_port address_key port_key default_port = do
    address ← get address_key
    port ← get port_key
    joined_address address_key port_key default_port address port

  -- the loop over the values of feature-gates
  unfoldable pub gates_of : List String → Dict String Bool → Dict String Bool × List ArgumentError
  gates_of [] gates = (gates, [])
  gates_of (v ∷ values) gates =
      let (gates', valid) = lib.set_gates v gates in
      let (final, errors) = gates_of values gates' in
      (final, error_if (not valid) (gate_invalid v) ++ errors)

  abbrev pub values_of_gates : Option (List String) → List String
  values_of_gates none = []
  values_of_gates (some values) = values

  unfoldable pub get_feature_gates : String → Getter (Option (Dict String Bool))
  unfolding gates_of
  get_feature_gates key s =
      let values = values_of_gates (lookup key s.args) in
      let (gates, errors) = gates_of values [] in
      if is_nil values then (none, s) else (
        if is_nil gates then none else some gates,
        record { args = remove key s.args; errs = s.errs ++ errors },
      )
