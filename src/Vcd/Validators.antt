-- ===== src/Vcd/Validators.antt =====
-- vcd/validate_funcs.go: the validators of the schema. A value is an `interface{}` of a few types; the
-- result is how many warnings and errors a validator gives.
use terraform_provider_viett.Prelude.{
  suc, ◌%◌, String, Bool, true, false, Option, none, some, List, [], ◌∷◌, ◌++◌, ◌==◌, ◌||◌, ◌&&◌,
  not, num_eq, leb, ltb, if◌then◌else◌,
}
use terraform_provider_viett.Go.{ℤ, pos, negsuc}

pub data Value : Type 0 where
  text : String → Value
  int : ℤ → Value
  bool : Bool → Value

pub data Verdict : Type 0 where
  valid : Verdict
  wrong_type : Verdict
  invalid : Verdict

pub data TypeOfVm : Type 0 where
  standalone_vm vapp_vm : TypeOfVm

-- vmNetworkTypeValidator: the list that is allowed
unfoldable pub vm_network_types : TypeOfVm → List String
vm_network_types standalone_vm = "org" ∷ "none" ∷ []
vm_network_types vapp_vm = ("org" ∷ "none" ∷ []) ++ ("vapp" ∷ [])

-- checkEmptyOrSingleIP; `is_ip` is whether net.ParseIP gives an address
unfoldable pub check_empty_or_single_ip : (String → Bool) → Value → Verdict
check_empty_or_single_ip is_ip (text v) = if not (is_ip v) && not (v == "") then invalid else valid
check_empty_or_single_ip is_ip (int _) = wrong_type
check_empty_or_single_ip is_ip (bool _) = wrong_type

-- the two cases that validateCase knows; it panics for any other
pub data Case : Type 0 where
  upper lower : Case

-- validateCase, with strings.ToUpper and strings.ToLower
unfoldable pub validate_case : (String → String) → (String → String) → Case → Value → Verdict
validate_case to_upper to_lower upper (text v) = if to_upper v == v then valid else invalid
validate_case to_upper to_lower lower (text v) = if to_lower v == v then valid else invalid
validate_case to_upper to_lower _ (int _) = wrong_type
validate_case to_upper to_lower _ (bool _) = wrong_type

-- value%4 in Go, as a test for 0: the sign does not matter
unfoldable pub is_multiple_of_4 : ℤ → Bool
is_multiple_of_4 (pos n) = num_eq (n % 4) 0
is_multiple_of_4 (negsuc n) = num_eq (suc n % 4) 0

-- validateMultipleOf4
unfoldable pub validate_multiple_of_4 : Value → Verdict
unfolding is_multiple_of_4
validate_multiple_of_4 (int v) = if is_multiple_of_4 v then valid else invalid
validate_multiple_of_4 (text _) = wrong_type
validate_multiple_of_4 (bool _) = wrong_type

unfoldable pub is_lease : ℤ → Bool
is_lease (pos n) = num_eq n 0 || leb 3600 n
is_lease (negsuc n) = false

-- validateIntLeaseSeconds
unfoldable pub validate_int_lease_seconds : Value → Verdict
unfolding is_lease
validate_int_lease_seconds (int v) = if is_lease v then valid else invalid
validate_int_lease_seconds (text _) = wrong_type
validate_int_lease_seconds (bool _) = wrong_type

unfoldable pub int_lt : ℤ → ℤ → Bool
int_lt (pos a) (pos b) = ltb a b
int_lt (pos a) (negsuc b) = false
int_lt (negsuc a) (pos b) = true
int_lt (negsuc a) (negsuc b) = ltb b a

-- IsIntAndAtLeast at a string; `atoi` is strconv.Atoi
unfoldable pub is_int_and_at_least : (String → Option ℤ) → ℤ → String → Verdict
unfolding int_lt
is_int_and_at_least atoi min v = elim (atoi v) [
  | none ↦ wrong_type
  | some value ↦ if int_lt value min then invalid else valid
]
