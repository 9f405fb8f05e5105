-- ===== src/Vcd/Firewall.antt =====
-- vcd/resource_vcd_nsxv_firewall_rule.go and the lookups of vcd/resource_vcd_ipset.go: the source or
-- destination of a firewall rule between the Terraform block and the API. Terraform's sets of texts are lists.
-- govcd, strconv.Atoi and strconv.Itoa are parameters; logging is left out.
pub mod Endpoints
pub mod Convert
pub mod Lookup
pub mod Rule
pub mod RoundTrip
pub mod Stored
use Prim.Native.Char.{code}
use Prim.Native.String.{◌++◌ as append_text}
use terraform_provider_viett.Prelude.{
  ℕ, ◌≡◌, String, Bool, true, false, Option, none, some, List, [], ◌∷◌, ◌++◌, ◌==◌, ◌||◌, num_eq,
  if◌then◌else◌, map,
}
use terraform_provider_viett.Go.{Failure, plain, wrapped, Result, ok, err}

-- a character in front of the first part
abbrev pub prepend : String → List String → List String
prepend c [] = c ∷ []
prepend c (part ∷ parts) = append_text c part ∷ parts

-- strings.Split by one character, given by its code
unfoldable pub split : ℕ → String → List String
split sep String.[] = "" ∷ []
split sep (String.◌∷◌ c s) =
    let rest = split sep s in
    if num_eq (code c) sep then "" ∷ rest else prepend (String.◌∷◌ c "") rest

abbrev pub colon : ℕ
colon = 58

abbrev pub dash : ℕ
dash = 45

-- what an ID in a group of objects stands for
pub data ObjectKind : Type 0 where
  org_network : ObjectKind
  virtual_machine : ObjectKind
  ip_set : ObjectKind
  unrecognized : ObjectKind

-- the parts of the second half of an ID with one colon
unfoldable pub sub_kind : List String → ObjectKind
sub_kind (a ∷ b ∷ []) = if a == "ipset" then ip_set else unrecognized
sub_kind parts = unrecognized

-- the switch of getEndpointData, on the parts of an ID
unfoldable pub kind_of_parts : List String → ObjectKind
unfolding split sub_kind
kind_of_parts (a ∷ b ∷ []) = sub_kind (split dash b)
kind_of_parts (a ∷ b ∷ c ∷ d ∷ []) =
    if c == "network" then org_network else (if c == "vm" then virtual_machine else unrecognized)
kind_of_parts parts = unrecognized

unfoldable pub object_kind : String → ObjectKind
unfolding kind_of_parts split
object_kind id = kind_of_parts (split colon id)

-- types.EdgeFirewallEndpoint
pub record Endpoint : Type 0 where
  pub exclude : Bool
  pub ip_addresses : List String
  pub vnic_group_ids : List String
  pub grouping_object_ids : List String

-- a block "source" or "destination"
pub record EndpointBlock : Type 0 where
  pub exclude : Bool
  pub ip_addresses : List String
  pub gateway_interfaces : List String
  pub vm_ids : List String
  pub org_networks : List String
  pub ip_sets : List String

pub record IpSet : Type 0 where
  pub id : String
  pub name : String

-- what GetAllNsxvIpSets gives: the IP sets, an error for which IsNotFound holds, or another error
pub data IpSets : Type 0 where
  found : List IpSet → IpSets
  not_found : IpSets
  refused : Failure → IpSets

-- strconv, the index of GetAnyVnicIndexByNetworkName, the name of GetNetworkNameAndTypeByVnicIndex, the ID of
-- GetOrgVdcNetworkByName, the name of GetOrgVdcNetworkById, and GetAllNsxvIpSets
pub record EdgeApi : Type 0 where
  pub atoi : String → Result ℕ
  pub itoa : ℕ → String
  pub vnic_of_network : String → Result ℕ
  pub network_of_vnic : ℕ → Result String
  pub network_id : String → Result String
  pub network_name : String → Result String
  pub all_ip_sets : IpSets

-- a converted text in front of the others, or the first error
unfoldable pub join : Result String → Result (List String) → Result (List String)
join (err e) rest = err e
join (ok y) (err e) = err e
join (ok y) (ok ys) = ok (y ∷ ys)

-- a loop that converts every text of a list or ends with the first error
unfoldable pub each : (String → Result String) → List String → Result (List String)
unfolding join
each f [] = ok []
each f (x ∷ xs) = join (f x) (each f xs)

-- the interfaces that are not names of networks
abbrev pub is_interface : String → Bool
is_interface s = (s == "internal") || (s == "external") || (s == "vse")

-- a later match, else this one
unfoldable pub or_else : Option String → Bool → String → Option String
or_else (some later) matches s = some later
or_else none true s = some s
or_else none false s = none

-- the ID of the last IP set of a name
unfoldable pub id_of_name : String → List IpSet → Option String
unfolding or_else
id_of_name name [] = none
id_of_name name (s ∷ sets) = or_else (id_of_name name sets) (s.name == name) s.id

-- the name of the last IP set of an ID
unfoldable pub name_of_id : String → List IpSet → Option String
unfolding or_else
name_of_id id [] = none
name_of_id id (s ∷ sets) = or_else (name_of_id id sets) (s.id == id) s.name

abbrev pub found_or : String → Option String → Result String
found_or message none = err (plain message)
found_or message (some s) = ok s

-- a new slice of as many texts as a list has
abbrev pub blanks : List String → List String
blanks = map (λ (s : String). "")

module _ (api : EdgeApi) where
  unfoldable pub vnic_id : Result ℕ → Result String
  vnic_id (err e) = err (wrapped "error searching for network" e)
  vnic_id (ok index) = ok (append_text "vnic-" (api.itoa index))

  -- one round of edgeInterfaceNamesToIdStrings
  unfoldable pub interface_id : String → Result String
  unfolding vnic_id
  interface_id name = if is_interface name then ok name else vnic_id (api.vnic_of_network name)

  -- edgeInterfaceNamesToIdStrings
  unfoldable pub edge_interface_names_to_id_strings : List String → Result (List String)
  unfolding each interface_id
  edge_interface_names_to_id_strings names = each interface_id names

  unfoldable pub network_found : Result String → Result String
  network_found (err e) = err (wrapped "could not find network name by vNic index" e)
  network_found (ok name) = ok name

  unfoldable pub network_at : Result ℕ → Result String
  unfolding network_found
  network_at (err e) = err (wrapped "could not convert edge gateway NIC index to int" e)
  network_at (ok index) = network_found (api.network_of_vnic index)

  unfoldable pub network_of_parts : List String → Result String
  unfolding network_at
  network_of_parts (a ∷ b ∷ parts) = network_at (api.atoi b)
  network_of_parts parts = err (plain "could not find vNic index from value")

  -- one round of edgeVnicIdStringsToNetworkNames
  unfoldable pub interface_name : String → Result String
  unfolding network_of_parts split
  interface_name id = if is_interface id then ok id else network_of_parts (split dash id)

  -- edgeVnicIdStringsToNetworkNames
  unfoldable pub edge_vnic_id_strings_to_network_names : List String → Result (List String)
  unfolding each interface_name
  edge_vnic_id_strings_to_network_names ids = each interface_name ids

  -- orgNetworkNamesToIds
  unfoldable pub org_network_names_to_ids : List String → Result (List String)
  unfolding each
  org_network_names_to_ids names = each api.network_id names

  -- orgNetworksIdsToNames
  unfoldable pub org_networks_ids_to_names : List String → Result (List String)
  unfolding each
  org_networks_ids_to_names ids = each api.network_name ids

  unfoldable pub ip_set_ids_in : List String → IpSets → Result (List String)
  unfolding each id_of_name
  ip_set_ids_in names not_found = ok (blanks names)
  ip_set_ids_in names (refused e) = err (wrapped "unable to fetch all IP sets" e)
  ip_set_ids_in names (found sets) =
      each (λ name. found_or "could not find IP set" (id_of_name name sets)) names

  -- ipSetNamesToIds in the long format, as firewall rules use it
  unfoldable pub ip_set_names_to_ids : List String → Result (List String)
  unfolding ip_set_ids_in
  ip_set_names_to_ids [] = ok []
  ip_set_names_to_ids (name ∷ names) = ip_set_ids_in (name ∷ names) api.all_ip_sets

  unfoldable pub ip_set_names_in : List String → IpSets → Result (List String)
  unfolding each name_of_id
  ip_set_names_in ids not_found = ok ids
  ip_set_names_in ids (refused e) = err (wrapped "unable to fetch all IP sets" e)
  ip_set_names_in ids (found sets) =
      each (λ id. found_or "could not find IP set" (name_of_id id sets)) ids

  -- ipSetIdsToNames
  unfoldable pub ip_set_ids_to_names : List String → Result (List String)
  unfolding ip_set_names_in
  ip_set_ids_to_names ids = ip_set_names_in ids api.all_ip_sets
