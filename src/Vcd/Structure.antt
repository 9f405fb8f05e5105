-- ===== src/Vcd/Structure.antt =====
-- vcd/structure.go: conversions between the provider's schema and the types of the VCD client. The
-- regular expression for UUIDs is a parameter that gives the matches in a text.
pub mod Laws
use Prim.Native.String.{◌++◌ as append_text}
use text.Mathlib.Text.{find?}
use terraform_provider_viett.Prelude.{
  ℕ, String, Bool, true, false, ◌&&◌, Option, none, some, List, [], ◌∷◌, ◌==◌, if◌then◌else◌, map,
}
use terraform_provider_viett.Go.Text.{has_prefix}

pub record IpRange : Type 0 where
  pub start_address : String
  pub end_address : String

-- the map of one block of the schema
pub record IpRangeBlock : Type 0 where
  pub start_address : String
  pub end_address : String

-- expandIPRange; it never fails
unfoldable pub expand_ip_range : List IpRangeBlock → List IpRange
expand_ip_range [] = []
expand_ip_range (block ∷ rest) =
    record { start_address = block.start_address; end_address = block.end_address }
    ∷ expand_ip_range rest

pub record FirewallRuleProtocols : Type 0 where
  pub any : Bool
  pub tcp : Bool
  pub udp : Bool
  pub icmp : Bool

-- getProtocol
unfoldable pub get_protocol : FirewallRuleProtocols → String
get_protocol protocol =
    if protocol.tcp
    then "tcp"
    else (if protocol.tcp && protocol.udp
        then "tcp&udp"
        else (if protocol.udp then "udp" else (if protocol.icmp then "icmp" else "any")))

-- the last of the matches
unfoldable pub last_match : List String → String
last_match [] = ""
last_match (m ∷ []) = m
last_match (m ∷ n ∷ rest) = last_match (n ∷ rest)

module _ (find_uuids : String → List String) where
  -- extractUuid
  unfoldable pub extract_uuid : String → String
  unfolding last_match
  extract_uuid input = last_match (find_uuids input)

  -- filterVdcId
  unfoldable pub filter_vdc_id : String → String
  unfolding extract_uuid has_prefix
  filter_vdc_id s = if has_prefix s "urn:vcloud:vdc:" then extract_uuid s else s

  -- haveSameUuid
  unfoldable pub have_same_uuid : String → String → Bool
  unfolding extract_uuid
  have_same_uuid s1 s2 = extract_uuid s1 == extract_uuid s2

-- strings.Contains
unfoldable pub contains_text : String → String → Bool
contains_text s sub = elim (find? s sub) [ none ↦ false | some _ ↦ true ]

-- normalizeId
unfoldable pub normalize_id : String → String → String
unfolding contains_text
normalize_id prefix id = if contains_text id prefix then id else append_text prefix id

-- stringPtrOrNil, and getStringAttributeAsPointer at the value of the attribute
unfoldable pub string_ptr_or_nil : String → Option String
string_ptr_or_nil s = if s == "" then none else some s

-- stringOnNotNil
unfoldable pub string_on_not_nil : Option String → String
string_on_not_nil none = ""
string_on_not_nil (some s) = s

-- types.OpenApiReference and types.Reference
pub record Reference : Type 0 where
  pub id : String
  pub name : String
  pub href : String

-- extractIdsFromOpenApiReferences and extractIdsFromReferences
unfoldable pub extract_ids_from_references : List Reference → List String
extract_ids_from_references [] = []
extract_ids_from_references (r ∷ refs) = r.id ∷ extract_ids_from_references refs

-- extractNamesFromOpenApiReferences
unfoldable pub extract_names_from_references : List Reference → List String
extract_names_from_references [] = []
extract_names_from_references (r ∷ refs) = r.name ∷ extract_names_from_references refs

-- convertSliceOfStringsToOpenApiReferenceIds
unfoldable pub convert_slice_of_strings_to_references : List String → List Reference
convert_slice_of_strings_to_references [] = []
convert_slice_of_strings_to_references (v ∷ ids) =
    record { id = v; name = ""; href = "" } ∷ convert_slice_of_strings_to_references ids

-- contains: the loop stops at the first match
unfoldable pub contains : List String → String → Bool
contains [] searched = false
contains (s ∷ rest) searched = elim (searched == s) [ true ↦ true | false ↦ contains rest searched ]

-- referenceToId
unfoldable pub reference_to_id : (String → List String) → Reference → String
unfolding extract_uuid
reference_to_id find_uuids r = if r.id == "" then extract_uuid find_uuids r.href else r.id

-- ObjectMap
unfoldable pub object_map {ℓ κ} :
    {Input : Type ℓ} {Output : Type κ} → List Input → (Input → Output) → List Output
object_map [] f = []
object_map (x ∷ input) f = f x ∷ object_map input f
