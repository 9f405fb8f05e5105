-- ===== src/Vcd/Metadata.antt =====
-- vcd/metadata.go and createOrUpdateMetadata of vcd/structure.go: the metadata entries of an object in VCD
-- and in the Terraform state. A Go map is a list of pairs; iteration is in the order of the list, which Go
-- leaves open. What Terraform reports as a change comes as an argument.
pub mod Update
pub mod Latest
pub mod RoundTrip
use terraform_provider_viett.Prelude.{
  ℕ, ◌+◌, String, Bool, true, false, not, ◌&&◌, Option, none, some, List, [], ◌∷◌, ◌==◌, ltb,
  num_eq, if◌then◌else◌, length,
}
use terraform_provider_viett.Go.{Failure, plain, wrapped, Result, ok, err, Act, Proc}
use terraform_provider_viett.Go.Dict
use terraform_provider_viett.Go.Dict.{Dict}
use terraform_provider_viett.Vcd.Structure.{contains_text}

-- one `metadata_entry` of the state: four texts and a flag, which is false where it is not set
pub record MetadataEntry : Type 0 where
  pub key : String
  pub value : String
  pub kind : String
  pub user_access : String
  pub is_system : Bool

abbrev one_if_empty : String → ℕ
one_if_empty s = if s == "" then 1 else 0

-- getMetadataEmptySubAttributes
unfoldable pub empty_sub_attributes : MetadataEntry → ℕ
empty_sub_attributes e =
    one_if_empty e.key + one_if_empty e.value + one_if_empty e.kind + one_if_empty e.user_access

-- len(metadataEntry)-1 == metadataEmptyAttributes: an entry `metadata_entry {}`
unfoldable pub is_blank : MetadataEntry → Bool
unfolding empty_sub_attributes
is_blank e = num_eq 4 (empty_sub_attributes e)

-- the loop of getMetadataKeyWithDomainMap
unfoldable pub add_key_domains : Dict Bool → List MetadataEntry → Dict Bool
unfolding is_blank
add_key_domains keys [] = keys
add_key_domains keys (e ∷ es) =
    add_key_domains (if is_blank e then keys else Dict.put keys e.key e.is_system) es

-- getMetadataKeyWithDomainMap
unfoldable pub key_domains : List MetadataEntry → Dict Bool
unfolding add_key_domains
key_domains es = add_key_domains [] es

-- types.MetadataValue with its domain and its typed value
pub record MetadataValue : Type 0 where
  pub visibility : String
  pub domain : String
  pub xsi_type : String
  pub value : String

unfoldable pub metadata_value : MetadataEntry → MetadataValue
metadata_value e = record {
  visibility = e.user_access;
  domain = if e.is_system then "SYSTEM" else "GENERAL";
  xsi_type = e.kind;
  value = e.value;
}

-- the loop of convertFromStateToMetadataValues
unfoldable pub add_values : Dict MetadataValue → List MetadataEntry → Result (Dict MetadataValue)
unfolding is_blank empty_sub_attributes metadata_value
add_values values [] = ok values
add_values values (e ∷ es) = elim (is_blank e) [
  | true ↦ add_values values es
  | false ↦ elim (ltb 0 (empty_sub_attributes e)) [
    | true ↦ err (plain "all fields in a metadata_entry are required, but got some empty")
    | false ↦ add_values (Dict.put values e.key (metadata_value e)) es
  ]
]

-- convertFromStateToMetadataValues
unfoldable pub convert_from_state : List MetadataEntry → Result (Dict MetadataValue)
unfolding add_values
convert_from_state es = add_values [] es

-- a types.MetadataEntry from VCD: the typed value (type and value) and the domain (domain and visibility)
-- may be nil
pub record VcdEntry : Type 0 where
  pub key : String
  pub typed_value : Option (String × String)
  pub domain : Option (String × String)

-- the calls of the interface metadataCompatible that the provider makes
pub record MetadataCompatible (W : Type 0) : Type 0 where
  pub get_metadata : Act W (List VcdEntry)
  pub merge_values : Dict MetadataValue → Proc W
  pub delete_with_domain : String → Bool → Proc W
  pub merge_metadata : Dict String → Proc W
  pub delete_entry : String → Proc W

module _ {W : Type 0} (object : MetadataCompatible W) (message : Failure → String) where
  -- the loop over the old keys
  unfoldable pub delete_missing : Dict Bool → Dict Bool → Proc W
  delete_missing new [] w = (none, w)
  delete_missing new ((key, is_system) ∷ old) w = elim (Dict.get new key) [
    | some _ ↦ delete_missing new old w
    | none ↦
        let (e, w') = object.delete_with_domain key is_system w in
        elim e [
          | some f ↦ (some (wrapped "error deleting metadata entry" f), w')
          | none ↦ delete_missing new old w'
        ]
  ]

  -- the error of the merge; one that only says that nothing is left to merge is dropped
  unfoldable pub merge_error : Option Failure → Option Failure
  unfolding contains_text
  merge_error none = none
  merge_error (some f) =
      if contains_text (message f) "after filtering metadata, there is no metadata to merge"
      then none
      else some (wrapped "error adding metadata entries" f)

  unfoldable pub merge_converted : Result (Dict MetadataValue) → Proc W
  unfolding merge_error
  merge_converted (err f) w = (some f, w)
  merge_converted (ok []) w = (none, w)
  merge_converted (ok (v ∷ values)) w =
      let (e, w') = object.merge_values (v ∷ values) w in (merge_error e, w')

  unfoldable pub merge_new : List MetadataEntry → Proc W
  unfolding merge_converted convert_from_state
  merge_new [] w = (none, w)
  merge_new (e ∷ es) w = merge_converted (convert_from_state (e ∷ es)) w

  unfoldable pub after_deletion : List MetadataEntry → Option Failure × W → Option Failure × W
  unfolding merge_new
  after_deletion new (some f, w) = (some f, w)
  after_deletion new (none, w) = merge_new new w

  -- createOrUpdateMetadataEntryInVcd; `changed` is d.HasChange("metadata_entry")
  unfoldable pub create_or_update_entries : Bool → List MetadataEntry → List MetadataEntry → Proc W
  unfolding after_deletion delete_missing key_domains
  create_or_update_entries false old new w = (none, w)
  create_or_update_entries true old new w =
      after_deletion new (delete_missing (key_domains new) (key_domains old) w)

  -- the keys of the deprecated attribute that are gone
  unfoldable pub to_be_removed : Dict String → Dict String → List String
  to_be_removed new [] = []
  to_be_removed new ((k, v) ∷ old) =
      let rest = to_be_removed new old in elim (Dict.get new k) [ none ↦ k ∷ rest | some _ ↦ rest ]

  unfoldable pub delete_all : List String → Proc W
  delete_all [] w = (none, w)
  delete_all (k ∷ keys) w =
      let (e, w') = object.delete_entry k w in
      elim e [
        | some f ↦ (some (wrapped "error deleting metadata" f), w')
        | none ↦ delete_all keys w'
      ]

  unfoldable pub merge_deprecated : Dict String → Option Failure × W → Option Failure × W
  merge_deprecated new (some f, w) = (some f, w)
  merge_deprecated [] (none, w) = (none, w)
  merge_deprecated (kv ∷ new) (none, w) =
      let (e, w') = object.merge_metadata (kv ∷ new) w in
      elim e [ some f ↦ (some (wrapped "error adding metadata" f), w') | none ↦ (none, w') ]

  unfoldable pub update_deprecated :
      Bool → Dict String → Dict String → Option Failure × W → Option Failure × W
  unfolding merge_deprecated delete_all to_be_removed
  update_deprecated changed old new (some f, w) = (some f, w)
  update_deprecated false old new (none, w) = (none, w)
  update_deprecated true old new (none, w) =
      merge_deprecated new (delete_all (to_be_removed new old) w)

  -- createOrUpdateMetadata of structure.go; the two flags are the changes of the deprecated attribute and
  -- of "metadata_entry"
  unfoldable pub create_or_update_metadata :
      Bool → Dict String → Dict String → Bool → List MetadataEntry → List MetadataEntry → Proc W
  unfolding update_deprecated create_or_update_entries
  create_or_update_metadata changed old new entries_changed old_entries new_entries w =
      update_deprecated (changed && not entries_changed) old new
        (create_or_update_entries entries_changed old_entries new_entries w)
