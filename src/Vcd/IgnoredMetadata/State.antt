-- ===== src/Vcd/IgnoredMetadata/State.antt =====
-- vcd/metadata.go: what is written of metadata to the Terraform state, and the client whose filter is taken
-- away for the deprecated attribute.
use terraform_provider_viett.Prelude.{String, false, Option, none, some, List, [], ◌∷◌, ◌==◌}
use terraform_provider_viett.Go.{Failure, wrapped, Result, ok, err, Act}
use terraform_provider_viett.Go.Dict.{Dict}
use terraform_provider_viett.Vcd.Metadata.{MetadataEntry, VcdEntry}
use terraform_provider_viett.Go.Dict
use terraform_provider_viett.Vcd.IgnoredMetadata.{Ignored, Patterns, Diagnostic, check_conflicts}

-- the metadata attributes in the Terraform state
pub record MetadataState : Type 0 where
  pub metadata : Dict String
  pub metadata_entry : List MetadataEntry

-- a map for one entry; it has no keys "type" and "value" if the typed value is nil, which the schema
-- reads as ""
unfoldable pub state_entry : String → VcdEntry → MetadataEntry
state_entry read_write e = record {
  key = e.key;
  kind = elim e.typed_value [ none ↦ "" | some (xsi_type, value) ↦ xsi_type ];
  value = elim e.typed_value [ none ↦ "" | some (xsi_type, value) ↦ value ];
  user_access = elim e.domain [ none ↦ read_write | some (visibility, domain) ↦ visibility ];
  is_system = elim e.domain [ none ↦ false | some (visibility, domain) ↦ domain == "SYSTEM" ];
}

unfoldable pub state_entries : String → List VcdEntry → List MetadataEntry
unfolding state_entry
state_entries read_write [] = []
state_entries read_write (e ∷ es) = state_entry read_write e ∷ state_entries read_write es

-- setMetadataEntryInState; `read_write` is types.MetadataReadWriteVisibility
unfoldable pub set_metadata_entry_in_state : String → List VcdEntry → MetadataState → MetadataState
unfolding state_entries
set_metadata_entry_in_state read_write [] d = d
set_metadata_entry_in_state read_write (e ∷ es) d = record d {
  metadata_entry = state_entries read_write (e ∷ es);
}

-- the loop of getMetadataStruct; `none` is the panic at a typed value that is nil
unfoldable pub add_struct : Dict String → List VcdEntry → Option (Dict String)
add_struct m [] = some m
add_struct m (e ∷ es) = elim e.typed_value [
  | none ↦ none
  | some (xsi_type, value) ↦ add_struct (Dict.put m e.key value) es
]

-- getMetadataStruct of vcd/resource_vcd_org_vdc.go, the deprecated attribute
unfoldable pub metadata_struct : List VcdEntry → Option (Dict String)
unfolding add_struct
metadata_struct es = add_struct [] es

-- The client's filter of ignored metadata, and GetMetadata of an object, which reads through that filter.
pub record MetadataClient (W Regex : Type 0) : Type 0 where
  pub ignored : W → List (Ignored Regex)
  pub set_ignored : List (Ignored Regex) → W → W
  pub get_metadata : Act W (List VcdEntry)

-- how updateMetadataInState ends: with no diagnostics, those of a conflict, an error or a panic
pub data Updated (Regex : Type 0) : Type 0 where
  updated : Updated Regex
  conflicts : Diagnostic Regex → Updated Regex
  failed : Failure → Updated Regex
  panicked : Updated Regex

module _ {W Regex : Type 0} (client : MetadataClient W Regex) (patterns : Patterns Regex) where
  -- the closure getAllMetadata, under the lock "metadata"
  unfoldable pub get_all_metadata : Act W (List VcdEntry)
  get_all_metadata w =
      let ignored = client.ignored w in
      let (found, w') = client.get_metadata (client.set_ignored [] w) in
      let w'' = client.set_ignored ignored w' in
      elim found [
        | err e ↦ (err (wrapped "error getting metadata to save in state" e), w'')
        | ok es ↦ (ok es, w'')
      ]

  unfoldable pub after_filtered :
      String → MetadataState → Result (List VcdEntry) × W → Updated Regex × MetadataState × W
  unfolding set_metadata_entry_in_state
  after_filtered read_write d (err e, w) =
      (failed (wrapped "error getting metadata to save in state" e), d, w)
  after_filtered read_write d (ok es, w) = (updated, set_metadata_entry_in_state read_write es d, w)

  unfoldable pub after_check :
      String → MetadataState → Option (Diagnostic Regex) → W → Updated Regex × MetadataState × W
  unfolding after_filtered
  after_check read_write d (some diagnostic) w = (conflicts diagnostic, d, w)
  after_check read_write d none w = after_filtered read_write d (client.get_metadata w)

  unfoldable pub after_struct :
      String
      → Dict String
      → String
      → String
      → MetadataState
      → Option (Dict String)
      → W
      → Updated Regex × MetadataState × W
  unfolding after_check check_conflicts
  after_struct read_write actions resource_type name d none w = (panicked, d, w)
  after_struct read_write actions resource_type name d (some m) w =
      after_check read_write (record d { metadata = m })
        (check_conflicts patterns resource_type name actions (client.ignored w) d.metadata_entry) w

  unfoldable pub after_all :
      String
      → Dict String
      → String
      → String
      → MetadataState
      → Result (List VcdEntry) × W
      → Updated Regex × MetadataState × W
  unfolding after_struct metadata_struct
  after_all read_write actions resource_type name d (err e, w) = (failed e, d, w)
  after_all read_write actions resource_type name d (ok es, w) =
      after_struct read_write actions resource_type name d (metadata_struct es) w

  -- updateMetadataInState for a resource with a type and a name
  unfoldable pub update_metadata_in_state :
      String → Dict String → String → String → MetadataState → W → Updated Regex × MetadataState × W
  unfolding after_all get_all_metadata
  update_metadata_in_state read_write actions resource_type name d w =
      after_all read_write actions resource_type name d (get_all_metadata w)
