-- ===== src/Vcd/IgnoredMetadata/Filter.antt =====
-- updateMetadataInState of vcd/metadata.go takes the client's filter of ignored metadata away for one call.
use terraform_provider_viett.Prelude.{String, ◌≡◌, refl, Option, none, some, List, [], ◌∙◌, arith}
use terraform_provider_viett.Go.{Result, ok, err}
use terraform_provider_viett.Go.Dict.{Dict}
use terraform_provider_viett.Vcd.Metadata.{VcdEntry}
use terraform_provider_viett.Vcd.IgnoredMetadata.{Ignored, Patterns, Diagnostic, check_conflicts}
use terraform_provider_viett.Vcd.IgnoredMetadata.State.{
  MetadataState, MetadataClient, metadata_struct, get_all_metadata, after_filtered, after_check,
  after_struct, after_all, update_metadata_in_state,
}

-- The filter is a variable of the client: it holds what was last set, and reading metadata leaves it.
pub record FilterLaws {W Regex : Type 0} (client : MetadataClient W Regex) : Type 0 where
  pub ignored-set :
      (is : List (Ignored Regex)) (w : W) → client.ignored (client.set_ignored is w) ≡ is
  pub ignored-get : (w : W) → client.ignored (client.get_metadata w).1 ≡ client.ignored w

module _ {W Regex : Type 0} (client : MetadataClient W Regex) (patterns : Patterns Regex)
    (laws : FilterLaws client) (read_write : String) (actions : Dict String)
    (resource_type name : String) where
  all_metadata_restores :
      (w : W) → client.ignored (get_all_metadata client patterns w).1 ≡ client.ignored w
  unfolding get_all_metadata
  all_metadata_restores w =
      ground (
        arith,
        laws.ignored-set (client.ignored w) (client.get_metadata (client.set_ignored [] w)).1,
      )

  filtered_restores :
      (d : MetadataState) (r : Result (List VcdEntry) × W)
      → client.ignored (after_filtered client patterns read_write d r).2 ≡ client.ignored r.1
  unfolding after_filtered
  filtered_restores d (err e, w) = refl
  filtered_restores d (ok es, w) = refl

  check_restores :
      (d : MetadataState) (o : Option (Diagnostic Regex)) (w : W)
      → client.ignored (after_check client patterns read_write d o w).2 ≡ client.ignored w
  unfolding after_check
  check_restores d (some diagnostic) w = refl
  check_restores d none w = filtered_restores d (client.get_metadata w) ∙ laws.ignored-get w

  struct_restores :
      (d : MetadataState) (o : Option (Dict String)) (w : W)
      → client.ignored (after_struct client patterns read_write actions resource_type name d o w).2
        ≡ client.ignored w
  unfolding after_struct
  struct_restores d none w = refl
  struct_restores d (some m) w =
      check_restores (record d { metadata = m })
        (check_conflicts patterns resource_type name actions (client.ignored w) d.metadata_entry) w

  all_restores :
      (d : MetadataState) (r : Result (List VcdEntry) × W)
      → client.ignored (after_all client patterns read_write actions resource_type name d r).2
        ≡ client.ignored r.1
  unfolding after_all
  all_restores d (err e, w) = refl
  all_restores d (ok es, w) = struct_restores d (metadata_struct es) w

  -- However updateMetadataInState ends, with an error, a conflict or a panic too, the client ignores the same
  -- metadata afterwards as before, if its filter holds what was last set and reading metadata leaves it.
  pub ignored-update_metadata_in_state :
      (d : MetadataState) (w : W)
      → client.ignored
          (update_metadata_in_state client patterns read_write actions resource_type name d w).2
        ≡ client.ignored w
  unfolding update_metadata_in_state
  ignored-update_metadata_in_state d w =
      all_restores d (get_all_metadata client patterns w) ∙ all_metadata_restores w
