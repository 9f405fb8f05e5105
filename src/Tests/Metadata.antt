-- ===== src/Tests/Metadata.antt =====
-- vcd/metadata.go with an object that keeps its metadata by key and domain, with a client whose whole state
-- is its filter, and with texts as regular expressions.
use terraform_provider_viett.Prelude.{
  String, ◌≡◌, refl, Bool, true, false, ◌&&◌, Option, none, some, List, [], ◌∷◌, arith, ◌==◌,
  eq_iff, if◌then◌else◌, map,
}
use terraform_provider_viett.Go.{Failure, ok}
use terraform_provider_viett.Go.Dict
use terraform_provider_viett.Go.Dict.{Dict}
use terraform_provider_viett.Vcd.Metadata.{
  MetadataEntry, MetadataValue, MetadataCompatible, convert_from_state, create_or_update_entries,
}
use terraform_provider_viett.Vcd.Metadata.Update.{MetadataLaws, same_flag, merged_value}
use terraform_provider_viett.Vcd.Metadata.Latest.{
  last_entry, entry_after, create_or_update_entries_lem,
}
use terraform_provider_viett.Vcd.Metadata.RoundTrip.{stored_entry, state_entries-convert_from_state}
use terraform_provider_viett.Vcd.IgnoredMetadata.{
  IgnoreBlock, Ignored, IgnoredMetadata, Patterns, text_or, get_ignored_metadata, configure_ignored,
  check_conflicts,
}
use terraform_provider_viett.Vcd.IgnoredMetadata.State.{
  MetadataState, MetadataClient, state_entries, update_metadata_in_state,
}
use terraform_provider_viett.Vcd.IgnoredMetadata.Configured.{AreIgnoredBy}
use terraform_provider_viett.Vcd.IgnoredMetadata.Conflicts.{Reports, check_conflicts-configured}
use terraform_provider_viett.Vcd.IgnoredMetadata.Filter.{
  FilterLaws, ignored-update_metadata_in_state,
}

abbrev Stored : Type 0
Stored = String → Bool → Option MetadataValue

abbrev object : MetadataCompatible Stored
object = record {
  get_metadata = λ w. (ok [], w);
  merge_values = λ values w. (none, λ j t. merged_value (Dict.get values j) t (w j t));
  delete_with_domain =
      λ key s w. (none, λ j t. if (key == j) && same_flag s t then none else w j t);
  merge_metadata = λ values w. (none, w);
  delete_entry = λ key w. (none, w);
}

abbrev itself : Stored → String → Bool → Option MetadataValue
itself w = w

object-laws : MetadataLaws object itself
object-laws = record {
  deleted = λ key s w. refl;
  delete-entries = λ key s w j t. refl;
  merged = λ values w. refl;
  merge-entries = λ values w j t. refl;
}

abbrev owner : MetadataEntry
owner = record {
  key = "owner";
  value = "ops";
  kind = "MetadataStringValue";
  user_access = "READWRITE";
  is_system = false;
}

abbrev tier : MetadataEntry
tier = record {
  key = "tier";
  value = "2";
  kind = "MetadataNumberValue";
  user_access = "READONLY";
  is_system = true;
}

abbrev tier_value : MetadataValue
tier_value = record {
  visibility = "READONLY";
  domain = "SYSTEM";
  xsi_type = "MetadataNumberValue";
  value = "2";
}

abbrev unlabelled : Stored
unlabelled j t = none

abbrev no_text : Failure → String
no_text f = ""

-- two old entries of one key, of which the last one counts
abbrev old_tier : MetadataEntry
old_tier = record tier { is_system = false }

create_or_update_entries_lem_example :
    ((create_or_update_entries object no_text true
        (old_tier ∷ owner ∷ tier ∷ [])
        (tier ∷ [])
        unlabelled).0
      ≡ none)
    × ((j : String) (t : Bool)
        → (create_or_update_entries object no_text true
              (old_tier ∷ owner ∷ tier ∷ [])
              (tier ∷ [])
              unlabelled).1
            j t
          ≡ entry_after
              (last_entry (old_tier ∷ owner ∷ tier ∷ []) j)
              (last_entry (tier ∷ []) j)
              t
              none)
unfolding convert_from_state Dict.put
create_or_update_entries_lem_example =
    create_or_update_entries_lem object no_text itself object-laws (old_tier ∷ owner ∷ tier ∷ [])
      (tier ∷ []) (("tier", tier_value) ∷ []) unlabelled refl

state_entries-convert_from_state_example :
    (values : Dict MetadataValue) × (convert_from_state (owner ∷ tier ∷ []) ≡ ok values)
    × (state_entries "READWRITE" (map stored_entry values) ≡ owner ∷ tier ∷ [])
state_entries-convert_from_state_example =
    state_entries-convert_from_state "READWRITE" (owner ∷ tier ∷ [])
      (ground (
        arith,
        eq_iff "owner" "",
        eq_iff "ops" "",
        eq_iff "MetadataStringValue" "",
        eq_iff "READWRITE" "",
        eq_iff "tier" "",
        eq_iff "2" "",
        eq_iff "MetadataNumberValue" "",
        eq_iff "READONLY" "",
      ))
      ((ground (arith, eq_iff "owner" "tier"), tt), (tt, tt))

abbrev patterns : Patterns String
patterns = record {
  compile = λ s. ok s;
  matches = λ r s. r == s;
  trim_space = λ s. s;
  show = λ i. text_or i.key_regex;
}

abbrev block : IgnoreBlock
block = record {
  resource_type = "vcd_org";
  resource_name = "";
  key_regex = "owner";
  value_regex = "";
  conflict_action = "error";
}

abbrev configured : IgnoredMetadata String
configured = record {
  ignored = record {
    object_type = some "org";
    object_name = none;
    key_regex = some "owner";
    value_regex = none;
  };
  conflict_action = "error";
}

check_conflicts-configured_example :
    let (is, actions) = configure_ignored patterns [] [] (configured ∷ []) in
    AreIgnoredBy patterns (block ∷ []) is
    × Reports patterns "vcd_org" "acme" is
        (tier ∷ owner ∷ [])
        (check_conflicts patterns "vcd_org" "acme" actions is (tier ∷ owner ∷ []))
unfolding get_ignored_metadata Dict.get
check_conflicts-configured_example =
    check_conflicts-configured patterns "vcd_org" "acme" (block ∷ []) (configured ∷ [])
      (tier ∷ owner ∷ []) refl (refl, tt)

abbrev only_filter : MetadataClient (List (Ignored String)) String
only_filter = record { ignored = λ w. w; set_ignored = λ is w. is; get_metadata = λ w. (ok [], w) }

only_filter-laws : FilterLaws only_filter
only_filter-laws = record { ignored-set = λ is w. refl; ignored-get = λ w. refl }

abbrev labelled : MetadataState
labelled = record { metadata = []; metadata_entry = owner ∷ [] }

ignored-update_metadata_in_state_example :
    (update_metadata_in_state only_filter patterns "READWRITE" [] "vcd_org" "acme" labelled
      (configured.ignored ∷ [])).2
    ≡ configured.ignored ∷ []
ignored-update_metadata_in_state_example =
    ignored-update_metadata_in_state only_filter patterns only_filter-laws "READWRITE" [] "vcd_org"
      "acme" labelled (configured.ignored ∷ [])
