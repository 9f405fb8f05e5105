-- ===== src/Vcd/IgnoredMetadata.antt =====
-- vcd/metadata.go: the metadata that a provider is configured to ignore, and its conflicts with the entries of
-- a resource. Regular expressions, strings.TrimSpace and the SDK's text of an ignored block are parameters.
pub mod State
pub mod Configured
pub mod Conflicts
pub mod Filter
use terraform_provider_viett.Prelude.{
  String, Bool, true, false, ◌&&◌, ◌||◌, Option, none, some, List, [], ◌∷◌, ◌++◌, ◌==◌,
  if◌then◌else◌,
}
use terraform_provider_viett.Go.{Failure, plain, wrapped, Result, ok, err, Act}
use terraform_provider_viett.Go.Dict
use terraform_provider_viett.Go.Dict.{Dict}
use terraform_provider_viett.Vcd.Metadata.{MetadataEntry, VcdEntry}

-- resourceMetadataApiRelation
abbrev pub api_relation : Dict String
api_relation =
    ("vcd_catalog", "catalog")
    ∷ ("vcd_catalog_item", "catalogItem")
    ∷ ("vcd_catalog_media", "media")
    ∷ ("vcd_catalog_vapp_template", "vAppTemplate")
    ∷ ("vcd_independent_disk", "disk")
    ∷ ("vcd_network_direct", "network")
    ∷ ("vcd_network_isolated", "network")
    ∷ ("vcd_network_isolated_v2", "network")
    ∷ ("vcd_network_routed", "network")
    ∷ ("vcd_network_routed_v2", "network")
    ∷ ("vcd_org", "org")
    ∷ ("vcd_org_vdc", "vdc")
    ∷ ("vcd_provider_vdc", "providervdc")
    ∷ ("vcd_storage_profile", "vdcStorageProfile")
    ∷ ("vcd_vapp", "vApp")
    ∷ ("vcd_vapp_vm", "vApp")
    ∷ ("vcd_vm", "vApp")
    ∷ []

abbrev pub text_or : Option String → String
text_or none = ""
text_or (some s) = s

-- a read of a map of texts; "" where the key is missing
abbrev pub text_at : Dict String → String → String
text_at m key = text_or (Dict.get m key)

-- validateMetadataIgnoreResourceType at a string: whether the type is accepted
unfoldable pub is_resource_type : String → Bool
unfolding Dict.get
is_resource_type v = elim (Dict.get api_relation v) [ none ↦ false | some _ ↦ true ]

-- a block `ignore_metadata_changes` of the configuration
pub record IgnoreBlock : Type 0 where
  pub resource_type : String
  pub resource_name : String
  pub key_regex : String
  pub value_regex : String
  pub conflict_action : String

-- govcd.IgnoredMetadata
pub record Ignored (Regex : Type 0) : Type 0 where
  pub object_type : Option String
  pub object_name : Option String
  pub key_regex : Option Regex
  pub value_regex : Option Regex

-- IgnoredMetadata
pub record IgnoredMetadata (Regex : Type 0) : Type 0 where
  pub ignored : Ignored Regex
  pub conflict_action : String

-- package regexp, strings.TrimSpace, and (IgnoredMetadata).String of the SDK
pub record Patterns (Regex : Type 0) : Type 0 where
  pub compile : String → Result Regex
  pub matches : Regex → String → Bool
  pub trim_space : String → String
  pub show : Ignored Regex → String

-- what checkIgnoredMetadataConflicts reports about a block and an entry, at a severity
pub data Diagnostic (Regex : Type 0) : Type 0 where
  conflict_error : Ignored Regex → MetadataEntry → Diagnostic Regex
  conflict_warning : Ignored Regex → MetadataEntry → Diagnostic Regex
  unknown_action : String → Diagnostic Regex

-- the switch on the action of a block that conflicts with an entry; `none` is nil
unfoldable pub report_action :
    {Regex : Type 0} → String → Ignored Regex → MetadataEntry → Option (Diagnostic Regex)
report_action action i e =
    if action == "error"
    then some (conflict_error i e)
    else (if action == "warn"
        then some (conflict_warning i e)
        else (if action == "none" then none else some (unknown_action action)))

module _ {Regex : Type 0} (patterns : Patterns Regex) where
  open patterns use {compile, matches, trim_space, show}

  -- a regular expression that is compiled if its text is not empty
  unfoldable pub optional_regex : String → Result (Option Regex)
  optional_regex s =
      if s == "" then ok none else (elim (compile s) [ err e ↦ err e | ok r ↦ ok (some r) ])

  unfoldable pub ignored_of :
      IgnoreBlock → Option Regex → Option Regex → Result (IgnoredMetadata Regex)
  ignored_of b none none = err (plain "either `key_regex` or `value_regex` is required")
  ignored_of b key value = ok (record {
    ignored = record {
      object_type =
          if b.resource_type == "" then none else some (text_at api_relation b.resource_type);
      object_name = if b.resource_name == "" then none else some b.resource_name;
      key_regex = key;
      value_regex = value;
    };
    conflict_action = b.conflict_action;
  })

  -- one round of getIgnoredMetadata
  unfoldable pub ignored_block : IgnoreBlock → Result (IgnoredMetadata Regex)
  unfolding optional_regex ignored_of
  ignored_block b = elim (optional_regex b.key_regex) [
    | err e ↦ err e
    | ok key ↦ elim (optional_regex b.value_regex) [
      | err e ↦ err e
      | ok value ↦ ignored_of b key value
    ]
  ]

  -- getIgnoredMetadata
  unfoldable pub get_ignored_metadata : List IgnoreBlock → Result (List (IgnoredMetadata Regex))
  unfolding ignored_block
  get_ignored_metadata [] = ok []
  get_ignored_metadata (b ∷ bs) = elim (ignored_block b) [
    | err e ↦ err e
    | ok m ↦ elim (get_ignored_metadata bs) [ err e ↦ err e | ok ms ↦ ok (m ∷ ms) ]
  ]

  -- the loop of providerConfigure: what the client ignores, and IgnoreMetadataChangesConflictActions
  unfoldable pub configure_ignored :
      List (Ignored Regex)
      → Dict String
      → List (IgnoredMetadata Regex)
      → List (Ignored Regex) × Dict String
  configure_ignored is actions [] = (is, actions)
  configure_ignored is actions (m ∷ ms) =
      configure_ignored (is ++ (m.ignored ∷ []))
        (Dict.put actions (show m.ignored) m.conflict_action) ms

  abbrev no_type : Option String → String → Bool
  no_type none wanted = true
  no_type (some t) wanted = (trim_space t == "") || (t == wanted)

  abbrev no_name : Option String → String → Bool
  no_name none name = true
  no_name (some n) name = (trim_space n == "") || (trim_space name == "") || (n == name)

  abbrev no_mismatch : Option Regex → String → Bool
  no_mismatch none s = true
  no_mismatch (some r) s = matches r s

  -- `resource_type` is the Terraform type of the resource and `name` its attribute
  module _ (resource_type name : String) where
    -- conflictDetected
    unfoldable pub has_conflict : Ignored Regex → MetadataEntry → Bool
    has_conflict i e =
        no_type i.object_type (text_at api_relation resource_type)
        && (no_name i.object_name name
            && (no_mismatch i.key_regex e.key && no_mismatch i.value_regex e.value))

    -- `actions` is IgnoreMetadataChangesConflictActions
    module _ (actions : Dict String) where
      -- what is returned at the first conflict: `none` is nil
      unfoldable pub report_conflict : Ignored Regex → MetadataEntry → Option (Diagnostic Regex)
      unfolding report_action
      report_conflict i e = report_action (text_at actions (show i)) i e

      -- the inner loop, with what follows it
      unfoldable pub check_entry :
          MetadataEntry
          → Option (Diagnostic Regex)
          → List (Ignored Regex)
          → Option (Diagnostic Regex)
      unfolding has_conflict report_conflict
      check_entry e later [] = later
      check_entry e later (i ∷ is) = elim (has_conflict i e) [
        | true ↦ report_conflict i e
        | false ↦ check_entry e later is
      ]

      -- checkIgnoredMetadataConflicts
      unfoldable pub check_conflicts :
          List (Ignored Regex) → List MetadataEntry → Option (Diagnostic Regex)
      unfolding check_entry
      check_conflicts is [] = none
      check_conflicts is (e ∷ es) = check_entry e (check_conflicts is es) is
