-- ===== src/Vcd/Metadata/RoundTrip.antt =====
-- vcd/metadata.go: entries of the state that are sent to VCD and read back.
use terraform_provider_viett.Prelude.{
  String, ◌≡◌, ◌≢◌, refl, ap, ◌∙◌, Bool, true, false, none, some, List, [], ◌∷◌, ◌++◌, arith, ◌==◌,
  eq_iff, All, ltb, if◌then◌else◌, map,
}
use mathlib.Core.List.{append-nil, append_assoc}
use terraform_provider_viett.Go.{ok}
use terraform_provider_viett.Go.Dict
use terraform_provider_viett.Go.Dict.{Dict}
use terraform_provider_viett.Vcd.Metadata.{
  MetadataEntry, MetadataValue, VcdEntry, empty_sub_attributes, is_blank, metadata_value,
  add_values, convert_from_state,
}
use terraform_provider_viett.Vcd.IgnoredMetadata.State.{state_entry, state_entries}

-- what VCD answers for a value that was merged
abbrev pub stored_entry : String × MetadataValue → VcdEntry
stored_entry (key, v) = record {
  key = key;
  typed_value = some (v.xsi_type, v.value);
  domain = some (v.visibility, v.domain);
}

-- all four texts are set
abbrev pub IsFilled : MetadataEntry → Type 0
IsFilled e = (e.key ≢ "") × (e.value ≢ "") × (e.kind ≢ "") × (e.user_access ≢ "")

-- no two entries have one key
abbrev pub AreDistinct : List MetadataEntry → Type 0
AreDistinct [] = Unit
AreDistinct (e ∷ es) = All (λ (f : MetadataEntry). e.key ≢ f.key) es × AreDistinct es

abbrev keyed_value : MetadataEntry → String × MetadataValue
keyed_value e = (e.key, metadata_value e)

IsFilled-complete :
    (e : MetadataEntry)
    → IsFilled e
    → (is_blank e ≡ false) × (ltb 0 (empty_sub_attributes e) ≡ false)
unfolding is_blank empty_sub_attributes
IsFilled-complete e h =
    ground (arith, eq_iff e.key "", eq_iff e.value "", eq_iff e.kind "", eq_iff e.user_access "")

abbrev AreNew : Dict MetadataValue → List MetadataEntry → Type 0
AreNew values = All (λ (e : MetadataEntry). Dict.get values e.key ≡ none)

put-AreNew :
    (values : Dict MetadataValue) (key : String) (v : MetadataValue) (es : List MetadataEntry)
    → All (λ (f : MetadataEntry). key ≢ f.key) es
    → AreNew values es
    → AreNew (Dict.put values key v) es
put-AreNew values key v [] other new = tt
put-AreNew values key v (f ∷ es) other new = (
  ground (arith, Dict.get-put values key v f.key, eq_iff key f.key),
  put-AreNew values key v es other.1 new.1,
)

add_values_filled :
    (values : Dict MetadataValue) (es : List MetadataEntry)
    → All IsFilled es
    → AreDistinct es
    → AreNew values es
    → add_values values es ≡ ok (values ++ map keyed_value es)
unfolding add_values
add_values_filled values [] filled distinct new = rw append-nil
add_values_filled values (e ∷ es) filled distinct new =
    let (complete, no_gap) = IsFilled-complete e filled.0 in
    rw (complete, add_values)
      (rw (no_gap, add_values)
        (add_values_filled (Dict.put values e.key (metadata_value e)) es filled.1 distinct.1
            (put-AreNew values e.key (metadata_value e) es distinct.0 new.1)
          ∙ rw (Dict.put-absent values e.key (metadata_value e) new.0)
              (ap ok (append_assoc values (keyed_value e ∷ []) (map keyed_value es)))))

system_domain : (b : Bool) → ((if b then "SYSTEM" else "GENERAL") == "SYSTEM") ≡ b
system_domain true = refl
system_domain false = refl

state_entry-stored_entry :
    (read_write : String) (e : MetadataEntry)
    → state_entry read_write (stored_entry (keyed_value e)) ≡ e
unfolding state_entry metadata_value
state_entry-stored_entry read_write e =
    ap (λ b. record e { is_system = b }) (system_domain e.is_system)

state_entries-stored_entry :
    (read_write : String) (es : List MetadataEntry)
    → state_entries read_write (map stored_entry (map keyed_value es)) ≡ es
unfolding state_entries
state_entries-stored_entry read_write [] = refl
state_entries-stored_entry read_write (e ∷ es) =
    rw (state_entry-stored_entry read_write e, state_entries-stored_entry read_write es)

-- Entries with all their texts set and with different keys are converted without an error, and if VCD
-- answers with what the conversion gave, reading it back writes exactly these entries to the state.
pub state_entries-convert_from_state :
    (read_write : String) (es : List MetadataEntry)
    → All IsFilled es
    → AreDistinct es
    → (values : Dict MetadataValue) × (convert_from_state es ≡ ok values)
      × (state_entries read_write (map stored_entry values) ≡ es)
unfolding convert_from_state Dict.get
state_entries-convert_from_state read_write es filled distinct = (
  map keyed_value es,
  add_values_filled [] es filled distinct (nothing_yet es),
  state_entries-stored_entry read_write es,
)
  where
    nothing_yet : (fs : List MetadataEntry) → AreNew [] fs
    nothing_yet [] = tt
    nothing_yet (f ∷ fs) = (refl, nothing_yet fs)
