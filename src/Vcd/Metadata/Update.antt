-- ===== src/Vcd/Metadata/Update.antt =====
-- createOrUpdateMetadataEntryInVcd of vcd/metadata.go: what an update leaves in VCD.
use terraform_provider_viett.Prelude.{
  String, ◌≡◌, refl, ap, ◌∙◌, Bool, true, false, not, ◌&&◌, Option, none, some, List, [], ◌∷◌,
  arith, ◌==◌, eq_iff, if◌then◌else◌,
}
use terraform_provider_viett.Go.{Failure, ok}
use terraform_provider_viett.Go.Dict
use terraform_provider_viett.Go.Dict.{Dict}
use terraform_provider_viett.Vcd.Metadata.{
  MetadataEntry, MetadataValue, MetadataCompatible, is_blank, add_key_domains, key_domains,
  add_values, convert_from_state, delete_missing, merge_error, merge_converted, merge_new,
  after_deletion, create_or_update_entries,
}

-- equality of two flags
abbrev pub same_flag : Bool → Bool → Bool
same_flag true b = b
same_flag false b = not b

abbrev pub is_domain : Option Bool → Bool → Bool
is_domain none t = false
is_domain (some s) t = same_flag s t

abbrev pub is_missing {ℓ} : {A : Type ℓ} → Option A → Bool
is_missing none = true
is_missing (some a) = false

-- the value of a key in a domain after a merge: `t` is whether the domain is SYSTEM
abbrev pub merged_value : Option MetadataValue → Bool → Option MetadataValue → Option MetadataValue
merged_value none t before = before
merged_value (some v) t before = if same_flag (v.domain == "SYSTEM") t then some v else before

-- The object answers: a deletion removes the key from its domain, a merge writes each value to its key and
-- domain, and neither changes anything else.
pub record MetadataLaws {W : Type 0} (object : MetadataCompatible W)
    (entries : W → String → Bool → Option MetadataValue) : Type 0 where
  pub deleted : (key : String) (s : Bool) (w : W) → (object.delete_with_domain key s w).0 ≡ none
  pub delete-entries :
      (key : String) (s : Bool) (w : W) (j : String) (t : Bool)
      → entries (object.delete_with_domain key s w).1 j t
        ≡ (if (key == j) && same_flag s t then none else entries w j t)
  pub merged : (values : Dict MetadataValue) (w : W) → (object.merge_values values w).0 ≡ none
  pub merge-entries :
      (values : Dict MetadataValue) (w : W) (j : String) (t : Bool)
      → entries (object.merge_values values w).1 j t
        ≡ merged_value (Dict.get values j) t (entries w j t)

-- a key that stood in the old entries, in this domain, and in no domain of the new ones
abbrev pub is_gone : Dict Bool → Dict Bool → String → Bool → Bool
is_gone old new j t = is_domain (Dict.get old j) t && is_missing (Dict.get new j)

either-IsUnique :
    (b : Bool) (m n : Dict Bool)
    → Dict.IsUnique m
    → Dict.IsUnique n
    → Dict.IsUnique (if b then m else n)
either-IsUnique true m n h h' = h
either-IsUnique false m n h h' = h'

add_key_domains-IsUnique :
    (keys : Dict Bool) (es : List MetadataEntry)
    → Dict.IsUnique keys
    → Dict.IsUnique (add_key_domains keys es)
unfolding add_key_domains
add_key_domains-IsUnique keys [] u = u
add_key_domains-IsUnique keys (e ∷ es) u =
    add_key_domains-IsUnique (if is_blank e then keys else Dict.put keys e.key e.is_system) es (
      either-IsUnique (is_blank e) keys (Dict.put keys e.key e.is_system) u
        (Dict.put-IsUnique keys e.key e.is_system u))

module _ {W : Type 0} (object : MetadataCompatible W) (message : Failure → String)
    (entries : W → String → Bool → Option MetadataValue) (laws : MetadataLaws object entries) where
  -- the loop over the old keys succeeds, and leaves the entry at `j` and `t` unless it is gone
  abbrev Deletes : Dict Bool → Dict Bool → W → String → Bool → Type 0
  Deletes new old w j t =
      ((delete_missing object message new old w).0 ≡ none)
      × (entries (delete_missing object message new old w).1 j t
          ≡ (if is_gone old new j t then none else entries w j t))

  delete_missing-Deletes :
      (new old : Dict Bool) (w : W) (j : String) (t : Bool)
      → Dict.IsUnique old
      → Deletes new old w j t
  unfolding delete_missing Dict.get
  delete_missing-Deletes new [] w j t u = (refl, refl)
  delete_missing-Deletes new ((key, s) ∷ old) w j t u =
      by_new (Dict.get new key) refl (delete_missing-Deletes new old w j t u.1)
        (delete_missing-Deletes new old (object.delete_with_domain key s w).1 j t u.1)
    where
      by_new :
          (o : Option Bool)
          → Dict.get new key ≡ o
          → Deletes new old w j t
          → Deletes new old (object.delete_with_domain key s w).1 j t
          → Deletes new ((key, s) ∷ old) w j t
      by_new (some b) h kept after = ground (arith, eq_iff key j, h)
      by_new none h kept after =
          ground (arith, eq_iff key j, h, laws.deleted key s w, laws.delete-entries key s w j t)

  -- the merge succeeds and writes the values
  abbrev Merges : Dict MetadataValue → W → Option Failure × W → Type 0
  Merges values w r =
      (r.0 ≡ none)
      × ((j : String) (t : Bool)
          → entries r.1 j t ≡ merged_value (Dict.get values j) t (entries w j t))

  merge_converted-Merges :
      (values : Dict MetadataValue) (w : W)
      → Merges values w (merge_converted object message (ok values) w)
  unfolding merge_converted merge_error Dict.get
  merge_converted-Merges [] w = (refl, λ j t. refl)
  merge_converted-Merges (v ∷ values) w =
      (rw (laws.merged (v ∷ values) w, merge_error), λ j t. laws.merge-entries (v ∷ values) w j t)

  no_values : (values : Dict MetadataValue) → convert_from_state [] ≡ ok values → values ≡ []
  unfolding convert_from_state add_values
  no_values values h = cc

  merge_new-Merges :
      (new : List MetadataEntry) (values : Dict MetadataValue) (w : W)
      → convert_from_state new ≡ ok values
      → Merges values w (merge_new object message new w)
  unfolding merge_new Dict.get
  merge_new-Merges [] values w h =
      let same : values ≡ [] = no_values values h in (refl, λ j t. rw (same, Dict.get) refl)
  merge_new-Merges (e ∷ es) values w h = rw h (merge_converted-Merges values w)

  after_deletion-Merges :
      (new : List MetadataEntry) (values : Dict MetadataValue) (r : Option Failure × W)
      → convert_from_state new ≡ ok values
      → r.0 ≡ none
      → Merges values r.1 (after_deletion object message new r)
  unfolding after_deletion
  after_deletion-Merges new values (none, w) h done = merge_new-Merges new values w h
  after_deletion-Merges new values (some f, w) h done = absurd (ground arith)

  pub create_or_update_entries_maps :
      (old new : List MetadataEntry) (values : Dict MetadataValue) (w : W)
      → convert_from_state new ≡ ok values
      → ((create_or_update_entries object message true old new w).0 ≡ none)
        × ((j : String) (t : Bool)
            → entries (create_or_update_entries object message true old new w).1 j t
              ≡ merged_value
                  (Dict.get values j)
                  t
                  (if is_gone (key_domains old) (key_domains new) j t then none else entries w j t))
  unfolding create_or_update_entries key_domains
  create_or_update_entries_maps old new values w h =
      let deletes = λ (j : String) (t : Bool).
        delete_missing-Deletes (key_domains new) (key_domains old) w j t
          (add_key_domains-IsUnique [] old tt) in
      let merges =
        after_deletion-Merges new values
          (delete_missing object message (key_domains new) (key_domains old) w) h
          (deletes "" true).0 in
      (merges.0, λ j t. merges.1 j t ∙ ap (merged_value (Dict.get values j) t) (deletes j t).1)
