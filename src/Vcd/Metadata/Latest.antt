-- ===== src/Vcd/Metadata/Latest.antt =====
-- createOrUpdateMetadataEntryInVcd of vcd/metadata.go, by the entries of the configuration: what an update
-- leaves in VCD under each key and domain.
use terraform_provider_viett.Prelude.{
  String, ◌≡◌, refl, sym, ap, ◌∙◌, Bool, true, false, not, ◌&&◌, Option, none, some, List, [], ◌∷◌,
  arith, ◌==◌, if◌then◌else◌, ltb,
}
use terraform_provider_viett.Go.{Failure, ok}
use terraform_provider_viett.Go.Dict
use terraform_provider_viett.Go.Dict.{Dict}
use terraform_provider_viett.Vcd.Metadata.{
  MetadataEntry, MetadataValue, MetadataCompatible, empty_sub_attributes, is_blank, add_key_domains,
  key_domains, metadata_value, add_values, convert_from_state, create_or_update_entries,
}
use terraform_provider_viett.Vcd.Metadata.Update.{
  MetadataLaws, same_flag, merged_value, is_domain, is_missing, create_or_update_entries_maps,
}

-- an entry that has a key and is not `metadata_entry {}`
abbrev pub is_entry_of : String → MetadataEntry → Bool
is_entry_of j e =
    (e.key == j)
    && not ((e.key == "") && (e.value == "") && (e.kind == "") && (e.user_access == ""))

abbrev pub later_or : {A : Type 0} → Option A → Bool → A → Option A
later_or (some a) b e = some a
later_or none true e = some e
later_or none false e = none

-- the last entry of a key
abbrev pub last_entry : List MetadataEntry → String → Option MetadataEntry
last_entry [] j = none
last_entry (e ∷ es) j = later_or (last_entry es j) (is_entry_of j e) e

-- what stands at a key in a domain, SYSTEM or not, after an update, by the last old and the last new entry of
-- the key and by what stood there before
abbrev pub entry_after :
    Option MetadataEntry → Option MetadataEntry → Bool → Option MetadataValue → Option MetadataValue
entry_after old (some e) t before =
    if same_flag e.is_system t
    then some (record {
      visibility = e.user_access;
      domain = if e.is_system then "SYSTEM" else "GENERAL";
      xsi_type = e.kind;
      value = e.value;
    })
    else before
entry_after (some o) none t before = if same_flag o.is_system t then none else before
entry_after none none t before = before

is_entry_of-not_blank :
    (j : String) (e : MetadataEntry) → is_entry_of j e ≡ ((e.key == j) && not (is_blank e))
unfolding is_blank empty_sub_attributes
is_entry_of-not_blank j e = ground arith

blank-is_entry_of : (j : String) (e : MetadataEntry) → is_blank e ≡ true → is_entry_of j e ≡ false
blank-is_entry_of j e h = is_entry_of-not_blank j e ∙ ground (arith, h)

kept-is_entry_of :
    (j : String) (e : MetadataEntry) → is_blank e ≡ false → is_entry_of j e ≡ (e.key == j)
kept-is_entry_of j e h = is_entry_of-not_blank j e ∙ ground (arith, h)

-- a fold over the entries that puts what it makes of one under its key
from_last : {A : Type 0} → (MetadataEntry → A) → Option MetadataEntry → Option A → Option A
from_last f (some e) before = some (f e)
from_last f none before = before

from_last-skip :
    {A : Type 0} (f : MetadataEntry → A) (o : Option MetadataEntry) (e : MetadataEntry)
    (before : Option A)
    → from_last f (later_or o false e) before ≡ from_last f o before
unfolding from_last
from_last-skip f none e before = refl
from_last-skip f (some l) e before = refl

from_last-put :
    {A : Type 0} (f : MetadataEntry → A) (o : Option MetadataEntry) (t : Bool) (e : MetadataEntry)
    (before : Option A)
    → from_last f (later_or o t e) before ≡ from_last f o (if t then some (f e) else before)
unfolding from_last
from_last-put f none true e before = refl
from_last-put f none false e before = refl
from_last-put f (some l) t e before = refl

get-put-from_last :
    {A : Type 0} (f : MetadataEntry → A) (values : Dict A) (o : Option MetadataEntry)
    (e : MetadataEntry) (j : String)
    → is_blank e ≡ false
    → from_last f o (Dict.get (Dict.put values e.key (f e)) j)
      ≡ from_last f (later_or o (is_entry_of j e) e) (Dict.get values j)
get-put-from_last f values o e j b =
    ap (from_last f o) (Dict.get-put values e.key (f e) j)
    ∙ sym (rw (kept-is_entry_of j e b) (from_last-put f o (e.key == j) e (Dict.get values j)))

get-skip-from_last :
    {A : Type 0} (f : MetadataEntry → A) (before : Option A) (o : Option MetadataEntry)
    (e : MetadataEntry) (j : String)
    → is_blank e ≡ true
    → from_last f o before ≡ from_last f (later_or o (is_entry_of j e) e) before
get-skip-from_last f before o e j b =
    sym (rw (blank-is_entry_of j e b) (from_last-skip f o e before))

system_flag : MetadataEntry → Bool
system_flag e = e.is_system

get-add_key_domains :
    (keys : Dict Bool) (es : List MetadataEntry) (j : String)
    → Dict.get (add_key_domains keys es) j
      ≡ from_last system_flag (last_entry es j) (Dict.get keys j)
unfolding add_key_domains from_last system_flag
get-add_key_domains keys [] j = refl
get-add_key_domains keys (e ∷ es) j = by_blank (is_blank e) refl (λ ks. get-add_key_domains ks es j)
  where
    by_blank :
        (b : Bool)
        → is_blank e ≡ b
        → ((ks : Dict Bool)
            → Dict.get (add_key_domains ks es) j
              ≡ from_last system_flag (last_entry es j) (Dict.get ks j))
        → Dict.get (add_key_domains (if b then keys else Dict.put keys e.key e.is_system) es) j
          ≡ from_last system_flag (last_entry (e ∷ es) j) (Dict.get keys j)
    by_blank true b rest =
        rest keys ∙ get-skip-from_last system_flag (Dict.get keys j) (last_entry es j) e j b
    by_blank false b rest =
        rest (Dict.put keys e.key e.is_system)
        ∙ get-put-from_last system_flag keys (last_entry es j) e j b

get-add_values :
    (values : Dict MetadataValue) (es : List MetadataEntry) (all : Dict MetadataValue) (j : String)
    → add_values values es ≡ ok all
    → Dict.get all j ≡ from_last metadata_value (last_entry es j) (Dict.get values j)
unfolding add_values from_last
get-add_values values [] all j h = ap (λ m. Dict.get m j) (ground (arith, h))
get-add_values values (e ∷ es) all j h =
    by_blank (is_blank e) refl (ltb 0 (empty_sub_attributes e)) refl
      (λ vs h'. get-add_values vs es all j h')
  where
    by_blank :
        (b : Bool)
        → is_blank e ≡ b
        → (c : Bool) → ltb 0 (empty_sub_attributes e) ≡ c
        → ((vs : Dict MetadataValue)
            → add_values vs es ≡ ok all
            → Dict.get all j ≡ from_last metadata_value (last_entry es j) (Dict.get vs j))
        → Dict.get all j ≡ from_last metadata_value (last_entry (e ∷ es) j) (Dict.get values j)
    by_blank true b c hc rest =
        rest values (ground (arith, h, b))
        ∙ get-skip-from_last metadata_value (Dict.get values j) (last_entry es j) e j b
    by_blank false b true hc rest = absurd (ground (arith, h, b, hc))
    by_blank false b false hc rest =
        rest (Dict.put values e.key (metadata_value e)) (ground (arith, h, b, hc))
        ∙ get-put-from_last metadata_value values (last_entry es j) e j b

same_domain : (b : Bool) → ((if b then "SYSTEM" else "GENERAL") == "SYSTEM") ≡ b
same_domain true = refl
same_domain false = refl

by_entries :
    (old new : Option MetadataEntry) (t : Bool) (before : Option MetadataValue)
    → merged_value (from_last metadata_value new none) t (
        if is_domain (from_last system_flag old none) t
          && is_missing (from_last system_flag new none)
        then none
        else before)
      ≡ entry_after old new t before
unfolding metadata_value from_last system_flag
by_entries none none t before = refl
by_entries (some p) none t before = ground arith
by_entries none (some e) t before = rw (same_domain e.is_system) refl
by_entries (some p) (some e) t before =
    rw (same_domain e.is_system)
      (overwritten (same_flag p.is_system t) (same_flag e.is_system t) (metadata_value e))
  where
    overwritten :
        (s u : Bool) (v : MetadataValue)
        → (if u then some v else (if s && false then none else before))
          ≡ (if u then some v else before)
    overwritten s u v = ground arith

get-key_domains :
    (es : List MetadataEntry) (j : String)
    → Dict.get (key_domains es) j ≡ from_last system_flag (last_entry es j) none
unfolding key_domains Dict.get
get-key_domains es j = get-add_key_domains [] es j

get-convert_from_state :
    (es : List MetadataEntry) (values : Dict MetadataValue) (j : String)
    → convert_from_state es ≡ ok values
    → Dict.get values j ≡ from_last metadata_value (last_entry es j) none
unfolding convert_from_state Dict.get
get-convert_from_state es values j h = get-add_values [] es values j h

module _ {W : Type 0} (object : MetadataCompatible W) (message : Failure → String)
    (entries : W → String → Bool → Option MetadataValue) (laws : MetadataLaws object entries) where
  -- If the object answers every call as its laws say and the new entries can be converted, an update of
  -- "metadata_entry" succeeds. Of several entries of one key only the last one counts, among the old ones and
  -- among the new ones, and blank entries do not. Afterwards a key of the new entries has its new value in its
  -- domain and in the other domain what it had before; a key that only the old entries have is gone from its
  -- domain and unchanged in the other; a key of neither is unchanged.
  pub create_or_update_entries_lem :
      (old new : List MetadataEntry) (values : Dict MetadataValue) (w : W)
      → convert_from_state new ≡ ok values
      → ((create_or_update_entries object message true old new w).0 ≡ none)
        × ((j : String) (t : Bool)
            → entries (create_or_update_entries object message true old new w).1 j t
              ≡ entry_after (last_entry old j) (last_entry new j) t (entries w j t))
  create_or_update_entries_lem old new values w h =
      let (succeeds, left) =
        create_or_update_entries_maps object message entries laws old new values w h in
      (
        succeeds,
        λ j t.
            left j t
            ∙ rw
                (
                  get-key_domains old j,
                  get-key_domains new j,
                  get-convert_from_state new values j h,
                )
                (by_entries (last_entry old j) (last_entry new j) t (entries w j t)),
      )
