-- ===== src/Vcd/IgnoredMetadata/Conflicts.antt =====
-- checkIgnoredMetadataConflicts of vcd/metadata.go, with the blocks and actions that the provider was
-- configured with.
use terraform_provider_viett.Prelude.{
  String, ◌≡◌, refl, ap, ◌∙◌, Bool, true, false, Option, none, some, List, [], ◌∷◌, ◌++◌, ◌⊎◌, inl,
  inr, arith, eq_refl, All, All-append, IsIn, here, there,
}
use terraform_provider_viett.Go.{Result, ok, err}
use terraform_provider_viett.Go.Dict
use terraform_provider_viett.Go.Dict.{Dict}
use terraform_provider_viett.Vcd.Metadata.{MetadataEntry}
use terraform_provider_viett.Vcd.IgnoredMetadata.{
  IgnoreBlock, Ignored, IgnoredMetadata, Patterns, Diagnostic, conflict_error, optional_regex,
  ignored_of, ignored_block, get_ignored_metadata, configure_ignored, has_conflict, report_action,
  report_conflict, text_or, check_entry, check_conflicts,
}
use terraform_provider_viett.Vcd.IgnoredMetadata.Configured.{
  AreIgnoredBy, blocks_inversion, configure-AreIgnoredBy,
}

module _ {Regex : Type 0} (patterns : Patterns Regex) where
  open patterns use {show}

  abbrev HasAction : Dict String → String → Ignored Regex → Type 0
  HasAction actions action i = Dict.get actions (show i) ≡ some action

  put-HasAction :
      (actions : Dict String) (i j : Ignored Regex)
      → HasAction actions "error" j
      → HasAction (Dict.put actions (show i) "error") "error" j
  put-HasAction actions i j h = ground (arith, Dict.get-put actions (show i) "error" (show j))

  put_own-HasAction :
      (actions : Dict String) (i : Ignored Regex)
      → HasAction (Dict.put actions (show i) "error") "error" i
  put_own-HasAction actions i =
      ground (arith, Dict.get-put actions (show i) "error" (show i), eq_refl (show i))

  put_actions :
      (actions : Dict String) (i : Ignored Regex) (is : List (Ignored Regex))
      → All (HasAction actions "error") is
      → All (HasAction (Dict.put actions (show i) "error") "error") is
  put_actions actions i [] h = tt
  put_actions actions i (j ∷ is) h = (put-HasAction actions i j h.0, put_actions actions i is h.1)

  -- Where every block asks for an error, so does the configuration for every block.
  configure-HasAction :
      (is : List (Ignored Regex)) (actions : Dict String) (ms : List (IgnoredMetadata Regex))
      → All (HasAction actions "error") is
      → All (λ (m : IgnoredMetadata Regex). m.conflict_action ≡ "error") ms
      → All
          (HasAction (configure_ignored patterns is actions ms).1 "error")
          (configure_ignored patterns is actions ms).0
  unfolding configure_ignored
  configure-HasAction is actions [] h e = h
  configure-HasAction is actions (m ∷ ms) h e = rw e.0 (
      configure-HasAction (is ++ (m.ignored ∷ [])) (Dict.put actions (show m.ignored) "error") ms
        (All-append (HasAction (Dict.put actions (show m.ignored) "error") "error") is
          (m.ignored ∷ []) (put_actions actions m.ignored is h)
          (put_own-HasAction actions m.ignored, tt))
        e.1)

  of_block-action :
      (b : IgnoreBlock) (key value : Option Regex) (m : IgnoredMetadata Regex)
      → ignored_of patterns b key value ≡ ok m
      → m.conflict_action ≡ b.conflict_action
  unfolding ignored_of
  of_block-action b none none m h = cc
  of_block-action b (some k) value m h = ground arith
  of_block-action b none (some v) m h = ground arith

  block-action :
      (b : IgnoreBlock) (m : IgnoredMetadata Regex)
      → ignored_block patterns b ≡ ok m
      → m.conflict_action ≡ b.conflict_action
  unfolding ignored_block
  block-action b m h =
      by_key (optional_regex patterns b.key_regex) (optional_regex patterns b.value_regex) refl refl
    where
      by_key :
          (k v : Result (Option Regex))
          → optional_regex patterns b.key_regex ≡ k
          → optional_regex patterns b.value_regex ≡ v
          → m.conflict_action ≡ b.conflict_action
      by_key (err e) v hk hv = ground (arith, h, hk)
      by_key (ok k) (err e) hk hv = ground (arith, h, hk, hv)
      by_key (ok k) (ok v) hk hv = of_block-action b k v m (ground (arith, h, hk, hv))

  blocks-action :
      (bs : List IgnoreBlock) (ms : List (IgnoredMetadata Regex))
      → get_ignored_metadata patterns bs ≡ ok ms
      → All (λ (b : IgnoreBlock). b.conflict_action ≡ "error") bs
      → All (λ (m : IgnoredMetadata Regex). m.conflict_action ≡ "error") ms
  unfolding get_ignored_metadata
  blocks-action [] [] h e = tt
  blocks-action [] (m ∷ ms) h e = absurd (ground arith)
  blocks-action (b ∷ bs) ms h e =
      let (m, rs, hb, hr, same) = blocks_inversion patterns b bs ms h in
      rw same (block-action b m hb ∙ e.0, blocks-action bs rs hr e.1)

  module _ (resource_type name : String) where
    -- an entry and a block that conflict
    abbrev pub HasClash :
        List (Ignored Regex) → List MetadataEntry → Ignored Regex → MetadataEntry → Type 0
    HasClash is es i e =
        IsIn i is × IsIn e es × (has_conflict patterns resource_type name i e ≡ true)

    abbrev pub IsQuiet : List (Ignored Regex) → MetadataEntry → Type 0
    IsQuiet is e =
        All (λ (i : Ignored Regex). has_conflict patterns resource_type name i e ≡ false) is

    -- no conflict and no report, or a conflict that is reported
    abbrev pub Reports :
        List (Ignored Regex) → List MetadataEntry → Option (Diagnostic Regex) → Type 0
    Reports is es r =
        ((r ≡ none) × All (IsQuiet is) es)
        ⊎ ((i : Ignored Regex) × (e : MetadataEntry) × (r ≡ some (conflict_error i e))
            × HasClash is es i e)

    module _ (actions : Dict String) where
      report_error :
          (i : Ignored Regex) (e : MetadataEntry)
          → HasAction actions "error" i
          → report_conflict patterns resource_type name actions i e ≡ some (conflict_error i e)
      unfolding report_conflict
      report_error i e h = ap (λ o. report_action (text_or o) i e) h

      -- an entry has no conflict, and the check goes on, or it has one that is reported
      abbrev EntryReports :
          List (Ignored Regex)
          → MetadataEntry
          → Option (Diagnostic Regex)
          → Option (Diagnostic Regex)
          → Type 0
      EntryReports is e later r =
          ((r ≡ later) × IsQuiet is e)
          ⊎ ((i : Ignored Regex) × (r ≡ some (conflict_error i e))
              × IsIn i is
              × (has_conflict patterns resource_type name i e ≡ true))

      entry-Reports :
          (is : List (Ignored Regex)) (e : MetadataEntry) (later : Option (Diagnostic Regex))
          → All (HasAction actions "error") is
          → EntryReports is e later (check_entry patterns resource_type name actions e later is)
      unfolding check_entry
      entry-Reports [] e later h = inl (refl, tt)
      entry-Reports (i ∷ is) e later h =
          by_test (has_conflict patterns resource_type name i e) refl (entry-Reports is e later h.1)
        where
          by_test :
              (t : Bool)
              → has_conflict patterns resource_type name i e ≡ t
              → EntryReports is e later (check_entry patterns resource_type name actions e later is)
              → EntryReports
                  (i ∷ is)
                  e
                  later
                  (check_entry patterns resource_type name actions e later (i ∷ is))
          by_test true clash rest =
              inr (i, rw (clash, check_entry) (report_error i e h.0), here, clash)
          by_test false quiet (inl (same, others)) =
              inl (rw (quiet, check_entry) same, (quiet, others))
          by_test false quiet (inr (j, reported, at, clash)) =
              inr (j, rw (quiet, check_entry) reported, there at, clash)

      check-Reports :
          (is : List (Ignored Regex)) (es : List MetadataEntry)
          → All (HasAction actions "error") is
          → Reports is es (check_conflicts patterns resource_type name actions is es)
      unfolding check_conflicts
      check-Reports is [] h = inl (refl, tt)
      check-Reports is (e ∷ es) h =
          combine (entry-Reports is e (check_conflicts patterns resource_type name actions is es) h)
            (check-Reports is es h)
        where
          combine :
              EntryReports is e (check_conflicts patterns resource_type name actions is es) (
                check_entry patterns resource_type name actions e
                  (check_conflicts patterns resource_type name actions is es)
                  is)
              → Reports is es (check_conflicts patterns resource_type name actions is es)
              → Reports is (e ∷ es) (
                  check_entry patterns resource_type name actions e
                    (check_conflicts patterns resource_type name actions is es)
                    is)
          combine (inr (i, reported, at, clash)) rest = inr (i, e, reported, (at, here, clash))
          combine (inl (same, quiet)) (inl (none_later, others)) =
              inl (same ∙ none_later, (quiet, others))
          combine (inl (same, quiet)) (inr (i, f, reported, (at, in_es, clash))) =
              inr (i, f, same ∙ reported, (at, there in_es, clash))

    -- If every configured block `ignore_metadata_changes` has the action "error": what the client ignores
    -- is, block by block, what the attributes of the blocks say, with the name of the API for the type of
    -- resource and the compiled patterns; and checkIgnoredMetadataConflicts reports nothing exactly if no
    -- entry conflicts with any of this, and otherwise returns an error that names an entry and a block
    -- which conflict.
    pub check_conflicts-configured :
        (bs : List IgnoreBlock) (ms : List (IgnoredMetadata Regex)) (es : List MetadataEntry)
        → get_ignored_metadata patterns bs ≡ ok ms
        → All (λ (b : IgnoreBlock). b.conflict_action ≡ "error") bs
        → let (is, actions) = configure_ignored patterns [] [] ms in
          AreIgnoredBy patterns bs is
          × Reports is es (check_conflicts patterns resource_type name actions is es)
    check_conflicts-configured bs ms es configured errors =
        let (is, actions) = configure_ignored patterns [] [] ms in
        (
          configure-AreIgnoredBy patterns bs ms configured,
          check-Reports actions is es
              (configure-HasAction [] [] ms tt (blocks-action bs ms configured errors)),
        )

    -- A block with the action "none" that conflicts with an entry ends the check: the blocks after it, and
    -- the entries after the first one, are not looked at, so their conflicts are not reported.
    pub check_conflicts_stops :
        (actions : Dict String) (i : Ignored Regex) (is : List (Ignored Regex)) (e : MetadataEntry)
        (es : List MetadataEntry)
        → has_conflict patterns resource_type name i e ≡ true
        → Dict.get actions (show i) ≡ some "none"
        → check_conflicts patterns resource_type name actions (i ∷ is) (e ∷ es) ≡ none
    unfolding check_conflicts check_entry report_conflict
    check_conflicts_stops actions i is e es clash action =
        rw (clash, check_entry) (ap (λ o. report_action (text_or o) i e) action)
