-- ===== src/Vcd/IgnoredMetadata/Configured.antt =====
-- The loops of providerConfigure and getIgnoredMetadata of vcd/metadata.go: what the client ignores is what
-- the blocks `ignore_metadata_changes` say.
use mathlib.Core.Path.{subst}
use terraform_provider_viett.Prelude.{
  String, ◌≡◌, refl, sym, ◌∙◌, ◌≢◌, ◌⊎◌, inl, inr, Option, none, some, List, [], ◌∷◌, ◌++◌, map,
  arith, eq_iff, ◌==◌, if◌then◌else◌, Bool-cases,
}
use terraform_provider_viett.Go.{Result, ok, err}
use terraform_provider_viett.Go.Dict
use terraform_provider_viett.Go.Dict.{Dict}
use mathlib.Core.List.{append-nil, append_assoc}
use terraform_provider_viett.Vcd.IgnoredMetadata.{
  IgnoreBlock, Ignored, IgnoredMetadata, Patterns, api_relation, text_at, optional_regex,
  ignored_of, ignored_block, get_ignored_metadata, configure_ignored,
}

-- an optional text is `a` where the attribute is set
abbrev pub IsGiven {ℓ} : {A : Type ℓ} → String → A → Option A → Type ℓ
IsGiven s a o = ((s ≡ "") × (o ≡ none)) ⊎ ((s ≢ "") × (o ≡ some a))

if_set-IsGiven : (s a : String) → IsGiven s a (if s == "" then none else some a)
if_set-IsGiven s a = ground (arith, eq_iff s "")

module _ {Regex : Type 0} (patterns : Patterns Regex) where
  open patterns use {compile, show}

  -- an optional pattern is the compiled text where the attribute is set
  abbrev pub IsCompiled : String → Option Regex → Type 0
  IsCompiled s o =
      ((s ≡ "") × (o ≡ none)) ⊎ ((r : Regex) × (s ≢ "") × (compile s ≡ ok r) × (o ≡ some r))

  -- what the client ignores because of a block
  pub record IsIgnoredBy (b : IgnoreBlock) (i : Ignored Regex) : Type 0 where
    pub typed : IsGiven b.resource_type (text_at api_relation b.resource_type) i.object_type
    pub named : IsGiven b.resource_name b.resource_name i.object_name
    pub keyed : IsCompiled b.key_regex i.key_regex
    pub valued : IsCompiled b.value_regex i.value_regex

  -- block by block, in order
  pub data AreIgnoredBy : List IgnoreBlock → List (Ignored Regex) → Type 0 where
    no_blocks : AreIgnoredBy [] []
    one_more :
        {b : IgnoreBlock} {i : Ignored Regex} {bs : List IgnoreBlock} {is : List (Ignored Regex)}
        → IsIgnoredBy b i
        → AreIgnoredBy bs is
        → AreIgnoredBy (b ∷ bs) (i ∷ is)

  optional_regex-IsCompiled :
      (s : String) (o : Option Regex) → optional_regex patterns s ≡ ok o → IsCompiled s o
  unfolding optional_regex
  optional_regex-IsCompiled s o h = by_result (compile s) refl
    where
      by_result : (r : Result Regex) → compile s ≡ r → IsCompiled s o
      by_result (err e) c = ground (arith, h, c, eq_iff s "")
      by_result (ok r) c = elim (Bool-cases (s == "")) [
        | inl e ↦ inl ((eq_iff s "").0 e, ground (arith, h, e))
        | inr e ↦ inr (r, ground (arith, e, eq_iff s ""), c, ground (arith, h, c, e))
      ]

  fields-IsIgnoredBy :
      (b : IgnoreBlock) (key value : Option Regex) (i : Ignored Regex)
      → IsCompiled b.key_regex key
      → IsCompiled b.value_regex value
      → (i.object_type
          ≡ (if b.resource_type == "" then none else some (text_at api_relation b.resource_type)))
      → (i.object_name ≡ (if b.resource_name == "" then none else some b.resource_name))
      → i.key_regex ≡ key
      → i.value_regex ≡ value
      → IsIgnoredBy b i
  fields-IsIgnoredBy b key value i k v t n ek ev = record {
    typed =
        subst (IsGiven b.resource_type (text_at api_relation b.resource_type)) (sym t)
          (if_set-IsGiven b.resource_type (text_at api_relation b.resource_type));
    named =
        subst (IsGiven b.resource_name b.resource_name) (sym n)
          (if_set-IsGiven b.resource_name b.resource_name);
    keyed = subst (IsCompiled b.key_regex) (sym ek) k;
    valued = subst (IsCompiled b.value_regex) (sym ev) v;
  }

  ignored_of-IsIgnoredBy :
      (b : IgnoreBlock) (key value : Option Regex) (m : IgnoredMetadata Regex)
      → IsCompiled b.key_regex key
      → IsCompiled b.value_regex value
      → ignored_of patterns b key value ≡ ok m
      → IsIgnoredBy b m.ignored
  unfolding ignored_of
  ignored_of-IsIgnoredBy b none none m k v h = absurd (ground (arith, h))
  ignored_of-IsIgnoredBy b none (some w) m k v h =
      fields-IsIgnoredBy b none (some w) m.ignored k v (ground (arith, h)) (ground (arith, h))
        (ground (arith, h)) (ground (arith, h))
  ignored_of-IsIgnoredBy b (some r) w m k v h =
      fields-IsIgnoredBy b (some r) w m.ignored k v (ground (arith, h)) (ground (arith, h))
        (ground (arith, h)) (ground (arith, h))

  block-IsIgnoredBy :
      (b : IgnoreBlock) (m : IgnoredMetadata Regex)
      → ignored_block patterns b ≡ ok m
      → IsIgnoredBy b m.ignored
  unfolding ignored_block
  block-IsIgnoredBy b m h =
      by_patterns (optional_regex patterns b.key_regex) (optional_regex patterns b.value_regex) refl
        refl
    where
      by_patterns :
          (k v : Result (Option Regex))
          → optional_regex patterns b.key_regex ≡ k
          → optional_regex patterns b.value_regex ≡ v
          → IsIgnoredBy b m.ignored
      by_patterns (err e) v hk hv = absurd (ground (arith, h, hk))
      by_patterns (ok k) (err e) hk hv = absurd (ground (arith, h, hk, hv))
      by_patterns (ok k) (ok v) hk hv =
          ignored_of-IsIgnoredBy b k v m (optional_regex-IsCompiled b.key_regex k hk)
            (optional_regex-IsCompiled b.value_regex v hv) (ground (arith, h, hk, hv))

  pub blocks_inversion :
      (b : IgnoreBlock) (bs : List IgnoreBlock) (ms : List (IgnoredMetadata Regex))
      → get_ignored_metadata patterns (b ∷ bs) ≡ ok ms
      → (m : IgnoredMetadata Regex) × (rs : List (IgnoredMetadata Regex)) × (ignored_block patterns
            b
          ≡ ok m)
        × (get_ignored_metadata patterns bs ≡ ok rs)
        × (ms ≡ m ∷ rs)
  unfolding get_ignored_metadata
  blocks_inversion b bs ms h =
      by_block (ignored_block patterns b) (get_ignored_metadata patterns bs) refl refl
    where
      by_block :
          (r : Result (IgnoredMetadata Regex)) (rs : Result (List (IgnoredMetadata Regex)))
          → ignored_block patterns b ≡ r
          → get_ignored_metadata patterns bs ≡ rs
          → (m : IgnoredMetadata Regex) × (rs : List (IgnoredMetadata Regex)) × (ignored_block
                patterns b
              ≡ ok m)
            × (get_ignored_metadata patterns bs ≡ ok rs)
            × (ms ≡ m ∷ rs)
      by_block (err e) rs hb hr = absurd (ground (arith, h, hb))
      by_block (ok m) (err e) hb hr = absurd (ground (arith, h, hb, hr))
      by_block (ok m) (ok rs) hb hr = (m, rs, hb, hr, ground (arith, h, hb, hr))

  ignored_parts : List (IgnoredMetadata Regex) → List (Ignored Regex)
  ignored_parts ms = map (λ (m : IgnoredMetadata Regex). m.ignored) ms

  blocks-AreIgnoredBy :
      (bs : List IgnoreBlock) (ms : List (IgnoredMetadata Regex))
      → get_ignored_metadata patterns bs ≡ ok ms
      → AreIgnoredBy bs (ignored_parts ms)
  unfolding get_ignored_metadata ignored_parts
  blocks-AreIgnoredBy [] [] h = no_blocks
  blocks-AreIgnoredBy [] (m ∷ ms) h = absurd (ground arith)
  blocks-AreIgnoredBy (b ∷ bs) ms h =
      let (m, rs, hb, hr, same) = blocks_inversion b bs ms h in
      subst (λ qs. AreIgnoredBy (b ∷ bs) (ignored_parts qs)) (sym same)
        (one_more (block-IsIgnoredBy b m hb) (blocks-AreIgnoredBy bs rs hr))

  configured_map :
      (is : List (Ignored Regex)) (actions : Dict String) (ms : List (IgnoredMetadata Regex))
      → (configure_ignored patterns is actions ms).0 ≡ is ++ ignored_parts ms
  unfolding configure_ignored ignored_parts
  configured_map is actions [] = sym (append-nil is)
  configured_map is actions (m ∷ ms) =
      configured_map (is ++ (m.ignored ∷ [])) (Dict.put actions (show m.ignored) m.conflict_action)
        ms
      ∙ append_assoc is (m.ignored ∷ []) (ignored_parts ms)

  pub configure-AreIgnoredBy :
      (bs : List IgnoreBlock) (ms : List (IgnoredMetadata Regex))
      → get_ignored_metadata patterns bs ≡ ok ms
      → AreIgnoredBy bs (configure_ignored patterns [] [] ms).0
  configure-AreIgnoredBy bs ms h =
      subst (AreIgnoredBy bs) (sym (configured_map [] [] ms)) (blocks-AreIgnoredBy bs ms h)
