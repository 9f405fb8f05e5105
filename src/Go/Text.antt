-- ===== src/Go/Text.antt =====
-- strings.HasPrefix, strings.TrimPrefix and the conversion of a number to decimal text.
use Prim.Native.Char.{code}
use Prim.Native.String.{String, ◌++◌ as append_text}
use text.Mathlib.TextLemmas.{nil-append, cons-append}
use terraform_provider_viett.Prelude.{
  ◌≡◌, Bool, true, false, Option, none, some, arith, num_eq, if◌then◌else◌,
}

-- what is left of a text after a prefix
unfoldable pub strip_prefix : String → String → Option String
strip_prefix String.[] s = some s
strip_prefix (String.◌∷◌ c p) String.[] = none
strip_prefix (String.◌∷◌ c p) (String.◌∷◌ d s) =
    if num_eq (code c) (code d) then strip_prefix p s else none

-- strings.HasPrefix
unfoldable pub has_prefix : String → String → Bool
unfolding strip_prefix
has_prefix s prefix = elim (strip_prefix prefix s) [ none ↦ false | some _ ↦ true ]

-- strings.TrimPrefix
unfoldable pub trim_prefix : String → String → String
unfolding strip_prefix
trim_prefix s prefix = elim (strip_prefix prefix s) [ none ↦ s | some rest ↦ rest ]

pub strip_prefix-append : (p s : String) → strip_prefix p (append_text p s) ≡ some s
unfolding strip_prefix
strip_prefix-append String.[] s = rw nil-append
strip_prefix-append (String.◌∷◌ c p) s =
    rw (cons-append, strip_prefix) (ground (arith, strip_prefix-append p s))

pub has_prefix-append : (p s : String) → has_prefix (append_text p s) p ≡ true
unfolding has_prefix
has_prefix-append p s = rw (strip_prefix-append p s, has_prefix)

pub trim_prefix-append : (p s : String) → trim_prefix (append_text p s) p ≡ s
unfolding trim_prefix
trim_prefix-append p s = rw (strip_prefix-append p s, trim_prefix)
