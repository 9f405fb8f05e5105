-- ===== src/RateLimit/Cleaning.antt =====
-- Cleanup of internal/ratelimit/limiter.go.
use terraform_provider_viett.Prelude.{
  ℕ, ◌-◌, String, ◌≡◌, ◌≢◌, refl, Bool, true, false, ◌||◌, Option, none, some, List, [], ◌∷◌, arith,
  ◌==◌, eq_iff, ltb, if◌then◌else◌,
}
use terraform_provider_viett.Go.Dict
use terraform_provider_viett.Go.Dict.{Dict}
use terraform_provider_viett.RateLimit.{Limiters, Visitor, Manager, keys, clean_keys, cleanup}

is_key : String → List String → Bool
is_key j [] = false
is_key j (k ∷ ks) = (k == j) || is_key j ks

-- a visitor that is still in the map after a sweep
abbrev pub if_recent : ℕ → Option Visitor → Option Visitor
if_recent cutoff none = none
if_recent cutoff (some v) = if ltb v.last_seen cutoff then none else some v

get-clean_keys :
    (cutoff : ℕ) (ks : List String) (visitors : Dict Visitor) (j : String)
    → Dict.get (clean_keys cutoff ks visitors) j
      ≡ (if is_key j ks then if_recent cutoff (Dict.get visitors j) else Dict.get visitors j)
unfolding clean_keys is_key
get-clean_keys cutoff [] visitors j = refl
get-clean_keys cutoff (k ∷ ks) visitors j = ground (
  arith,
  get-clean_keys cutoff ks visitors j,
  get-clean_keys cutoff ks (Dict.remove visitors k) j,
  Dict.get-remove visitors k j,
  eq_iff k j,
)

is_key-keys :
    (visitors : Dict Visitor) (j : String)
    → Dict.get visitors j ≢ none
    → is_key j (keys visitors) ≡ true
unfolding is_key keys Dict.get
is_key-keys [] j h = absurd (h refl)
is_key-keys ((k, v) ∷ visitors) j h = ground (arith, is_key-keys visitors j)

module _ {L : Type 0} (limiters : Limiters L) where
  open limiters use {Rate}

  -- Cleanup drops exactly the visitors that were last seen more than the time to live ago: all others
  -- keep their bucket, and the buckets stay as they are.
  pub get-cleanup :
      (now : ℕ) (m : Manager Rate L) (j : String)
      → (Dict.get (cleanup limiters now m).visitors j
          ≡ if_recent (now - m.ttl) (Dict.get m.visitors j))
        × ((cleanup limiters now m).heap ≡ m.heap)
  unfolding cleanup
  get-cleanup now m j = (swept (Dict.get m.visitors j) refl, refl)
    where
      swept :
          (r : Option Visitor)
          → Dict.get m.visitors j ≡ r
          → Dict.get (clean_keys (now - m.ttl) (keys m.visitors) m.visitors) j
            ≡ if_recent (now - m.ttl) (Dict.get m.visitors j)
      swept none e = ground (arith, get-clean_keys (now - m.ttl) (keys m.visitors) m.visitors j)
      swept (some v) e = ground (
        arith,
        get-clean_keys (now - m.ttl) (keys m.visitors) m.visitors j,
        is_key-keys m.visitors j (λ gone. cc (e, gone)),
      )
