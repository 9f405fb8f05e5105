-- ===== src/RateLimit.antt =====
-- internal/ratelimit/limiter.go: one token bucket for each client address. The buckets are those of
-- golang.org/x/time/rate, a parameter; the map holds pointers to them, and a bucket changes after the
-- lock of the map is released, so they live in a heap of their own. A time is a number of nanoseconds
-- since Go's zero time and `ttl` is not negative.
pub mod Clients
pub mod Isolation
pub mod Cleaning
use terraform_provider_viett.Prelude.{
  ℕ, ◌+◌, ◌-◌, String, Bool, true, false, Option, none, some, List, [], ◌∷◌, ltb, num_eq,
  if◌then◌else◌,
}
use terraform_provider_viett.Go.Dict
use terraform_provider_viett.Go.Dict.{Dict}

-- rate.NewLimiter and (*Limiter).Allow, which reads the clock
pub record Limiters (L : Type 0) : Type 1 where
  pub Rate : Type 0
  pub make : Rate → ℕ → L
  pub allow : ℕ → L → Bool × L

-- `limiter` is a pointer into the heap
pub record Visitor : Type 0 where
  pub limiter : ℕ
  pub last_seen : ℕ

pub record Manager (Rate L : Type 0) : Type 0 where
  pub visitors : Dict Visitor
  pub rate : Rate
  pub burst : ℕ
  pub ttl : ℕ
  pub heap : ℕ → L
  pub fresh : ℕ

unfoldable pub update_at {ℓ} : {L : Type ℓ} → (ℕ → L) → ℕ → L → ℕ → L
update_at heap p l q = if num_eq p q then l else heap q

-- the keys in the order of iteration
unfoldable pub keys {ℓ} : {V : Type ℓ} → Dict V → List String
keys [] = []
keys ((k, v) ∷ m) = k ∷ keys m

-- the loop of Cleanup over the keys, each with the visitor that the map has for it
unfoldable pub clean_keys : ℕ → List String → Dict Visitor → Dict Visitor
clean_keys cutoff [] visitors = visitors
clean_keys cutoff (key ∷ rest) visitors = clean_keys cutoff rest (elim (Dict.get visitors key) [
  | none ↦ visitors
  | some v ↦ if ltb v.last_seen cutoff then Dict.remove visitors key else visitors
])

module _ {L : Type 0} (limiters : Limiters L) where
  open limiters use {Rate, make, allow}

  abbrev pub M : Type 0
  M = Manager Rate L

  -- New; `blank` fills the heap where nothing is allocated
  unfoldable pub new_manager : Rate → ℕ → ℕ → (ℕ → L) → M
  new_manager requests_per_second burst ttl blank = record {
    visitors = [];
    rate = requests_per_second;
    burst = burst;
    ttl = ttl;
    heap = blank;
    fresh = 0;
  }

  -- (*Manager).getLimiter, under the lock
  unfoldable pub get_limiter : String → ℕ → M → ℕ × M
  unfolding update_at
  get_limiter key now m = elim (Dict.get m.visitors key) [
    | some existing ↦ (
      existing.limiter,
      record m { visitors = Dict.put m.visitors key (record existing { last_seen = now }) },
    )
    | none ↦ (
      m.fresh,
      record m {
        visitors = Dict.put m.visitors key (record { limiter = m.fresh; last_seen = now });
        heap = update_at m.heap m.fresh (make m.rate m.burst);
        fresh = m.fresh + 1;
      },
    )
  ]

  -- limiter.Allow(), after the lock is released
  unfoldable pub allow_at : ℕ → ℕ → M → Bool × M
  unfolding update_at
  allow_at p now m =
      let (allowed, l) = allow now (m.heap p) in (allowed, record m { heap = update_at m.heap p l })

  -- Middleware: whether the request of a client goes on; if not, it is answered with status 429
  unfoldable pub middleware : String → ℕ → ℕ → M → Bool × M
  unfolding get_limiter allow_at
  middleware client_ip now now' m = let (p, m') = get_limiter client_ip now m in allow_at p now' m'

  -- Cleanup; no time is before Go's zero time, so the cutoff can stop there
  unfoldable pub cleanup : ℕ → M → M
  unfolding clean_keys keys
  cleanup now m = record m { visitors = clean_keys (now - m.ttl) (keys m.visitors) m.visitors }
