-- ===== src/RateLimit/Clients.antt =====
-- internal/ratelimit/limiter.go: each client has a bucket of its own.
use terraform_provider_viett.Prelude.{
  ℕ, ◌+◌, ◌<◌, String, ◌≡◌, refl, Option, none, some, arith, ◌==◌, eq_iff, if◌then◌else◌,
}
use terraform_provider_viett.Go.Dict
use terraform_provider_viett.RateLimit.{
  Limiters, Visitor, Manager, new_manager, update_at, get_limiter, allow_at, middleware,
}

-- the bucket that a client has when its request is decided: its own, or a full one
abbrev pub or_full {ℓ} : {L : Type ℓ} → L → Option L → L
or_full full none = full
or_full full (some l) = l

module _ {L : Type 0} (limiters : Limiters L) where
  open limiters use {Rate, make, allow}

  -- Every pointer in the map is allocated, and no two clients share one.
  pub record IsValid (m : Manager Rate L) : Type 0 where
    pub allocated :
        (j : String) (v : Visitor) → Dict.get m.visitors j ≡ some v → v.limiter < m.fresh
    pub distinct :
        (j k : String) (u v : Visitor)
        → Dict.get m.visitors j ≡ some u
        → Dict.get m.visitors k ≡ some v
        → u.limiter ≡ v.limiter
        → j ≡ k

  abbrev renewed : String → Visitor → ℕ → Manager Rate L → Manager Rate L
  renewed key v now m = record m {
    visitors = Dict.put m.visitors key (record v { last_seen = now });
  }

  abbrev added : String → ℕ → Manager Rate L → Manager Rate L
  added key now m = record m {
    visitors = Dict.put m.visitors key (record { limiter = m.fresh; last_seen = now });
    heap = update_at m.heap m.fresh (make m.rate m.burst);
    fresh = m.fresh + 1;
  }

  renewed-IsValid :
      (key : String) (v : Visitor) (now : ℕ) (m : Manager Rate L)
      → Dict.get m.visitors key ≡ some v
      → IsValid m
      → IsValid (renewed key v now m)
  renewed-IsValid key v now m h valid =
      let v' : Visitor = record v { last_seen = now } in
      record {
        allocated = λ j u e.
            ground (
              arith,
              Dict.get-put m.visitors key v' j,
              valid.allocated j u,
              valid.allocated key v h,
            );
        distinct = λ j k u u' e e' same. ground (
          arith,
          Dict.get-put m.visitors key v' j,
          Dict.get-put m.visitors key v' k,
          valid.distinct j k u u',
          valid.distinct key k v u' h,
          valid.distinct j key u v,
          eq_iff key j,
          eq_iff key k,
        );
      }

  added-IsValid :
      (key : String) (now : ℕ) (m : Manager Rate L) → IsValid m → IsValid (added key now m)
  added-IsValid key now m valid =
      let v' : Visitor = record { limiter = m.fresh; last_seen = now } in
      record {
        allocated = λ j u e. ground (arith, Dict.get-put m.visitors key v' j, valid.allocated j u);
        distinct = λ j k u u' e e' same. ground (
          arith,
          Dict.get-put m.visitors key v' j,
          Dict.get-put m.visitors key v' k,
          valid.distinct j k u u',
          valid.allocated j u,
          valid.allocated k u',
          eq_iff key j,
          eq_iff key k,
        );
      }

  allow_at-IsValid :
      (p now : ℕ) (m : Manager Rate L) → IsValid m → IsValid (allow_at limiters p now m).1
  unfolding allow_at
  allow_at-IsValid p now m valid = record { allocated = valid.allocated; distinct = valid.distinct }

  pub get_limiter-IsValid :
      (key : String) (now : ℕ) (m : Manager Rate L)
      → IsValid m
      → IsValid (get_limiter limiters key now m).1
  unfolding get_limiter
  get_limiter-IsValid key now m valid = by_entry (Dict.get m.visitors key) refl
    where
      by_entry :
          (r : Option Visitor)
          → Dict.get m.visitors key ≡ r
          → IsValid (get_limiter limiters key now m).1
      by_entry none e = rw (e, get_limiter) (added-IsValid key now m valid)
      by_entry (some v) e = rw (e, get_limiter) (renewed-IsValid key v now m e valid)

  pub middleware-IsValid :
      (key : String) (now now' : ℕ) (m : Manager Rate L)
      → IsValid m
      → IsValid (middleware limiters key now now' m).1
  unfolding middleware
  middleware-IsValid key now now' m valid =
      let (p, m') = get_limiter limiters key now m in
      allow_at-IsValid p now' m' (get_limiter-IsValid key now m valid)

  -- the bucket of a client
  abbrev pub bucket : Manager Rate L → String → Option L
  bucket m j = elim (Dict.get m.visitors j) [ none ↦ none | some v ↦ some (m.heap v.limiter) ]

  -- Whether a request goes on is what `Allow` says of the client's bucket.
  pub middleware_answer :
      (key : String) (now now' : ℕ) (m : Manager Rate L)
      → (middleware limiters key now now' m).0
        ≡ (allow now' (or_full (make m.rate m.burst) (bucket m key))).0
  unfolding middleware update_at
  middleware_answer key now now' m = ground arith

  -- In a manager in which no two clients share a bucket, a request of a client changes the bucket
  -- of that client as `Allow` does, starting from a full bucket if it had none, and no other
  -- bucket.
  pub bucket-middleware :
      (key : String) (now now' : ℕ) (m : Manager Rate L) (j : String)
      → IsValid m
      → bucket (middleware limiters key now now' m).1 j ≡ (
          if key == j
          then some (allow now' (or_full (make m.rate m.burst) (bucket m j))).1
          else bucket m j)
  unfolding middleware update_at
  bucket-middleware key now now' m j valid =
      by_entries (Dict.get m.visitors key) (Dict.get m.visitors j) refl refl
    where
      kept : Visitor → Visitor
      kept v = record v { last_seen = now }

      created : Visitor
      created = record { limiter = m.fresh; last_seen = now }

      by_entries :
          (r r' : Option Visitor)
          → Dict.get m.visitors key ≡ r
          → Dict.get m.visitors j ≡ r'
          → bucket (middleware limiters key now now' m).1 j ≡ (
              if key == j
              then some (allow now' (or_full (make m.rate m.burst) (bucket m j))).1
              else bucket m j)
      by_entries none none e e' =
          ground (arith, Dict.get-put m.visitors key created j, eq_iff key j)
      by_entries none (some u) e e' =
          ground
            (arith, Dict.get-put m.visitors key created j, eq_iff key j, valid.allocated j u e')
      by_entries (some v) none e e' =
          ground (arith, Dict.get-put m.visitors key (kept v) j, eq_iff key j)
      by_entries (some v) (some u) e e' = ground (
        arith,
        Dict.get-put m.visitors key (kept v) j,
        eq_iff key j,
        valid.distinct key j v u e e',
      )

  -- The parameters of the buckets stay as they are.
  pub middleware-rate :
      (key : String) (now now' : ℕ) (m : Manager Rate L)
      → ((middleware limiters key now now' m).1.rate ≡ m.rate)
        × ((middleware limiters key now now' m).1.burst ≡ m.burst)
  unfolding middleware
  middleware-rate key now now' m = ground arith

  pub new_manager-IsValid :
      (rate : Rate) (burst ttl : ℕ) (blank : ℕ → L)
      → IsValid (new_manager limiters rate burst ttl blank)
  unfolding new_manager Dict.get
  new_manager-IsValid rate burst ttl blank = record {
    allocated = λ j v e. cc;
    distinct = λ j k u v e e' same. cc;
  }
