-- ===== src/Cache/Through.antt =====
-- The store of internal/cache/store.go over a store that fulfils the contract: each operation, on each
-- branch, keeps the cache coherent, and Get returns the row.
use terraform_provider_viett.Prelude.{ℕ, String, ◌≡◌, refl, ◌∙◌, Option, none, some, arith}
use terraform_provider_viett.Go.{Failure, Result, ok, err}
use terraform_provider_viett.Server.{Server, Store}
use terraform_provider_viett.Server.Contract.{StoreLaws, SameRows}
use terraform_provider_viett.Cache.{Redis, Codec, set_json, get_json, server_key, remember, get}
use terraform_provider_viett.Cache.Coherence.{
  CodecLaws, RedisLaws, Coherent, read-Coherent, fill-Coherent,
}

-- The next store and Redis are apart: the calls of the one leave the state of the other as it is, but
-- that entries may expire meanwhile.
pub record Apart {W : Type 0} (next : Store W) (redis : Redis W)
    (entries : W → String → Option String) (Good : W → Type 0) : Type 0 where
  pub get-entries :
      (w : W) (id j c : String) → entries (next.get id w).1 j ≡ some c → entries w j ≡ some c
  pub update-entries :
      (w : W) (id : String) (v : Server) (j c : String)
      → entries (next.update id v w).1 j ≡ some c
      → entries w j ≡ some c
  pub create-entries :
      (w : W) (v : Server) (j c : String)
      → entries (next.create v w).1 j ≡ some c
      → entries w j ≡ some c
  pub read-Good : (w : W) (k : String) → Good w → Good (redis.read k w).1
  pub write-Good : (w : W) (k b : String) (ttl : ℕ) → Good w → Good (redis.write k b ttl w).1

-- A cached store, what its parts are relied on for, and how their states are observed.
pub record Deployment (W : Type 0) : Type 1 where
  pub next : Store W
  pub redis : Redis W
  pub codec : Codec Server
  pub ttl : ℕ
  pub entries : W → String → Option String
  pub rows : W → String → Option Server
  pub Good : W → Type 0
  pub store_laws : StoreLaws next rows Good
  pub cache_laws : RedisLaws redis entries rows
  pub codec_laws : CodecLaws codec
  pub apart : Apart next redis entries Good

module _ {W : Type 0} (d : Deployment W) where
  open d use {
    next, redis, codec, ttl, entries, rows, Good, store_laws, cache_laws, codec_laws, apart,
  }

  abbrev pub IsCoherent : W → Type 0
  IsCoherent = Coherent codec entries rows

  -- the state after the lookup in the cache
  abbrev pub looked_up : String → W → W
  looked_up id w = (get_json redis codec (server_key id) w).1

  looked_up_lem : (id : String) (w : W) → looked_up id w ≡ (redis.read (server_key id) w).1
  unfolding get_json
  looked_up_lem id w = ground arith

  pub looked_up-Coherent : (id : String) (w : W) → IsCoherent w → IsCoherent (looked_up id w)
  looked_up-Coherent id w h =
      rw looked_up_lem
        (read-Coherent redis codec ttl entries rows cache_laws codec_laws w (server_key id) h)

  pub looked_up-rows : (id j : String) (w : W) → rows (looked_up id w) j ≡ rows w j
  looked_up-rows id j w = rw looked_up_lem (cache_laws.read-rows w (server_key id) j)

  pub looked_up-Good : (id : String) (w : W) → Good w → Good (looked_up id w)
  looked_up-Good id w g = rw looked_up_lem (apart.read-Good w (server_key id) g)

  hit_parts :
      (id : String) (w : W) (v : Server)
      → (get_json redis codec (server_key id) w).0 ≡ ok v
      → (b : String) × ((redis.read (server_key id) w).0 ≡ ok b) × (codec.decode b ≡ ok v)
  unfolding get_json
  hit_parts id w v h = ground arith

  -- What the cache returns is the row.
  hit-rows :
      (id : String) (w : W) (v : Server)
      → IsCoherent w
      → (get_json redis codec (server_key id) w).0 ≡ ok v
      → rows w id ≡ some v
  hit-rows id w v h hit =
      let (b, found, decoded) = hit_parts id w v hit in
      h.at id b v (cache_laws.read_found w (server_key id) b found) decoded

  -- An operation of the next store that leaves the rows as they are
  pub SameRows-Coherent :
      (w w' : W)
      → SameRows rows w w'
      → ((j c : String) → entries w' j ≡ some c → entries w j ≡ some c)
      → IsCoherent w
      → IsCoherent w'
  SameRows-Coherent w w' same fewer h = record {
    at = λ id b v e d. rw (same.at id) (h.at id b v (fewer (server_key id) b e) d);
  }

  pub remember-Coherent :
      (id : String) (out : Server) (w : W)
      → IsCoherent w
      → rows w id ≡ some out
      → IsCoherent (remember next redis codec ttl id (ok out) w).1
  unfolding remember
  remember-Coherent id out w h row =
      fill-Coherent redis codec ttl entries rows cache_laws codec_laws w id out h row

  pub miss :
      (id : String) (w : W) (e : Failure)
      → (get_json redis codec (server_key id) w).0 ≡ err e
      → get next redis codec ttl id w
        ≡ remember next redis codec ttl id
            (next.get id (looked_up id w)).0
            (next.get id (looked_up id w)).1
  unfolding get
  miss id w e h = ground arith

  pub hit :
      (id : String) (w : W) (v : Server)
      → (get_json redis codec (server_key id) w).0 ≡ ok v
      → get next redis codec ttl id w ≡ (ok v, looked_up id w)
  unfolding get
  hit id w v h = ground arith

  pub remembered :
      (id : String) (out : Result Server) (w : W) → (remember next redis codec ttl id out w).0 ≡ out
  unfolding remember
  remembered id out w = ground arith

  -- If the next store answers as its contract says and the cache is coherent, Get returns the row
  -- of a server that has one, whether it comes from the cache or from the next store.
  pub get_present :
      (w : W) (id : String) (v : Server)
      → Good w
      → IsCoherent w
      → rows w id ≡ some v
      → (get next redis codec ttl id w).0 ≡ ok v
  get_present w id v g h row = by_cache ((get_json redis codec (server_key id) w).0) refl
    where
      by_cache :
          (r : Result Server)
          → (get_json redis codec (server_key id) w).0 ≡ r
          → (get next redis codec ttl id w).0 ≡ ok v
      by_cache (ok v') e = cc (hit id w v' e, hit-rows id w v' h e)
      by_cache (err e') e = rw (miss id w e' e) (
          remembered id (next.get id (looked_up id w)).0 (next.get id (looked_up id w)).1
          ∙ store_laws.get_found (looked_up id w) id v (looked_up-Good id w g)
              (looked_up-rows id id w ∙ row))

  -- Under the same conditions Get fails for a server that has no row.
  pub get_absent :
      (w : W) (id : String)
      → Good w
      → IsCoherent w
      → rows w id ≡ none
      → (e : Failure) × ((get next redis codec ttl id w).0 ≡ err e)
  get_absent w id g h row = by_cache ((get_json redis codec (server_key id) w).0) refl
    where
      by_cache :
          (r : Result Server)
          → (get_json redis codec (server_key id) w).0 ≡ r
          → (e : Failure) × ((get next redis codec ttl id w).0 ≡ err e)
      by_cache (ok v') e = cc (hit-rows id w v' h e)
      by_cache (err e') e =
          let (f, failed) =
            store_laws.get_missing (looked_up id w) id (looked_up-Good id w g)
              (looked_up-rows id id w ∙ row) in
          (
            f,
            rw (miss id w e' e) (
                remembered id (next.get id (looked_up id w)).0 (next.get id (looked_up id w)).1
                ∙ failed),
          )

  -- Remembering a result changes neither the rows nor what the next store can answer.
  pub remember-rows :
      (id : String) (out : Result Server) (w : W) (j : String)
      → rows (remember next redis codec ttl id out w).1 j ≡ rows w j
  unfolding remember
  remember-rows id (err e) w j = refl
  remember-rows id (ok out) w j = by_encoding (codec.encode out) refl
    where
      by_encoding :
          (r : Result String)
          → codec.encode out ≡ r
          → rows (remember next redis codec ttl id (ok out) w).1 j ≡ rows w j
      by_encoding (err e) enc = rw (enc, set_json)
      by_encoding (ok b) enc = rw (enc, set_json) (cache_laws.write-rows w (server_key id) b ttl j)

  pub remember-Good :
      (id : String) (out : Result Server) (w : W)
      → Good w
      → Good (remember next redis codec ttl id out w).1
  unfolding remember
  remember-Good id (err e) w g = g
  remember-Good id (ok out) w g = by_encoding (codec.encode out) refl
    where
      by_encoding :
          (r : Result String)
          → codec.encode out ≡ r
          → Good (remember next redis codec ttl id (ok out) w).1
      by_encoding (err e) enc = rw (enc, set_json) g
      by_encoding (ok b) enc = rw (enc, set_json) (apart.write-Good w (server_key id) b ttl g)
