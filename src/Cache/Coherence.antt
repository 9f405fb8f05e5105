-- ===== src/Cache/Coherence.antt =====
-- What Redis and the JSON encoding are relied on for by internal/cache/store.go, and when the cache
-- agrees with the rows of the next store.
use text.Mathlib.TextLemmas.{append_cancel_left}
use terraform_provider_viett.Prelude.{
  ℕ, String, ◌≡◌, ◌≢◌, ◌⊎◌, inl, inr, refl, ap, Option, none, some, arith,
}
use terraform_provider_viett.Go.{Failure, Result, ok, err}
use terraform_provider_viett.Server.{Server}
use terraform_provider_viett.Cache.{Redis, Codec, set_json, server_key}

-- A text is decoded to the value that it encodes.
pub record CodecLaws {A : Type 0} (codec : Codec A) : Type 0 where
  pub round : (v : A) (b : String) → codec.encode v ≡ ok b → codec.decode b ≡ ok v

-- `entries` is what a read of a key could return at best. Entries may expire at any time; a write that
-- reports an error may have taken place or not; no call changes the rows of the next store.
pub record RedisLaws {W : Type 0} (redis : Redis W) (entries : W → String → Option String)
    (rows : W → String → Option Server) : Type 0 where
  pub read_found : (w : W) (k b : String) → (redis.read k w).0 ≡ ok b → entries w k ≡ some b
  pub read-entries :
      (w : W) (k j b : String) → entries (redis.read k w).1 j ≡ some b → entries w j ≡ some b
  pub read-rows : (w : W) (k j : String) → rows (redis.read k w).1 j ≡ rows w j
  pub write_done :
      (w : W) (k b : String) (ttl : ℕ) (j c : String)
      → (redis.write k b ttl w).0 ≡ none
      → entries (redis.write k b ttl w).1 j ≡ some c
      → ((k ≡ j) × (c ≡ b)) ⊎ ((k ≢ j) × (entries w j ≡ some c))
  pub write-entries :
      (w : W) (k b : String) (ttl : ℕ) (j c : String)
      → entries (redis.write k b ttl w).1 j ≡ some c
      → ((k ≡ j) × (c ≡ b)) ⊎ (entries w j ≡ some c)
  pub write-rows :
      (w : W) (k b : String) (ttl : ℕ) (j : String) → rows (redis.write k b ttl w).1 j ≡ rows w j

-- Every entry for a server that a read could decode is the row of that server.
pub record Coherent {W : Type 0} (codec : Codec Server) (entries : W → String → Option String)
    (rows : W → String → Option Server) (w : W) : Type 0 where
  pub at :
      (id b : String) (v : Server)
      → entries w (server_key id) ≡ some b
      → codec.decode b ≡ ok v
      → rows w id ≡ some v

-- The same, but for one server.
pub record CoherentBut {W : Type 0} (codec : Codec Server) (entries : W → String → Option String)
    (rows : W → String → Option Server) (but : String) (w : W) : Type 0 where
  pub at :
      (id b : String) (v : Server)
      → but ≢ id
      → entries w (server_key id) ≡ some b
      → codec.decode b ≡ ok v
      → rows w id ≡ some v

-- Servers have different keys.
pub server_key_inj : (a b : String) → server_key a ≡ server_key b → a ≡ b
unfolding server_key
server_key_inj a b h = append_cancel_left "server:" a b h

ok_inj : {A : Type 0} (a b : A) → ok a ≡ ok b → a ≡ b
ok_inj a b h = cc

module _ {W : Type 0} (redis : Redis W) (codec : Codec Server) (ttl : ℕ)
    (entries : W → String → Option String) (rows : W → String → Option Server)
    (cache_laws : RedisLaws redis entries rows) (codec_laws : CodecLaws codec) where
  abbrev IsCoherent : W → Type 0
  IsCoherent = Coherent codec entries rows

  decoded :
      (v out : Server) (b c : String)
      → codec.encode out ≡ ok b
      → c ≡ b
      → codec.decode c ≡ ok v
      → v ≡ out
  decoded v out b c enc same dec = ground (arith, codec_laws.round out b enc)

  pub read-Coherent : (w : W) (k : String) → IsCoherent w → IsCoherent (redis.read k w).1
  read-Coherent w k h = record {
    at = λ id b v e d.
        rw (cache_laws.read-rows w k id)
          (h.at id b v (cache_laws.read-entries w k (server_key id) b e) d);
  }

  -- a new entry holds the row that was written
  new_entry :
      (w : W) (id id' b c : String) (v out : Server)
      → rows w id ≡ some out
      → codec.encode out ≡ ok b
      → server_key id ≡ server_key id'
      → c ≡ b
      → codec.decode c ≡ ok v
      → rows w id' ≡ some v
  new_entry w id id' b c v out row enc key same dec =
      cc (server_key_inj id id' key, decoded v out b c enc same dec)

  -- Writing the row of a server into a coherent cache keeps it coherent, whether the write succeeds
  -- or fails.
  pub fill-Coherent :
      (w : W) (id : String) (out : Server)
      → IsCoherent w
      → rows w id ≡ some out
      → IsCoherent (set_json redis codec (server_key id) out ttl w).1
  unfolding set_json
  fill-Coherent w id out h row = by_encoding (codec.encode out) refl
    where
      by_encoding :
          (r : Result String)
          → codec.encode out ≡ r
          → IsCoherent (set_json redis codec (server_key id) out ttl w).1
      by_encoding (err e) enc = rw (enc, set_json) h
      by_encoding (ok b) enc =
          rw (enc, set_json)
            (record {
              at = λ id' c v e d.
                  rw (cache_laws.write-rows w (server_key id) b ttl id')
                    (elim (cache_laws.write-entries w (server_key id) b ttl (server_key id') c e) [
                      | inl (key, same) ↦ new_entry w id id' b c v out row enc key same d
                      | inr old ↦ h.at id' c v old d
                    ]);
            })

  -- Writing the row of the one server that the cache may be wrong about makes it coherent, if the
  -- write succeeds.
  pub refresh-Coherent :
      (w : W) (id : String) (out : Server)
      → CoherentBut codec entries rows id w
      → rows w id ≡ some out
      → (set_json redis codec (server_key id) out ttl w).0 ≡ none
      → IsCoherent (set_json redis codec (server_key id) out ttl w).1
  unfolding set_json
  refresh-Coherent w id out h row = by_encoding (codec.encode out) refl
    where
      by_encoding :
          (r : Result String)
          → codec.encode out ≡ r
          → (set_json redis codec (server_key id) out ttl w).0 ≡ none
          → IsCoherent (set_json redis codec (server_key id) out ttl w).1
      by_encoding (err e) enc done = absurd (set_json_fails e enc done)
        where
          set_json_fails :
              (e : Failure)
              → codec.encode out ≡ err e
              → (set_json redis codec (server_key id) out ttl w).0 ≢ none
          set_json_fails e enc done = ground arith
      by_encoding (ok b) enc done =
          rw (enc, set_json)
            (record {
              at = λ id' c v e d.
                  rw (cache_laws.write-rows w (server_key id) b ttl id')
                    (elim (cache_laws.write_done w (server_key id) b ttl (server_key id') c
                      (written b enc done) e) [
                        | inl (key, same) ↦ new_entry w id id' b c v out row enc key same d
                        | inr (other, old) ↦ h.at id' c v (λ i. other (ap server_key i)) old d
                      ]);
            })
        where
          written :
              (b : String)
              → codec.encode out ≡ ok b
              → (set_json redis codec (server_key id) out ttl w).0 ≡ none
              → (redis.write (server_key id) b ttl w).0 ≡ none
          written b enc done = ground arith
