-- ===== src/Cache/Laws.antt =====
-- The store of internal/cache/store.go fulfils the contract of a store, if the next one does and the
-- cache can be written.
use terraform_provider_viett.Prelude.{ℕ, String, ◌≡◌, refl, ◌∙◌, none}
use terraform_provider_viett.Go.{Result, ok, err}
use terraform_provider_viett.Server.{Server}
use terraform_provider_viett.Server.Contract.{StoreLaws, SameRows}
use terraform_provider_viett.Cache.{
  set_json, get_json, server_key, remember_created, create, get, update, cached_store,
}
use terraform_provider_viett.Cache.Through.{
  Deployment, IsCoherent, looked_up, looked_up-rows, looked_up-Good, remembered, remember-rows,
  remember-Good, miss, hit, get_present, get_absent,
}
use terraform_provider_viett.Cache.Keeps.{get-Coherent, create-Coherent, update-Coherent}

-- The next store answers and the cache agrees with it.
pub record InStep {W : Type 0} (d : Deployment W) (w : W) : Type 0 where
  pub good : d.Good w
  pub coherent : IsCoherent d w

-- The cache takes every write, and every server has an encoding.
pub record Writable {W : Type 0} (d : Deployment W) : Type 0 where
  pub written : (w : W) (k b : String) (ttl : ℕ) → (d.redis.write k b ttl w).0 ≡ none
  pub encoded : (v : Server) → (b : String) × (d.codec.encode v ≡ ok b)

module _ {W : Type 0} (d : Deployment W) (writable : Writable d) where
  open d use {
    next, redis, codec, ttl, entries, rows, Good, store_laws, cache_laws, codec_laws, apart,
  }

  stored :
      (w : W) (id : String) (out : Server)
      → (set_json redis codec (server_key id) out ttl w).0 ≡ none
  unfolding set_json
  stored w id out =
      let (b, enc) = writable.encoded out in
      rw (enc, set_json) (writable.written w (server_key id) b ttl)

  get-rows : (w : W) (id : String) → Good w → SameRows rows w (get next redis codec ttl id w).1
  get-rows w id g = by_cache ((get_json redis codec (server_key id) w).0) refl
    where
      w1 : W
      w1 = looked_up d id w

      by_cache :
          (r : Result Server)
          → (get_json redis codec (server_key id) w).0 ≡ r
          → SameRows rows w (get next redis codec ttl id w).1
      by_cache (ok v) e = rw (hit d id w v e) (record { at = λ j. looked_up-rows d id j w })
      by_cache (err f) e = rw (miss d id w f e) (record {
        at = λ j.
            remember-rows d id (next.get id w1).0 (next.get id w1).1 j
            ∙ (store_laws.get-rows w1 id (looked_up-Good d id w g)).at j
            ∙ looked_up-rows d id j w;
      })

  get-Good : (w : W) (id : String) → Good w → Good (get next redis codec ttl id w).1
  get-Good w id g = by_cache ((get_json redis codec (server_key id) w).0) refl
    where
      w1 : W
      w1 = looked_up d id w

      by_cache :
          (r : Result Server)
          → (get_json redis codec (server_key id) w).0 ≡ r
          → Good (get next redis codec ttl id w).1
      by_cache (ok v) e = rw (hit d id w v e) (looked_up-Good d id w g)
      by_cache (err f) e = rw (miss d id w f e) (
          remember-Good d id (next.get id w1).0 (next.get id w1).1
            (store_laws.get-Good w1 id (looked_up-Good d id w g)))

  created_reply :
      (out : Result Server) (w : W) → (remember_created next redis codec ttl out w).0 ≡ out
  unfolding remember_created
  created_reply (err e) w = refl
  created_reply (ok v) w = remembered d v.id (ok v) w

  created-rows :
      (out : Result Server) (w : W) (j : String)
      → rows (remember_created next redis codec ttl out w).1 j ≡ rows w j
  unfolding remember_created
  created-rows (err e) w j = refl
  created-rows (ok v) w j = remember-rows d v.id (ok v) w j

  created-Good :
      (out : Result Server) (w : W) → Good w → Good (remember_created next redis codec ttl out w).1
  unfolding remember_created
  created-Good (err e) w g = g
  created-Good (ok v) w g = remember-Good d v.id (ok v) w g

  -- Over a store that fulfils the contract, with a cache that takes every write, the cached store
  -- fulfils the contract on the same rows: no client can tell that there is a cache.
  pub cached_store-laws : StoreLaws (cached_store next redis codec ttl) rows (InStep d)
  unfolding update create
  cached_store-laws = record {
    get_found = λ w id v s h. get_present d w id v s.good s.coherent h;
    get_missing = λ w id s h. get_absent d w id s.good s.coherent h;
    get-rows = λ w id s. get-rows w id s.good;
    get-Good = λ w id s. record {
      good = get-Good w id s.good;
      coherent = get-Coherent d w id s.good s.coherent;
    };
    update_found = λ w id v old s h.
        let (got, replied, wrote, is_update) = store_laws.update_found w id v old s.good h in
        (
          got,
          remembered d id (next.update id v w).0 (next.update id v w).1 ∙ replied,
          record {
            at = λ j.
                remember-rows d id (next.update id v w).0 (next.update id v w).1 j ∙ wrote.at j;
          },
          is_update,
        );
    update_missing = λ w id v s h.
        let (e, failed, same) = store_laws.update_missing w id v s.good h in
        (
          e,
          remembered d id (next.update id v w).0 (next.update id v w).1 ∙ failed,
          record {
            at =
                λ j. remember-rows d id (next.update id v w).0 (next.update id v w).1 j ∙ same.at j;
          },
        );
    update-Good = λ w id v s. record {
      good =
          remember-Good d id (next.update id v w).0 (next.update id v w).1
            (store_laws.update-Good w id v s.good);
      coherent =
          update-Coherent d w id v s.good s.coherent
            (λ out _. stored (next.update id v w).1 id out);
    };
    create_new = λ w v s h.
        let (got, replied, wrote, is_created) = store_laws.create_new w v s.good h in
        (
          got,
          created_reply (next.create v w).0 (next.create v w).1 ∙ replied,
          record { at = λ j. created-rows (next.create v w).0 (next.create v w).1 j ∙ wrote.at j },
          is_created,
        );
    create_existing = λ w v old s h.
        let (e, failed, same) = store_laws.create_existing w v old s.good h in
        (
          e,
          created_reply (next.create v w).0 (next.create v w).1 ∙ failed,
          record { at = λ j. created-rows (next.create v w).0 (next.create v w).1 j ∙ same.at j },
        );
    create-Good = λ w v s. record {
      good =
          created-Good (next.create v w).0 (next.create v w).1 (store_laws.create-Good w v s.good);
      coherent = create-Coherent d w v s.good s.coherent;
    };
  }
