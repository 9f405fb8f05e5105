-- ===== src/Cache/Keeps.antt =====
-- Each operation of internal/cache/store.go keeps the cache coherent with the next store.
use terraform_provider_viett.Prelude.{
  String, ◌≡◌, ◌≢◌, refl, ap, ◌∙◌, Option, none, some, eq_refl, ==-ne,
}
use terraform_provider_viett.Go.{Result, ok, err}
use terraform_provider_viett.Server.{Server}
use terraform_provider_viett.Server.Contract.{Wrote, SameRows}
use terraform_provider_viett.Cache.{
  set_json, get_json, server_key, remember, remember_created, create, get, update, list,
}
use terraform_provider_viett.Cache.Coherence.{CoherentBut, refresh-Coherent}
use terraform_provider_viett.Cache.Through.{
  Deployment, IsCoherent, looked_up, looked_up-Coherent, looked_up-Good, SameRows-Coherent,
  remember-Coherent, miss, hit,
}

module _ {W : Type 0} (d : Deployment W) where
  open d use {
    next, redis, codec, ttl, entries, rows, Good, store_laws, cache_laws, codec_laws, apart,
  }

  -- If the next store answers as its contract says and the cache is coherent, Get keeps it
  -- coherent, whether or not the calls of Redis succeed.
  pub get-Coherent :
      (w : W) (id : String)
      → Good w
      → IsCoherent d w
      → IsCoherent d (get next redis codec ttl id w).1
  unfolding remember
  get-Coherent w id g h = by_cache ((get_json redis codec (server_key id) w).0) refl
    where
      w1 : W
      w1 = looked_up d id w

      h1 : IsCoherent d w1
      h1 = looked_up-Coherent d id w h

      g1 : Good w1
      g1 = looked_up-Good d id w g

      w2 : W
      w2 = (next.get id w1).1

      same : SameRows rows w1 w2
      same = store_laws.get-rows w1 id g1

      h2 : IsCoherent d w2
      h2 = SameRows-Coherent d w1 w2 same (apart.get-entries w1 id) h1

      by_row :
          (row : Option Server)
          → rows w1 id ≡ row
          → IsCoherent d (remember next redis codec ttl id (next.get id w1).0 w2).1
      by_row none e = rw ((store_laws.get_missing w1 id g1 e).1, remember) h2
      by_row (some v) e =
          rw (store_laws.get_found w1 id v g1 e) (remember-Coherent d id v w2 h2 (same.at id ∙ e))

      by_cache :
          (r : Result Server)
          → (get_json redis codec (server_key id) w).0 ≡ r
          → IsCoherent d (get next redis codec ttl id w).1
      by_cache (ok v) e = rw (hit d id w v e) h1
      by_cache (err f) e = rw (miss d id w f e) (by_row (rows w1 id) refl)

  -- A list of servers is not cached, so List is that of the next store.
  pub list_lem : (w : W) → list next redis codec ttl w ≡ next.list w
  unfolding list
  list_lem w = refl

  pub other_row :
      (w w1 : W) (id j : String) (got : Server)
      → Wrote rows id got w w1
      → id ≢ j
      → rows w1 j ≡ rows w j
  other_row w w1 id j got wrote ne = rw (wrote.at j, ==-ne id j ne) refl

  pub own_row :
      (w w1 : W) (id : String) (got : Server) → Wrote rows id got w w1 → rows w1 id ≡ some got
  own_row w w1 id got wrote = rw (wrote.at id, eq_refl id) refl

  -- After a write of one row the cache can be wrong about that row only.
  written-CoherentBut :
      (w w1 : W) (id : String) (got : Server)
      → Wrote rows id got w w1
      → ((j c : String) → entries w1 j ≡ some c → entries w j ≡ some c)
      → IsCoherent d w
      → CoherentBut codec entries rows id w1
  written-CoherentBut w w1 id got wrote fewer h = record {
    at = λ j b u ne entry decoded.
        other_row w w1 id j got wrote ne ∙ h.at j b u (fewer (server_key j) b entry) decoded;
  }

  -- If there was no such row before, it cannot be wrong at all.
  new_row-Coherent :
      (w w1 : W) (id : String) (got : Server)
      → Wrote rows id got w w1
      → ((j c : String) → entries w1 j ≡ some c → entries w j ≡ some c)
      → rows w id ≡ none
      → IsCoherent d w
      → IsCoherent d w1
  new_row-Coherent w w1 id got wrote fewer absent h = record {
    at = λ j b u entry decoded.
        let before = h.at j b u (fewer (server_key j) b entry) decoded in
        other_row w w1 id j got wrote (λ i. cc (ap (rows w) i, absent, before)) ∙ before;
  }

  -- If the next store answers as its contract says and the cache is coherent, Create keeps it
  -- coherent, whether or not the calls of Redis succeed.
  pub create-Coherent :
      (w : W) (v : Server)
      → Good w
      → IsCoherent d w
      → IsCoherent d (create next redis codec ttl v w).1
  unfolding create remember_created
  create-Coherent w v g h = by_row (rows w v.id) refl
    where
      w1 : W
      w1 = (next.create v w).1

      by_row :
          (row : Option Server)
          → rows w v.id ≡ row
          → IsCoherent d (remember_created next redis codec ttl (next.create v w).0 w1).1
      by_row (some old) e =
          let (f, failed, same) = store_laws.create_existing w v old g e in
          rw failed (SameRows-Coherent d w w1 same (apart.create-entries w v) h)
      by_row none e =
          let (got, replied, wrote, created) = store_laws.create_new w v g e in
          rw replied (
            remember-Coherent d got.id got w1
              (new_row-Coherent w w1 v.id got wrote (apart.create-entries w v) e h)
              (ap (rows w1) created.id ∙ own_row w w1 v.id got wrote))

  -- If the next store answers as its contract says and the cache is coherent, Update keeps it
  -- coherent, provided that the row which Update got back could be written to the cache.
  pub update-Coherent :
      (w : W) (id : String) (v : Server)
      → Good w
      → IsCoherent d w
      → ((out : Server)
          → (next.update id v w).0 ≡ ok out
          → (set_json redis codec (server_key id) out ttl (next.update id v w).1).0 ≡ none)
      → IsCoherent d (update next redis codec ttl id v w).1
  unfolding update remember
  update-Coherent w id v g h stored = by_row (rows w id) refl
    where
      w1 : W
      w1 = (next.update id v w).1

      by_row :
          (row : Option Server)
          → rows w id ≡ row
          → IsCoherent d (remember next redis codec ttl id (next.update id v w).0 w1).1
      by_row none e =
          let (f, failed, same) = store_laws.update_missing w id v g e in
          rw failed (SameRows-Coherent d w w1 same (apart.update-entries w id v) h)
      by_row (some old) e =
          let (got, replied, wrote, _) = store_laws.update_found w id v old g e in
          rw replied (
            refresh-Coherent redis codec ttl entries rows cache_laws codec_laws w1 id got
              (written-CoherentBut w w1 id got wrote (apart.update-entries w id v) h)
              (own_row w w1 id got wrote) (stored got replied))
