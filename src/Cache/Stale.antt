-- ===== src/Cache/Stale.antt =====
-- Two calls of internal/cache/store.go that overlap can leave the row of before an update in the cache.
use terraform_provider_viett.Prelude.{ℕ, String, ◌≡◌, ◌≢◌, sym, ap, ◌∙◌, inl, inr, none, some}
use terraform_provider_viett.Go.{Failure, Result, ok, err}
use terraform_provider_viett.Server.{Server}
use terraform_provider_viett.Cache.{Redis, set_json, get_json, server_key, remember, get, update}
use terraform_provider_viett.Cache.Through.{
  Deployment, looked_up, looked_up-Good, looked_up-rows, miss, hit, remembered, remember-rows,
}
use terraform_provider_viett.Server.Contract.{Assigns, IsUpdate}
use terraform_provider_viett.Cache.Keeps.{own_row}

-- As Redis documents SET and GET: what was just written is read back.
pub record Fresh {W : Type 0} (redis : Redis W) : Type 0 where
  pub reads_back :
      (w : W) (k b : String) (ttl : ℕ)
      → (redis.write k b ttl w).0 ≡ none
      → (redis.read k (redis.write k b ttl w).1).0 ≡ ok b

module _ {W : Type 0} (d : Deployment W) where
  open d use {next, redis, codec, ttl}

  -- a Get up to its read of the next store, the Update in between, and the rest of the Get
  abbrev pub first_half : String → W → Result Server × W
  first_half id w = next.get id (looked_up d id w)

  abbrev pub between : String → Server → W → Result Server × W
  between id v w = update next redis codec ttl id v (first_half id w).1

  abbrev pub second_half : String → Server → W → Result Server × W
  second_half id v w = remember next redis codec ttl id (first_half id w).0 (between id v w).1

module _ {W : Type 0} (d : Deployment W) (fresh : Fresh d.redis) where
  open d use {next, redis, codec, ttl, entries, rows, Good, store_laws, codec_laws}

  cached_value :
      (w : W) (id b : String) (v : Server)
      → codec.encode v ≡ ok b
      → (redis.write (server_key id) b ttl w).0 ≡ none
      → (get_json redis codec (server_key id) (remember next redis codec ttl id (ok v) w).1).0
        ≡ ok v
  unfolding get_json remember
  cached_value w id b v enc done =
      rw (enc, set_json)
        (rw (fresh.reads_back w (server_key id) b ttl done, get_json) (codec_laws.round v b enc))

  stale_entry :
      (w : W) (id b : String) (v old : Server)
      → Good w
      → rows w id ≡ some old
      → codec.encode old ≡ ok b
      → (redis.write (server_key id) b ttl (update next redis codec ttl id v w).1).0 ≡ none
      → (out : Server) × ((update next redis codec ttl id v w).0 ≡ ok out)
        × (rows
              (remember next redis codec ttl id (ok old) (update next redis codec ttl id v w).1).1
              id
            ≡ some out)
        × IsUpdate old v out
        × ((get next redis codec ttl id
              (remember next redis codec ttl id
                (ok old)
                (update next redis codec ttl id v w).1).1).0
            ≡ ok old)
  unfolding update
  stale_entry w id b v old g row enc done =
      let w1 = (next.update id v w).1 in
      let w2 = (update next redis codec ttl id v w).1 in
      let w3 = (remember next redis codec ttl id (ok old) w2).1 in
      let (out, replied, wrote, assigned) = store_laws.update_found w id v old g row in
      (
        out,
        remembered d id (next.update id v w).0 w1 ∙ replied,
        remember-rows d id (ok old) w2 id
            ∙ remember-rows d id (next.update id v w).0 w1 id
            ∙ own_row d w w1 id out wrote,
        assigned,
        ap (λ r. r.0) (hit d id w3 old (cached_value w2 id b old enc done)),
      )

  read_reply :
      (w : W) (id : String) (old : Server)
      → Good w
      → rows w id ≡ some old
      → (first_half d id w).0 ≡ ok old
  read_reply w id old g row =
      store_laws.get_found (looked_up d id w) id old (looked_up-Good d id w g)
        (looked_up-rows d id id w ∙ row)

  read_row :
      (w : W) (id : String) (old : Server)
      → Good w
      → rows w id ≡ some old
      → rows (first_half d id w).1 id ≡ some old
  read_row w id old g row =
      (store_laws.get-rows (looked_up d id w) id (looked_up-Good d id w g)).at id
      ∙ looked_up-rows d id id w
      ∙ row

  renamed : (old v out : Server) → IsUpdate old v out → v.name ≢ "" → v.name ≢ old.name → out ≢ old
  renamed old v out u filled other same = by_name u.name
    where
      by_name : Assigns v.name old.name out.name → ⊥
      by_name (inl e) = other (sym e ∙ ap (λ (s : Server). s.name) same)
      by_name (inr e) = filled e.0

  -- A Get misses the cache and reads a row; before it writes that to the cache, an Update gives the row
  -- another name, which is not empty. If the next store answers, the row has an encoding, and the Get then
  -- writes it to a Redis that reads back what was written, the next Get returns the row of before the
  -- update, although the next store has the row that Update returned, which is another one. Without the
  -- Update in between the two halves are one call of Get.
  pub stale_after_race :
      (w : W) (id b : String) (v old : Server) (e : Failure)
      → Good w
      → rows w id ≡ some old
      → (get_json redis codec (server_key id) w).0 ≡ err e
      → v.name ≢ ""
      → v.name ≢ old.name
      → codec.encode old ≡ ok b
      → (redis.write (server_key id) b ttl (between d id v w).1).0 ≡ none
      → (get next redis codec ttl id w
          ≡ remember next redis codec ttl id (first_half d id w).0 (first_half d id w).1)
        × ((second_half d id v w).0 ≡ ok old)
        × ((out : Server) × ((between d id v w).0 ≡ ok out)
            × (rows (second_half d id v w).1 id ≡ some out)
            × (out ≢ old)
            × ((get next redis codec ttl id (second_half d id v w).1).0 ≡ ok old))
  stale_after_race w id b v old e g row missed filled other enc done =
      let w1 = (first_half d id w).1 in
      let reply = read_reply w id old g row in
      let g1 = store_laws.get-Good (looked_up d id w) id (looked_up-Good d id w g) in
      let (out, replied, now, assigned, stale) =
        stale_entry w1 id b v old g1 (read_row w id old g row) enc done in
      (
        miss d id w e missed,
        remembered d id (first_half d id w).0 (between d id v w).1 ∙ reply,
        (
          out,
          replied,
          ap (λ r. rows (remember next redis codec ttl id r (between d id v w).1).1 id) reply ∙ now,
          renamed old v out assigned filled other,
          ap
                (λ r.
                  (get next redis codec ttl id
                    (remember next redis codec ttl id r (between d id v w).1).1).0)
                reply
              ∙ stale,
        ),
      )
