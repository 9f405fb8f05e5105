-- ===== src/Tests/Cache.antt =====
-- internal/cache over the store in memory and a Redis that never loses an entry. The encoding knows the
-- servers of which only the id is set.
use terraform_provider_viett.Prelude.{
  ◌&&◌, String, ◌≡◌, ◌≢◌, refl, Bool, true, Option, none, some, [], ◌∷◌, arith, num_eq, eq_iff,
  eq_refl, sym, ◌==◌, if◌then◌else◌,
}
use terraform_provider_viett.Go.{external, Result, ok, err}
use terraform_provider_viett.Go.Dict
use terraform_provider_viett.Server.{
  Server, Store, MemoryStore, memory_store, memory_get, memory_update, store_now,
}
use terraform_provider_viett.Server.Contract.{StoreLaws}
use terraform_provider_viett.Server.Memory.{memory_rows, memory_store-laws}
use terraform_provider_viett.Cache.{
  Redis, Codec, set_json, get_json, server_key, get, update, remember,
}
use terraform_provider_viett.Cache.Coherence.{CodecLaws, RedisLaws}
use terraform_provider_viett.Cache.Through.{Deployment, IsCoherent, get_present}
use terraform_provider_viett.Cache.Keeps.{get-Coherent, update-Coherent}
use terraform_provider_viett.Cache.Stale.{Fresh, between, second_half, stale_after_race}

abbrev World : Type 0
World = MemoryStore × (String → Option String)

abbrev beside : {A : Type 0} → Result A × MemoryStore → (String → Option String) → Result A × World
beside (out, s) entries = (out, (s, entries))

abbrev beside_store : Store World
beside_store = record {
  create = λ v w. beside (memory_store.create v w.0) w.1;
  get = λ id w. beside (memory_store.get id w.0) w.1;
  update = λ id v w. beside (memory_store.update id v w.0) w.1;
  list = λ w. beside (memory_store.list w.0) w.1;
}

abbrev beside_rows : World → String → Option Server
beside_rows w = memory_rows w.0

abbrev Anything : World → Type 0
Anything w = Unit

beside_laws : StoreLaws beside_store beside_rows Anything
beside_laws = record {
  get_found = λ w id v g h. memory_store-laws.get_found w.0 id v tt h;
  get_missing = λ w id g h. memory_store-laws.get_missing w.0 id tt h;
  get-rows = λ w id g. record { at = (memory_store-laws.get-rows w.0 id tt).at };
  get-Good = λ w id g. tt;
  update_found = λ w id v old g h.
      let (got, replied, wrote, same) = memory_store-laws.update_found w.0 id v old tt h in
      (got, replied, record { at = wrote.at }, same);
  update_missing = λ w id v g h.
      let (e, failed, same) = memory_store-laws.update_missing w.0 id v tt h in
      (e, failed, record { at = same.at });
  update-Good = λ w id v g. tt;
  create_new = λ w v g h.
      let (got, replied, wrote, same) = memory_store-laws.create_new w.0 v tt h in
      (got, replied, record { at = wrote.at }, same);
  create_existing = λ w v old g h.
      let (e, failed, same) = memory_store-laws.create_existing w.0 v old tt h in
      (e, failed, record { at = same.at });
  create-Good = λ w v g. tt;
}

abbrev entry_result : Option String → Result String
entry_result none = err (external "redis: nil")
entry_result (some b) = ok b

abbrev sure_redis : Redis World
sure_redis = record {
  read = λ k w. (entry_result (w.1 k), w);
  write = λ k b ttl w. (none, (w.0, λ j. if k == j then some b else w.1 j));
  drop = λ k w. (none, (w.0, λ j. if k == j then none else w.1 j));
  check = λ w. (none, w);
}

abbrev sure_entries : World → String → Option String
sure_entries w = w.1

read_entry : (o : Option String) (b : String) → entry_result o ≡ ok b → o ≡ some b
read_entry none b h = cc
read_entry (some c) b h = cc

sure_redis-laws : RedisLaws sure_redis sure_entries beside_rows
sure_redis-laws = record {
  read_found = λ w k b h. read_entry (w.1 k) b h;
  read-entries = λ w k j b h. h;
  read-rows = λ w k j. refl;
  write_done = λ w k b ttl j c done h. ground (arith, eq_iff k j);
  write-entries = λ w k b ttl j c h. ground (arith, eq_iff k j);
  write-rows = λ w k b ttl j. refl;
}

abbrev bare : String → Server
bare id = record { id = id; name = ""; address = ""; status = ""; updated_at = 0 }

unfoldable is_bare : Server → Bool
is_bare v = (v.name == "") && (v.address == "") && (v.status == "") && num_eq v.updated_at 0

abbrev bare_codec : Codec Server
bare_codec = record {
  encode = λ v. if is_bare v then ok v.id else err (external "json");
  decode = λ b. ok (bare b);
}

is_bare_lem : (v : Server) → is_bare v ≡ true → v ≡ bare v.id
unfolding is_bare
is_bare_lem v h = ground (arith, eq_iff v.name "", eq_iff v.address "", eq_iff v.status "")

bare_codec-laws : CodecLaws bare_codec
bare_codec-laws = record { round = λ v b h. ground (arith, is_bare_lem v) }

abbrev test_deployment : Deployment World
test_deployment = record {
  next = beside_store;
  redis = sure_redis;
  codec = bare_codec;
  ttl = 300;
  entries = sure_entries;
  rows = beside_rows;
  Good = Anything;
  store_laws = beside_laws;
  cache_laws = sure_redis-laws;
  codec_laws = bare_codec-laws;
  apart = record {
    get-entries = λ w id j c h. h;
    update-entries = λ w id v j c h. h;
    create-entries = λ w v j c h. h;
    read-Good = λ w k g. tt;
    write-Good = λ w k b ttl g. tt;
  };
}

-- one server, and no entry in the cache
abbrev cold : World
cold = (record { data_by_id = ("web", bare "web") ∷ []; times = λ n. n; reads = 0 }, λ k. none)

cold-IsCoherent : IsCoherent test_deployment cold
cold-IsCoherent = record { at = λ id b v h decoded. cc }

get_present_example : (get beside_store sure_redis bare_codec 300 "web" cold).0 ≡ ok (bare "web")
unfolding Dict.get
get_present_example = get_present test_deployment cold "web" (bare "web") tt cold-IsCoherent refl

get-Coherent_example :
    IsCoherent test_deployment (get beside_store sure_redis bare_codec 300 "web" cold).1
get-Coherent_example = get-Coherent test_deployment cold "web" tt cold-IsCoherent

bare_kept : (out : Server) → ok (bare "web") ≡ ok out → bare "web" ≡ out
bare_kept out h = cc

update-Coherent_example :
    IsCoherent test_deployment
      (update beside_store sure_redis bare_codec 300 "web" (bare "") cold).1
unfolding memory_update store_now Dict.get set_json server_key is_bare
update-Coherent_example =
    update-Coherent test_deployment cold "web" (bare "") tt cold-IsCoherent
      (λ out h. transport_none out (bare_kept out h))
  where
    transport_none :
        (out : Server)
        → bare "web" ≡ out
        → (set_json sure_redis bare_codec
            (server_key "web")
            out
            300
            (beside_store.update "web" (bare "") cold).1).0
          ≡ none
    transport_none out e = rw (sym e) refl

sure_redis-Fresh : Fresh sure_redis
sure_redis-Fresh = record { reads_back = λ w k b ttl done. ground (arith, eq_refl k) }

abbrev renamed : Server
renamed = record (bare "web") { name = "renamed" }

stale_after_race_example :
    (get beside_store sure_redis bare_codec 300 "web" cold
      ≡ remember beside_store sure_redis bare_codec 300 "web" (ok (bare "web")) cold)
    × ((second_half test_deployment "web" renamed cold).0 ≡ ok (bare "web"))
    × ((out : Server) × ((between test_deployment "web" renamed cold).0 ≡ ok out)
        × (beside_rows (second_half test_deployment "web" renamed cold).1 "web" ≡ some out)
        × (out ≢ bare "web")
        × ((get beside_store sure_redis bare_codec 300 "web"
              (second_half test_deployment "web" renamed cold).1).0
            ≡ ok (bare "web")))
unfolding is_bare Dict.get get_json memory_get
stale_after_race_example =
    stale_after_race test_deployment sure_redis-Fresh cold "web" "web" renamed (bare "web")
      (external "redis: nil") tt refl refl (λ e. cc) (λ e. cc) refl refl
