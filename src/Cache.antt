-- ===== src/Cache.antt =====
-- internal/cache: the JSON cache over Redis (redis.go) and the store that reads and writes through it
-- (store.go). Redis and the JSON encoding are parameters. Warnings are logged and have no other
-- effect, so the log is left out.
pub mod Coherence
pub mod Through
pub mod Keeps
pub mod Laws
pub mod Stale
use Prim.Native.String.{◌++◌ as append_text}
use terraform_provider_viett.Prelude.{ℕ, String, Option, none, some, List}
use terraform_provider_viett.Go.{Failure, Result, ok, err, Act, Proc}
use terraform_provider_viett.Server.{Server, Store}

-- the calls of the Redis client: Get, Set with a time to live, Del and Ping
pub record Redis (W : Type 0) : Type 0 where
  pub read : String → Act W String
  pub write : String → String → ℕ → Proc W
  pub drop : String → Proc W
  pub check : Proc W

-- json.Marshal and json.Unmarshal at the type of a value
pub record Codec (A : Type 0) : Type 0 where
  pub encode : A → Result String
  pub decode : String → Result A

module _ {W : Type 0} (redis : Redis W) where
  -- Cache.Ping
  unfoldable pub ping : Proc W
  ping = redis.check

  -- Cache.Delete
  unfoldable pub delete : String → Proc W
  delete key = redis.drop key

  module _ {A : Type 0} (codec : Codec A) where
    -- Cache.SetJSON
    unfoldable pub set_json : String → A → ℕ → Proc W
    set_json key v ttl w = elim (codec.encode v) [
      | err e ↦ (some e, w)
      | ok b ↦ redis.write key b ttl w
    ]

    -- Cache.GetJSON
    unfoldable pub get_json : String → Act W A
    get_json key w =
        let (found, w') = redis.read key w in
        elim found [ err e ↦ (err e, w') | ok b ↦ (codec.decode b, w') ]

-- serverKey
unfoldable pub server_key : String → String
server_key id = append_text "server:" id

module _ {W : Type 0} (next : Store W) (redis : Redis W) (codec : Codec Server) (ttl : ℕ) where
  -- A result of the next store is written to the cache under a key; a failure of that is ignored.
  unfoldable pub remember : String → Result Server → W → Result Server × W
  unfolding set_json server_key
  remember id (err e) w = (err e, w)
  remember id (ok out) w = (ok out, (set_json redis codec (server_key id) out ttl w).1)

  -- the id under which Create writes to the cache is that of the row it got back
  unfoldable pub remember_created : Result Server → W → Result Server × W
  unfolding remember
  remember_created (err e) w = (err e, w)
  remember_created (ok out) w = remember out.id (ok out) w

  -- (*ServerStore).Create
  unfoldable pub create : Server → Act W Server
  unfolding remember_created
  create v w = let (out, w') = next.create v w in remember_created out w'

  -- (*ServerStore).Get
  unfoldable pub get : String → Act W Server
  unfolding get_json remember
  get id w =
      let (cached, w') = get_json redis codec (server_key id) w in
      elim cached [
        | ok v ↦ (ok v, w')
        | err _ ↦ let (out, w'') = next.get id w' in remember id out w''
      ]

  -- (*ServerStore).Update
  unfoldable pub update : String → Server → Act W Server
  unfolding remember
  update id v w = let (out, w') = next.update id v w in remember id out w'

  -- (*ServerStore).List
  unfoldable pub list : Act W (List Server)
  list w = next.list w

  -- *ServerStore as a server.Store
  abbrev pub cached_store : Store W
  cached_store = record { create = create; get = get; update = update; list = list }
