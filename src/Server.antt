-- ===== src/Server.antt =====
-- internal/server/model.go: a monitored server, the interface of a store of servers, and the store
-- in memory. An `UpdatedAt` is a number of nanoseconds since Go's zero time.
pub mod Contract
pub mod Memory
use terraform_provider_viett.Prelude.{ℕ, ◌+◌, String, Option, none, some, List, []}
use terraform_provider_viett.Go.{Failure, server_exists, server_not_found, Result, ok, err, Act}
use terraform_provider_viett.Go.Dict
use terraform_provider_viett.Go.Dict.{Dict}

pub record Server : Type 0 where
  pub id : String
  pub name : String
  pub address : String
  pub status : String
  pub updated_at : ℕ

-- Server{}
abbrev pub zero_server : Server
zero_server = record { id = ""; name = ""; address = ""; status = ""; updated_at = 0 }

-- the interface Store
pub record Store (W : Type 0) : Type 0 where
  pub create : Server → Act W Server
  pub get : String → Act W Server
  pub update : String → Server → Act W Server
  pub list : Act W (List Server)

-- `times n` is what reading number n of the clock gives: any function, since the program does not
-- choose it.
pub record MemoryStore : Type 0 where
  pub data_by_id : Dict Server
  pub times : ℕ → ℕ
  pub reads : ℕ

-- NewMemoryStore
unfoldable pub new_memory_store : (ℕ → ℕ) → MemoryStore
new_memory_store times = record { data_by_id = []; times = times; reads = 0 }

-- time.Now()
unfoldable pub time_now : MemoryStore → ℕ × MemoryStore
time_now s = (s.times s.reads, record s { reads = s.reads + 1 })

-- s.data[v.ID] = v with the time of the clock; the result is what was stored
unfoldable pub store_now : Server → Act MemoryStore Server
unfolding time_now
store_now v s =
    let (now, s') = time_now s in
    let v' = record v { updated_at = now } in
    (ok v', record s' { data_by_id = Dict.put s'.data_by_id v'.id v' })

unfoldable pub memory_create : Server → Act MemoryStore Server
unfolding store_now
memory_create v s = elim (Dict.get s.data_by_id v.id) [
  | some _ ↦ (err server_exists, s)
  | none ↦ store_now v s
]

unfoldable pub memory_get : String → Act MemoryStore Server
memory_get id s = elim (Dict.get s.data_by_id id) [
  | some v ↦ (ok v, s)
  | none ↦ (err server_not_found, s)
]

unfoldable pub memory_update : String → Server → Act MemoryStore Server
unfolding store_now
memory_update id v s = elim (Dict.get s.data_by_id id) [
  | some _ ↦ store_now (record v { id = id }) s
  | none ↦ (err server_not_found, s)
]

unfoldable pub memory_list : Act MemoryStore (List Server)
memory_list s = (ok (Dict.values s.data_by_id), s)

-- *MemoryStore as a Store
abbrev pub memory_store : Store MemoryStore
memory_store = record {
  create = memory_create;
  get = memory_get;
  update = memory_update;
  list = memory_list;
}
