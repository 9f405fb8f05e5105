-- ===== src/Server/Memory.antt =====
-- The store in memory of internal/server/model.go fulfils the contract of a store in every state.
use terraform_provider_viett.Prelude.{
  ◌+◌, ◌==◌, if◌then◌else◌, String, ◌≡◌, refl, ap, inl, Option, none, some, arith,
}
use terraform_provider_viett.Go.{Result, ok, err, server_exists, server_not_found}
use terraform_provider_viett.Go.Dict
use terraform_provider_viett.Server.{
  Server, MemoryStore, store_now, memory_create, memory_get, memory_update, memory_store,
}
use terraform_provider_viett.Server.Contract.{StoreLaws, Wrote}

abbrev pub memory_rows : MemoryStore → String → Option Server
memory_rows s id = Dict.get s.data_by_id id

abbrev pub Always : MemoryStore → Type 0
Always s = Unit {0}

get_found :
    (s : MemoryStore) (id : String) (v : Server)
    → memory_rows s id ≡ some v
    → memory_get id s ≡ (ok v, s)
unfolding memory_get
get_found s id v h = rw (h, memory_get)

get_missing :
    (s : MemoryStore) (id : String)
    → memory_rows s id ≡ none
    → memory_get id s ≡ (err server_not_found, s)
unfolding memory_get
get_missing s id h = rw (h, memory_get)

get_same : (s : MemoryStore) (id : String) → (memory_get id s).1 ≡ s
unfolding memory_get
get_same s id = ground arith

stamp : Server → MemoryStore → Server
stamp v s = record v { updated_at = s.times s.reads }

store_now-Wrote :
    (v : Server) (s : MemoryStore) → Wrote memory_rows v.id (stamp v s) s (store_now v s).1
unfolding store_now stamp
store_now-Wrote v s = record {
  at = λ j. Dict.get-put s.data_by_id v.id (record v { updated_at = s.times s.reads }) j;
}

update_found :
    (s : MemoryStore) (id : String) (v old : Server)
    → memory_rows s id ≡ some old
    → memory_update id v s ≡ store_now (record v { id = id }) s
unfolding memory_update
update_found s id v old h = rw (h, memory_update)

update_missing :
    (s : MemoryStore) (id : String) (v : Server)
    → memory_rows s id ≡ none
    → memory_update id v s ≡ (err server_not_found, s)
unfolding memory_update
update_missing s id v h = rw (h, memory_update)

create_new :
    (s : MemoryStore) (v : Server) → memory_rows s v.id ≡ none → memory_create v s ≡ store_now v s
unfolding memory_create
create_new s v h = rw (h, memory_create)

create_existing :
    (s : MemoryStore) (v old : Server)
    → memory_rows s v.id ≡ some old
    → memory_create v s ≡ (err server_exists, s)
unfolding memory_create
create_existing s v old h = rw (h, memory_create)

pub memory_store-laws : StoreLaws memory_store memory_rows Always
unfolding store_now stamp
memory_store-laws = record {
  get_found = λ s id v _ h. ap (λ r. r.0) (get_found s id v h);
  get_missing = λ s id _ h. (server_not_found, ap (λ r. r.0) (get_missing s id h));
  get-rows = λ s id _. record { at = λ j. rw get_same };
  get-Good = λ s id _. tt;
  update_found = λ s id v old _ h. (
    stamp (record v { id = id }) s,
    rw (update_found s id v old h),
    rw (update_found s id v old h) (store_now-Wrote (record v { id = id }) s),
    record { name = inl refl; address = inl refl; status = inl refl },
  );
  update_missing = λ s id v _ h. (
    server_not_found,
    rw (update_missing s id v h),
    rw (update_missing s id v h) (record { at = λ j. refl }),
  );
  update-Good = λ s id v _. tt;
  create_new = λ s v _ h. (
    stamp v s,
    rw (create_new s v h),
    rw (create_new s v h) (store_now-Wrote v s),
    record { id = refl; name = refl; address = refl; status = λ _. refl },
  );
  create_existing = λ s v old _ h. (
    server_exists,
    rw (create_existing s v old h),
    rw (create_existing s v old h) (record { at = λ j. refl }),
  );
  create-Good = λ s v _. tt;
}

-- the row was stored at its id and returned, the other rows are as before, and the clock was read once
abbrev pub Stores : MemoryStore → Server → Result Server × MemoryStore → Type 0
Stores s row r =
    (r.0 ≡ ok row)
    × ((j : String) → memory_rows r.1 j ≡ (if row.id == j then some row else memory_rows s j))
    × (r.1.reads ≡ s.reads + 1)
    × (r.1.times ≡ s.times)

-- what the calls of a map of rows do, by the row that stands at the id
abbrev pub Gets : MemoryStore → Option Server → Result Server × MemoryStore → Type 0
Gets s none r = r ≡ (err server_not_found, s)
Gets s (some v) r = r ≡ (ok v, s)

abbrev pub Updates :
    MemoryStore → String → Server → Option Server → Result Server × MemoryStore → Type 0
Updates s id v none r = r ≡ (err server_not_found, s)
Updates s id v (some old) r =
    Stores s
      (record {
        id = id;
        name = v.name;
        address = v.address;
        status = v.status;
        updated_at = s.times s.reads;
      })
      r

abbrev pub Creates : MemoryStore → Server → Option Server → Result Server × MemoryStore → Type 0
Creates s v (some old) r = r ≡ (err server_exists, s)
Creates s v none r =
    Stores s
      (record {
        id = v.id;
        name = v.name;
        address = v.address;
        status = v.status;
        updated_at = s.times s.reads;
      })
      r

memory_get-Gets : (s : MemoryStore) (id : String) → Gets s (memory_rows s id) (memory_get id s)
memory_get-Gets s id = by_row (memory_rows s id) refl
  where
    by_row : (o : Option Server) → memory_rows s id ≡ o → Gets s o (memory_get id s)
    by_row none h = get_missing s id h
    by_row (some v) h = get_found s id v h

store_now-Stores :
    (s : MemoryStore) (v : Server)
    → Stores s (record v { updated_at = s.times s.reads }) (store_now v s)
unfolding store_now
store_now-Stores s v =
    (refl, Dict.get-put s.data_by_id v.id (record v { updated_at = s.times s.reads }), refl, refl)

memory_update-Updates :
    (s : MemoryStore) (id : String) (v : Server)
    → Updates s id v (memory_rows s id) (memory_update id v s)
memory_update-Updates s id v = by_row (memory_rows s id) refl
  where
    by_row : (o : Option Server) → memory_rows s id ≡ o → Updates s id v o (memory_update id v s)
    by_row none h = update_missing s id v h
    by_row (some old) h = rw (update_found s id v old h) (store_now-Stores s (record v { id = id }))

memory_create-Creates :
    (s : MemoryStore) (v : Server) → Creates s v (memory_rows s v.id) (memory_create v s)
memory_create-Creates s v = by_row (memory_rows s v.id) refl
  where
    by_row : (o : Option Server) → memory_rows s v.id ≡ o → Creates s v o (memory_create v s)
    by_row none h = rw (create_new s v h) (store_now-Stores s v)
    by_row (some old) h = create_existing s v old h

-- In every state the store in memory answers as a map of rows does. Get returns the row of an id. Update of
-- an id that has a row and Create of one that has none store and return a row with that id, the other
-- fields of the argument and the time of the clock, and leave all other rows; any other call fails and
-- leaves the store as it was.
pub memory_store_lem :
    (s : MemoryStore) (id : String) (v : Server)
    → Gets s (memory_rows s id) (memory_store.get id s)
      × Updates s id v (memory_rows s id) (memory_store.update id v s)
      × Creates s v (memory_rows s v.id) (memory_store.create v s)
memory_store_lem s id v =
    (memory_get-Gets s id, memory_update-Updates s id v, memory_create-Creates s v)
