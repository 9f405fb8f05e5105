-- ===== src/Database/Rows.antt =====
-- (*ServerStore).Create, Get, Update and List of internal/database/postgres.go against the contract of
-- a store.
use terraform_provider_viett.Prelude.{
  ℕ, String, ◌≡◌, ◌≢◌, refl, ap, ◌∙◌, inl, inr, Option, none, some, arith, eq_iff, ◌==◌, Bool-cases,
  ==-ne,
}
use terraform_provider_viett.Go.{ok, err, Result}
use terraform_provider_viett.Go.Dict
use terraform_provider_viett.Server.{Server}
use terraform_provider_viett.Server.Contract.{
  StoreLaws, IsUpdate, IsCreated, Wrote, SameRows, Assigns,
}
use terraform_provider_viett.Database.{
  Tables, Database, run, no_rows, unique_violation, coalesce_text, default_status, insert_server,
  create, select_server, get, patched, update_server, update, server_store,
}

abbrev pub database_rows : Database → String → Option Server
database_rows db id = Dict.get db.tables.servers id

-- No statement fails for a reason outside the database.
pub record Reliable (db : Database) : Type 0 where
  pub at : (n : ℕ) → db.faults n ≡ none

-- A statement on a reliable database runs once, at its time, on the tables.
pub run_lem {ℓ} :
    {A : Type ℓ} (statement : ℕ → Tables → Result A × Tables) (db : Database)
    → Reliable db
    → ((run statement db).0 ≡ (statement (db.times db.statements) db.tables).0)
      × ((run statement db).1.tables ≡ (statement (db.times db.statements) db.tables).1)
      × ((run statement db).1.faults ≡ db.faults)
unfolding run
run_lem statement db r = rw (r.at db.statements, run) (refl, refl, refl)

pub run-Reliable {ℓ} :
    {A : Type ℓ} (statement : ℕ → Tables → Result A × Tables) (db : Database)
    → Reliable db
    → Reliable (run statement db).1
run-Reliable statement db r = record { at = λ n. rw (run_lem statement db r).2 (r.at n) }

coalesce-Assigns : (value old : String) → Assigns value old (coalesce_text value old)
unfolding coalesce_text
coalesce-Assigns value old = elim (Bool-cases (value == "")) [
  | inl e ↦ rw (e, coalesce_text) (inr ((eq_iff value "").0 e, refl))
  | inr e ↦ rw (e, coalesce_text) (inl refl)
]

default_status-fields :
    (v : Server)
    → ((default_status v).id ≡ v.id)
      × ((default_status v).name ≡ v.name)
      × ((default_status v).address ≡ v.address)
      × (v.status ≢ "" → (default_status v).status ≡ v.status)
unfolding default_status
default_status-fields v = (ground arith, ground arith, ground arith, λ h. rw (==-ne v.status "" h))

module _ (db : Database) (r : Reliable db) where
  abbrev clock : ℕ
  clock = db.times db.statements

  ran :
      {A : Type 0} (statement : ℕ → Tables → Result A × Tables) (out : Result A) (t : Tables)
      → statement clock db.tables ≡ (out, t)
      → ((run statement db).0 ≡ out) × ((run statement db).1.tables ≡ t)
  ran statement out t h =
      let (replied, left, _) = run_lem statement db r in
      (replied ∙ ap (λ p. p.0) h, left ∙ ap (λ p. p.1) h)

  rows_of :
      {A : Type 0} (statement : ℕ → Tables → Result A × Tables) (out : Result A) (t : Tables)
      (j : String)
      → statement clock db.tables ≡ (out, t)
      → database_rows (run statement db).1 j ≡ Dict.get t.servers j
  rows_of statement out t j h = ap (λ u. Dict.get u.servers j) (ran statement out t h).1

  -- a statement that leaves the table as it was
  unchanged :
      {A : Type 0} (statement : ℕ → Tables → Result A × Tables) (out : Result A)
      → statement clock db.tables ≡ (out, db.tables)
      → SameRows database_rows db (run statement db).1
  unchanged statement out h = record { at = λ j. rows_of statement out db.tables j h }

  -- a statement that writes one row
  written :
      (statement : ℕ → Tables → Result Server × Tables) (id : String) (row : Server)
      → statement clock db.tables
        ≡ (ok row, record db.tables { servers = Dict.put db.tables.servers id row })
      → Wrote database_rows id row db (run statement db).1
  written statement id row h = record {
    at = λ j.
        rows_of statement (ok row)
          (record db.tables { servers = Dict.put db.tables.servers id row }) j h
        ∙ Dict.get-put db.tables.servers id row j;
  }

  select_found :
      (id : String) (v : Server)
      → database_rows db id ≡ some v
      → select_server id clock db.tables ≡ (ok v, db.tables)
  unfolding select_server
  select_found id v h = rw (h, select_server)

  select_missing :
      (id : String)
      → database_rows db id ≡ none
      → select_server id clock db.tables ≡ (err no_rows, db.tables)
  unfolding select_server
  select_missing id h = rw (h, select_server)

  select_same :
      (id : String)
      → select_server id clock db.tables ≡ ((select_server id clock db.tables).0, db.tables)
  unfolding select_server
  select_same id = ground arith

  update_found :
      (id : String) (v old : Server)
      → database_rows db id ≡ some old
      → update_server id v clock db.tables ≡ (
        ok (patched old v clock),
        record db.tables { servers = Dict.put db.tables.servers id (patched old v clock) },
      )
  unfolding update_server
  update_found id v old h = rw (h, update_server)

  update_missing :
      (id : String) (v : Server)
      → database_rows db id ≡ none
      → update_server id v clock db.tables ≡ (err no_rows, db.tables)
  unfolding update_server
  update_missing id v h = rw (h, update_server)

  insert_new :
      (v : Server) (id : String)
      → v.id ≡ id
      → database_rows db id ≡ none
      → insert_server v clock db.tables ≡ (
        ok (record v { updated_at = clock }),
        record db.tables {
          servers = Dict.put db.tables.servers id (record v { updated_at = clock });
        },
      )
  unfolding insert_server
  insert_new v id e h = ground arith

  insert_existing :
      (v old : Server) (id : String)
      → v.id ≡ id
      → database_rows db id ≡ some old
      → insert_server v clock db.tables ≡ (err unique_violation, db.tables)
  unfolding insert_server
  insert_existing v old id e h = ground arith

IsUpdate-patched : (old v : Server) (now : ℕ) → IsUpdate old v (patched old v now)
unfolding patched
IsUpdate-patched old v now = record {
  name = coalesce-Assigns v.name old.name;
  address = coalesce-Assigns v.address old.address;
  status = coalesce-Assigns v.status old.status;
}

IsCreated-default_status :
    (v : Server) (now : ℕ) → IsCreated v (record (default_status v) { updated_at = now })
IsCreated-default_status v now =
    let (id, name, address, status) = default_status-fields v in
    record { id = id; name = name; address = address; status = status }

-- As long as no statement fails for a reason outside the database, the store in PostgreSQL
-- fulfils the same contract of a store as the one in memory.
pub server_store-laws : StoreLaws server_store database_rows Reliable
unfolding create get update
server_store-laws = record {
  get_found =
      λ db id v r h. (ran db r (select_server id) (ok v) db.tables (select_found db r id v h)).0;
  get_missing = λ db id r h.
      (no_rows, (ran db r (select_server id) (err no_rows) db.tables (select_missing db r id h)).0);
  get-rows = λ db id r.
      unchanged db r (select_server id) (select_server id (clock db r) db.tables).0
        (select_same db r id);
  get-Good = λ db id r. run-Reliable (select_server id) db r;
  update_found = λ db id v old r h.
      let row = patched old v (clock db r) in
      let done = update_found db r id v old h in
      (
        row,
        (ran db r (update_server id v) (ok row)
            (record db.tables { servers = Dict.put db.tables.servers id row }) done).0,
        written db r (update_server id v) id row done,
        IsUpdate-patched old v (clock db r),
      );
  update_missing = λ db id v r h.
      let done = update_missing db r id v h in
      (
        no_rows,
        (ran db r (update_server id v) (err no_rows) db.tables done).0,
        unchanged db r (update_server id v) (err no_rows) done,
      );
  update-Good = λ db id v r. run-Reliable (update_server id v) db r;
  create_new = λ db v r h.
      let v' = default_status v in
      let row : Server = record v' { updated_at = clock db r } in
      let done = insert_new db r v' v.id (default_status-fields v).0 h in
      (
        row,
        (ran db r (insert_server v') (ok row)
            (record db.tables { servers = Dict.put db.tables.servers v.id row }) done).0,
        written db r (insert_server v') v.id row done,
        IsCreated-default_status v (clock db r),
      );
  create_existing = λ db v old r h.
      let v' = default_status v in
      let done = insert_existing db r v' old v.id (default_status-fields v).0 h in
      (
        unique_violation,
        (ran db r (insert_server v') (err unique_violation) db.tables done).0,
        unchanged db r (insert_server v') (err unique_violation) done,
      );
  create-Good = λ db v r. run-Reliable (insert_server (default_status v)) db r;
}
