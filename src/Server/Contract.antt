-- ===== src/Server/Contract.antt =====
-- What the clients of the interface Store in internal/server/model.go rely on, for a store whose
-- rows can be observed by their id. Implementations differ in what an empty text in an update does:
-- it either overwrites the field or keeps it.
use terraform_provider_viett.Prelude.{
  String, ◌≡◌, ◌≢◌, ◌⊎◌, Option, none, some, ◌==◌, if◌then◌else◌,
}
use terraform_provider_viett.Go.{Failure, ok, err}
use terraform_provider_viett.Server.{Server, Store}

-- `got` is the field after an update from `old` by `new`.
abbrev pub Assigns : String → String → String → Type 0
Assigns new old got = (got ≡ new) ⊎ ((new ≡ "") × (got ≡ old))

pub record IsUpdate (old v got : Server) : Type 0 where
  pub name : Assigns v.name old.name got.name
  pub address : Assigns v.address old.address got.address
  pub status : Assigns v.status old.status got.status

pub record IsCreated (v got : Server) : Type 0 where
  pub id : got.id ≡ v.id
  pub name : got.name ≡ v.name
  pub address : got.address ≡ v.address
  pub status : v.status ≢ "" → got.status ≡ v.status

-- A call went through: it returned a row, and that row is what the store has at `id`; the other
-- rows are as before.
pub record Wrote {W : Type 0} (rows : W → String → Option Server) (id : String) (got : Server)
    (w w' : W) : Type 0 where
  pub at : (j : String) → rows w' j ≡ (if id == j then some got else rows w j)

-- The rows are as before.
pub record SameRows {W : Type 0} (rows : W → String → Option Server) (w w' : W) : Type 0 where
  pub at : (j : String) → rows w' j ≡ rows w j

-- In the states that `Good` describes the store answers every call, and its answers are those of
-- the rows.
pub record StoreLaws {W : Type 0} (store : Store W) (rows : W → String → Option Server)
    (Good : W → Type 0) : Type 0 where
  pub get_found :
      (w : W) (id : String) (v : Server) → Good w → rows w id ≡ some v → (store.get id w).0 ≡ ok v
  pub get_missing :
      (w : W) (id : String)
      → Good w
      → rows w id ≡ none
      → (e : Failure) × ((store.get id w).0 ≡ err e)
  pub get-rows : (w : W) (id : String) → Good w → SameRows rows w (store.get id w).1
  pub get-Good : (w : W) (id : String) → Good w → Good (store.get id w).1
  pub update_found :
      (w : W) (id : String) (v old : Server)
      → Good w
      → rows w id ≡ some old
      → (got : Server) × ((store.update id v w).0 ≡ ok got)
        × Wrote rows id got w (store.update id v w).1
        × IsUpdate old v got
  pub update_missing :
      (w : W) (id : String) (v : Server)
      → Good w
      → rows w id ≡ none
      → (e : Failure) × ((store.update id v w).0 ≡ err e) × SameRows rows w (store.update id v w).1
  pub update-Good : (w : W) (id : String) (v : Server) → Good w → Good (store.update id v w).1
  pub create_new :
      (w : W) (v : Server)
      → Good w
      → rows w v.id ≡ none
      → (got : Server) × ((store.create v w).0 ≡ ok got)
        × Wrote rows v.id got w (store.create v w).1
        × IsCreated v got
  pub create_existing :
      (w : W) (v old : Server)
      → Good w
      → rows w v.id ≡ some old
      → (e : Failure) × ((store.create v w).0 ≡ err e) × SameRows rows w (store.create v w).1
  pub create-Good : (w : W) (v : Server) → Good w → Good (store.create v w).1
