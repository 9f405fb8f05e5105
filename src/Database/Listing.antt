-- ===== src/Database/Listing.antt =====
-- (*ServerStore).List of internal/database/postgres.go.
use mathlib.Core.List.{Perm}
use terraform_provider_viett.Prelude.{◌≡◌, none, List}
use terraform_provider_viett.Go.{ok}
use terraform_provider_viett.Go.Dict
use terraform_provider_viett.Server.{Server}
use terraform_provider_viett.Database.{Database, run, list}
use terraform_provider_viett.Database.Sql.{
  IsDescending, order_desc, order_desc-IsDescending, order_desc-perm,
}

-- If its query does not fail, List returns every row once, the latest update first, and changes no
-- table.
pub list_lem :
    (db : Database)
    → db.faults db.statements ≡ none
    → (rows : List Server) × ((list db).0 ≡ ok rows)
      × Perm rows (Dict.values db.tables.servers)
      × IsDescending (λ (v : Server). v.updated_at) rows
      × ((list db).1.tables ≡ db.tables)
unfolding list
list_lem db h =
    let rows = Dict.values db.tables.servers in
    let updated = λ (v : Server). v.updated_at in
    (
      order_desc updated rows,
      rw (h, run),
      order_desc-perm updated rows,
      order_desc-IsDescending updated rows,
      rw (h, run),
    )
