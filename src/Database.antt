-- ===== src/Database.antt =====
-- internal/database/postgres.go and the table of internal/audit/audit.go: the rows of the database
-- and what each SQL statement of the program does to them. A statement either does its work at the
-- time that `times` gives or fails with what `faults` gives and does nothing: both are any functions
-- of the number of the statement.
pub mod Sql
pub mod Rows
pub mod Listing
pub mod Report
pub mod Checks
use terraform_provider_viett.Prelude.{
  ℕ, ◌+◌, ◌≡◌, String, Bool, true, false, Option, none, some, List, [], ◌∷◌, ◌++◌, ◌==◌, ◌&&◌, leb,
  ltb, length, keep_if, if◌then◌else◌,
}
use terraform_provider_viett.Go.{Failure, external, Result, ok, err, Act, Proc}
use terraform_provider_viett.Go.Dict
use terraform_provider_viett.Go.Dict.{Dict}
use terraform_provider_viett.Server.{Server, Store}
use Sql.{order_desc}
use terraform_provider_viett.Reporting.{Float64, UptimeReport}

-- a row of health_checks; `error` is NULL or a text. The column `id`, which no statement reads, is
-- the position in the list.
pub record HealthCheck : Type 0 where
  pub server_id : String
  pub up : Bool
  pub latency_ms : ℕ
  pub checked_at : ℕ
  pub error : Option String

-- a row of audit_events (Event in internal/audit/audit.go)
pub record Event : Type 0 where
  pub id : ℕ
  pub actor : String
  pub role : String
  pub action : String
  pub resource : String
  pub resource_id : String
  pub success : Bool
  pub created_at : ℕ

-- servers by their primary key; the other tables with the newest row first; the next value of the
-- sequence of audit_events
pub record Tables : Type 0 where
  pub servers : Dict Server
  pub health_checks : List HealthCheck
  pub audit_events : List Event
  pub next_audit_id : ℕ

pub record Database : Type 0 where
  pub tables : Tables
  pub statements : ℕ
  pub times : ℕ → ℕ
  pub faults : ℕ → Option Failure

-- The pool runs a statement on the tables.
unfoldable pub run {ℓ} : {A : Type ℓ} → (ℕ → Tables → Result A × Tables) → Act Database A
run statement db =
    let next = record db { statements = db.statements + 1 } in
    elim (db.faults db.statements) [
      | some e ↦ (err e, next)
      | none ↦
          let (result, t) = statement (db.times db.statements) db.tables in
          (result, record next { tables = t })
    ]

-- pgx.ErrNoRows and the violations of a constraint
abbrev pub no_rows : Failure
no_rows = external "no rows in result set"

abbrev pub unique_violation : Failure
unique_violation = external "unique_violation"

abbrev pub foreign_key_violation : Failure
foreign_key_violation = external "foreign_key_violation"

-- COALESCE(NULLIF(value, ''), old)
unfoldable pub coalesce_text : String → String → String
coalesce_text value old = if value == "" then old else value

unfoldable pub insert_server : Server → ℕ → Tables → Result Server × Tables
insert_server v now t = elim (Dict.get t.servers v.id) [
  | some _ ↦ (err unique_violation, t)
  | none ↦
      let row = record v { updated_at = now } in
      (ok row, record t { servers = Dict.put t.servers v.id row })
]

-- the guard of Create
unfoldable pub default_status : Server → Server
default_status v = if v.status == "" then record v { status = "unknown" } else v

-- (*ServerStore).Create
unfoldable pub create : Server → Act Database Server
unfolding run insert_server default_status
create v = run (insert_server (default_status v))

unfoldable pub select_server : String → ℕ → Tables → Result Server × Tables
select_server id now t = elim (Dict.get t.servers id) [
  | some row ↦ (ok row, t)
  | none ↦ (err no_rows, t)
]

-- (*ServerStore).Get
unfoldable pub get : String → Act Database Server
unfolding run select_server
get id = run (select_server id)

-- the row that UPDATE leaves
unfoldable pub patched : Server → Server → ℕ → Server
unfolding coalesce_text
patched row v now = record row {
  name = coalesce_text v.name row.name;
  address = coalesce_text v.address row.address;
  status = coalesce_text v.status row.status;
  updated_at = now;
}

unfoldable pub update_server : String → Server → ℕ → Tables → Result Server × Tables
update_server id v now t = elim (Dict.get t.servers id) [
  | some row ↦
      let row' = patched row v now in (ok row', record t { servers = Dict.put t.servers id row' })
  | none ↦ (err no_rows, t)
]

-- (*ServerStore).Update
unfoldable pub update : String → Server → Act Database Server
unfolding run update_server patched
update id v = run (update_server id v)

-- ORDER BY updated_at DESC
unfoldable pub select_servers : ℕ → Tables → Result (List Server) × Tables
select_servers now t = (ok (order_desc (λ (v : Server). v.updated_at) (Dict.values t.servers)), t)

-- (*ServerStore).List
unfoldable pub list : Act Database (List Server)
unfolding run select_servers
list = run select_servers

-- *ServerStore as a server.Store
abbrev pub server_store : Store Database
server_store = record { create = create; get = get; update = update; list = list }

-- NULLIF(value, '')
unfoldable pub null_if_empty : String → Option String
null_if_empty value = if value == "" then none else some value

unfoldable pub insert_health_check : HealthCheck → ℕ → Tables → Result (Unit {0}) × Tables
insert_health_check check now t = elim (Dict.get t.servers check.server_id) [
  | some _ ↦ (ok tt, record t { health_checks = check ∷ t.health_checks })
  | none ↦ (err foreign_key_violation, t)
]

-- (*ServerStore).RecordHealthCheck
unfoldable pub record_health_check : String → Bool → ℕ → ℕ → String → Act Database (Unit {0})
unfolding run insert_health_check null_if_empty
record_health_check server_id up latency_ms checked_at check_err = run (
    insert_health_check (record {
      server_id = server_id;
      up = up;
      latency_ms = latency_ms;
      checked_at = checked_at;
      error = null_if_empty check_err;
    }))

-- the WHERE clause of UptimeReport
unfoldable pub in_window : String → ℕ → ℕ → HealthCheck → Bool
in_window server_id from to check =
    (check.server_id == server_id) && leb from check.checked_at && leb check.checked_at to

-- SELECT COUNT(*), COUNT(*) FILTER (WHERE up)
unfoldable pub count_checks : String → ℕ → ℕ → ℕ → Tables → Result (ℕ × ℕ) × Tables
unfolding in_window
count_checks server_id from to now t =
    let rows = keep_if (in_window server_id from to) t.health_checks in
    (ok (length rows, length (keep_if (λ (c : HealthCheck). c.up) rows)), t)

-- (*ServerStore).UptimeReport
module _ (float : Float64) where
  open float use {F, zero_float, hundred, of_int, times, over}

  -- `uptime`
  unfoldable pub uptime_of : ℕ → ℕ → F
  uptime_of checks successful =
      if ltb 0 checks then over (times hundred (of_int successful)) (of_int checks) else zero_float

  report_of : String → ℕ → ℕ → Result (ℕ × ℕ) → Result (UptimeReport float.F)
  unfolding uptime_of
  report_of server_id from to (err e) = err e
  report_of server_id from to (ok (checks, successful)) = ok (record {
    server_id = server_id;
    from = from;
    to = to;
    checks = checks;
    successful = successful;
    uptime_percent = uptime_of checks successful;
  })

  unfoldable pub uptime_report : String → ℕ → ℕ → Act Database (UptimeReport float.F)
  unfolding run count_checks report_of uptime_of
  uptime_report server_id from to db =
      let (counts, db') = run (count_checks server_id from to) db in
      (report_of server_id from to counts, db')
