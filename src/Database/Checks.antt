-- ===== src/Database/Checks.antt =====
-- (*ServerStore).RecordHealthCheck of internal/database/postgres.go and what later reports see of it.
use terraform_provider_viett.Prelude.{
  ℕ, ◌≤◌, String, ◌≡◌, ◌≢◌, refl, ap, ◌∙◌, Bool, true, none, ◌∷◌, arith, keep_if, eq_refl,
}
use terraform_provider_viett.Go.{ok, err}
use terraform_provider_viett.Reporting.{Float64, build}
use terraform_provider_viett.Database.{
  HealthCheck, Tables, Database, in_window, uptime_report, record_health_check, null_if_empty,
  foreign_key_violation,
}
use terraform_provider_viett.Database.Rows.{Reliable, database_rows}
use terraform_provider_viett.Database.Report.{ups, uptime_report_rows}

-- the row that RecordHealthCheck inserts
unfoldable pub check_row : String → Bool → ℕ → ℕ → String → HealthCheck
check_row server_id up latency_ms checked_at check_err = record {
  server_id = server_id;
  up = up;
  latency_ms = latency_ms;
  checked_at = checked_at;
  error = null_if_empty check_err;
}

module _ (server_id : String) (up : Bool) (latency_ms checked_at : ℕ) (check_err : String)
    (db : Database) (r : Reliable db) where
  abbrev recorded : Database
  recorded = (record_health_check server_id up latency_ms checked_at check_err db).1

  -- A check of a server that has a row is added, and nothing else changes.
  pub record_present :
      database_rows db server_id ≢ none
      → ((record_health_check server_id up latency_ms checked_at check_err db).0 ≡ ok tt)
        × (recorded.tables ≡ record db.tables {
          health_checks =
              check_row server_id up latency_ms checked_at check_err ∷ db.tables.health_checks;
        })
        × (recorded.faults ≡ db.faults)
  unfolding record_health_check check_row
  record_present present = ground (arith, r.at db.statements)

  -- A check of a server that has no row fails, and no row of a table changes.
  pub record_absent :
      database_rows db server_id ≡ none
      → ((record_health_check server_id up latency_ms checked_at check_err db).0
          ≡ err foreign_key_violation)
        × (recorded.tables ≡ db.tables)
  unfolding record_health_check
  record_absent absent = ground (arith, r.at db.statements)

  in_window_self :
      (from to : ℕ)
      → from ≤ checked_at
      → checked_at ≤ to
      → in_window server_id from to (check_row server_id up latency_ms checked_at check_err) ≡ true
  unfolding in_window check_row
  in_window_self from to lo hi = ground (arith, eq_refl server_id)

  -- On a database that refuses no statement, a check that was recorded for a server with a row is
  -- counted by every report of that server whose interval holds its time: the report is Build
  -- over its result and those that were counted before.
  pub report-record :
      (float : Float64) (from to : ℕ)
      → database_rows db server_id ≢ none
      → from ≤ checked_at
      → checked_at ≤ to
      → (uptime_report float server_id from to recorded).0
        ≡ ok (
            build float server_id from to
              (up ∷ ups (keep_if (in_window server_id from to) db.tables.health_checks)))
  unfolding check_row
  report-record float from to present lo hi =
      let (_, tables, faults) = record_present present in
      uptime_report_rows float server_id from to recorded
        (ap (λ f. f recorded.statements) faults ∙ r.at recorded.statements)
      ∙ ap
          (λ (t : Tables). ok (
            build float server_id from to
              (ups (keep_if (in_window server_id from to) t.health_checks))))
          tables
      ∙ rw (in_window_self from to lo hi, keep_if) refl
