-- ===== src/Tests/Database.antt =====
-- internal/database and internal/audit on a database with one server and one health check.
use terraform_provider_viett.Prelude.{
  ℕ, ◌*◌, ◌/◌, ◌++◌, num_eq, if◌then◌else◌, ◌≡◌, refl, true, false, none, some, List, [], ◌∷◌,
  arith, length, keep_if,
}
use terraform_provider_viett.Go.{ok, pos}
use terraform_provider_viett.Go.Dict
use terraform_provider_viett.Server.{Server}
use terraform_provider_viett.Reporting.{Float64, UptimeReport, build}
use terraform_provider_viett.Database.{
  HealthCheck, Event, Database, in_window, uptime_report, record_health_check,
}
use terraform_provider_viett.Database.Sql.{IsDescending}
use mathlib.Core.List.{Perm}
use terraform_provider_viett.Database.Report.{IsWithin, Selected, ups, uptime_report-build}
use terraform_provider_viett.Database.Checks.{report-record}
use terraform_provider_viett.Audit.{list_events}
use terraform_provider_viett.Audit.Listing.{IsCap, count_within, list_events_lem}

abbrev web : Server
web = record { id = "web"; name = "web"; address = "10.0.0.1"; status = "up"; updated_at = 3 }

abbrev web_check : HealthCheck
web_check = record {
  server_id = "web";
  up = false;
  latency_ms = 2;
  checked_at = 7;
  error = some "refused";
}

abbrev login_event : Event
login_event = record {
  id = 1;
  actor = "ops";
  role = "admin";
  action = "server.create";
  resource = "server";
  resource_id = "web";
  success = true;
  created_at = 4;
}

abbrev logout_event : Event
logout_event = record login_event { id = 2; action = "server.delete"; created_at = 6 }

abbrev test_database : Database
test_database = record {
  tables = record {
    servers = ("web", web) ∷ [];
    health_checks = web_check ∷ [];
    audit_events = login_event ∷ [];
    next_audit_id = 2;
  };
  statements = 0;
  times = λ n. n;
  faults = λ n. none;
}

-- two events
abbrev logged : Database
logged = record test_database {
  tables = record test_database.tables {
    audit_events = login_event ∷ logout_event ∷ [];
    next_audit_id = 3;
  };
}

-- numbers in place of floating-point numbers
abbrev whole_numbers : Float64
whole_numbers = record {
  F = ℕ;
  zero_float = 0;
  hundred = 100;
  of_int = λ n. n;
  times = λ a b. a * b;
  over = λ a b. a / b;
}

uptime_report-build_example :
    (rows : List HealthCheck) × (report : UptimeReport ℕ) × Selected
      (IsWithin "web" 0 9)
      test_database.tables.health_checks
      rows
    × ((uptime_report whole_numbers "web" 0 9 test_database).0 ≡ ok report)
    × (report ≡ build whole_numbers "web" 0 9 (ups rows))
    × (report.uptime_percent ≡ (
        if num_eq (length rows) 0
        then 0
        else 100 * length (keep_if (λ (c : HealthCheck). c.up) rows) / length rows))
uptime_report-build_example = uptime_report-build whole_numbers "web" 0 9 test_database refl

report-record_example :
    (uptime_report whole_numbers "web" 0 9
      (record_health_check "web" true 1 8 "" test_database).1).0
    ≡ ok (
        build whole_numbers "web" 0 9
          (true ∷ ups (keep_if (in_window "web" 0 9) test_database.tables.health_checks)))
unfolding Dict.get
report-record_example =
    report-record "web" true 1 8 "" test_database (record { at = λ n. refl }) whole_numbers 0 9
      (λ e. cc) (omega arith) (omega arith)

list_events_lem_example :
    (events : List Event) × (rest : List Event) × (cap : ℕ) × ((list_events (pos 1) logged).0
      ≡ ok events)
    × Perm (events ++ rest) logged.tables.audit_events
    × IsDescending (λ (e : Event). e.created_at) (events ++ rest)
    × IsCap (pos 1) cap
    × (length events ≡ count_within cap (length logged.tables.audit_events))
list_events_lem_example = list_events_lem (pos 1) logged refl
