-- ===== src/Database/Report.antt =====
-- (*ServerStore).UptimeReport of internal/database/postgres.go against Build of
-- internal/reporting/report.go, and the health checks that it counts.
use terraform_provider_viett.Prelude.{
  ℕ, zero, suc, ◌+◌, ◌≤◌, String, ◌≡◌, refl, ◌∙◌, Bool, true, false, num_eq, eq_iff, if◌then◌else◌,
  none, List, [], ◌∷◌, arith, length, keep_if, map, length-keep_if, length-map, Bool-cases, inl,
  inr,
}
use terraform_provider_viett.Go.{ok}
use terraform_provider_viett.Reporting.{Float64, UptimeReport, count_up, percent, build}
use terraform_provider_viett.Database.{
  HealthCheck, Database, run, in_window, uptime_of, uptime_report,
}

-- The loop of Build counts the checks that were up.
count_up-keep_if :
    (acc : ℕ) (rows : List HealthCheck)
    → count_up acc (map (λ (c : HealthCheck). c.up) rows)
      ≡ acc + length (keep_if (λ (c : HealthCheck). c.up) rows)
unfolding count_up
count_up-keep_if acc [] = omega arith
count_up-keep_if acc (c ∷ rows) = elim (Bool-cases c.up) [
  | inl e ↦ rw (e, keep_if, length) (count_up-keep_if (acc + 1) rows ∙ omega arith)
  | inr e ↦ rw (e, keep_if) (count_up-keep_if acc rows)
]

abbrev pub ups : List HealthCheck → List Bool
ups rows = map (λ (c : HealthCheck). c.up) rows

count_up-ups :
    (rows : List HealthCheck)
    → count_up 0 (ups rows) ≡ length (keep_if (λ (c : HealthCheck). c.up) rows)
count_up-ups rows = omega (arith, count_up-keep_if 0 rows)

length-ups : (rows : List HealthCheck) → length (ups rows) ≡ length rows
length-ups rows = length-map (λ (c : HealthCheck). c.up) rows

-- a health check of a server in an interval, both ends included
abbrev pub IsWithin : String → ℕ → ℕ → HealthCheck → Type 0
IsWithin server_id from to c =
    (c.server_id ≡ server_id) × (from ≤ c.checked_at) × (c.checked_at ≤ to)

-- the rows of a table that have a property, in the order of the table
pub data Selected (P : HealthCheck → Type 0) : List HealthCheck → List HealthCheck → Type 0 where
  nothing : Selected P [] []
  chosen :
      {c : HealthCheck} {table rows : List HealthCheck}
      → P c
      → Selected P table rows
      → Selected P (c ∷ table) (c ∷ rows)
  passed_over :
      {c : HealthCheck} {table rows : List HealthCheck}
      → ¬ P c
      → Selected P table rows
      → Selected P (c ∷ table) rows

in_window-IsWithin :
    (server_id : String) (from to : ℕ) (c : HealthCheck)
    → in_window server_id from to c ≡ true
    → IsWithin server_id from to c
unfolding in_window
in_window-IsWithin server_id from to c h = ground (arith, eq_iff c.server_id server_id)

not-IsWithin :
    (server_id : String) (from to : ℕ) (c : HealthCheck)
    → in_window server_id from to c ≡ false
    → ¬ IsWithin server_id from to c
unfolding in_window
not-IsWithin server_id from to c h w = ground (arith, eq_iff c.server_id server_id)

keep_if-Selected :
    (server_id : String) (from to : ℕ) (table : List HealthCheck)
    → Selected (IsWithin server_id from to) table (keep_if (in_window server_id from to) table)
keep_if-Selected server_id from to [] = nothing
keep_if-Selected server_id from to (c ∷ table) = elim (Bool-cases (in_window server_id from to c)) [
  | inl e ↦
      rw (e, keep_if)
        (chosen (in_window-IsWithin server_id from to c e)
          (keep_if-Selected server_id from to table))
  | inr e ↦
      rw (e, keep_if)
        (passed_over (not-IsWithin server_id from to c e)
          (keep_if-Selected server_id from to table))
]

module _ (float : Float64) where
  open float use {zero_float, hundred, of_int, times, over}

  percent_by_count :
      (successful checks : ℕ)
      → percent float successful checks ≡ (
          if num_eq checks 0
          then zero_float
          else over (times hundred (of_int successful)) (of_int checks))
  unfolding percent
  percent_by_count successful zero = refl
  percent_by_count successful (suc n) = ground arith

  pub uptime_report_rows :
      (server_id : String) (from to : ℕ) (db : Database)
      → db.faults db.statements ≡ none
      → (uptime_report float server_id from to db).0
        ≡ ok (
            build float server_id from to
              (ups (keep_if (in_window server_id from to) db.tables.health_checks)))
  unfolding uptime_report uptime_of build percent
  uptime_report_rows server_id from to db h = rw (h, run) (simp (count_up-ups, length-ups))

  -- UptimeReport, when its query does not fail, is Build over the results of exactly the health checks of
  -- that server in that interval, both ends included; without any its percentage is 0, and else it is 100
  -- times the checks that were up, divided by all of them.
  pub uptime_report-build :
      (server_id : String) (from to : ℕ) (db : Database)
      → db.faults db.statements ≡ none
      → (rows : List HealthCheck) × (report : UptimeReport float.F) × Selected
          (IsWithin server_id from to)
          db.tables.health_checks
          rows
        × ((uptime_report float server_id from to db).0 ≡ ok report)
        × (report ≡ build float server_id from to (ups rows))
        × (report.uptime_percent ≡ (
            if num_eq (length rows) 0
            then zero_float
            else over
                (times hundred (of_int (length (keep_if (λ (c : HealthCheck). c.up) rows))))
                (of_int (length rows))))
  unfolding build
  uptime_report-build server_id from to db h =
      let rows = keep_if (in_window server_id from to) db.tables.health_checks in
      (
        rows,
        build float server_id from to (ups rows),
        keep_if-Selected server_id from to db.tables.health_checks,
        uptime_report_rows server_id from to db h,
        refl,
        rw (count_up-ups, length-ups)
            (percent_by_count (length (keep_if (λ (c : HealthCheck). c.up) rows)) (length rows)),
      )

  -- The report never counts more successful checks than checks.
  pub uptime_report_bounds :
      (server_id : String) (from to : ℕ) (db : Database) {report : UptimeReport float.F}
      → (uptime_report float server_id from to db).0 ≡ ok report
      → report.successful ≤ report.checks
  unfolding uptime_report
  uptime_report_bounds server_id from to db h = ground (
    arith,
    length-keep_if (λ (c : HealthCheck). c.up)
        (keep_if (in_window server_id from to) db.tables.health_checks),
  )
