-- ===== src/Reporting.antt =====
-- internal/reporting/report.go: the uptime report. The program's `float64` is a parameter.
use terraform_provider_viett.Prelude.{
  ℕ, ◌+◌, String, Bool, List, [], ◌∷◌, length, ltb, if◌then◌else◌,
}

-- float64 with the operations that the report uses
pub record Float64 : Type 1 where
  pub F : Type 0
  pub zero_float : F
  pub hundred : F
  pub of_int : ℕ → F
  pub times : F → F → F
  pub over : F → F → F

pub record UptimeReport (F : Type 0) : Type 0 where
  pub server_id : String
  pub from : ℕ
  pub to : ℕ
  pub checks : ℕ
  pub successful : ℕ
  pub uptime_percent : F

-- the loop of Build
unfoldable pub count_up : ℕ → List Bool → ℕ
count_up acc [] = acc
count_up acc (v ∷ values) = count_up (if v then acc + 1 else acc) values

module _ (float : Float64) where
  open float use {F, zero_float, hundred, of_int, times, over}

  -- 100 * float64(ok) / float64(n), or 0.0 where there was no check
  unfoldable pub percent : ℕ → ℕ → F
  percent successful checks =
      if ltb 0 checks then over (times hundred (of_int successful)) (of_int checks) else zero_float

  -- Build
  unfoldable pub build : String → ℕ → ℕ → List Bool → UptimeReport F
  unfolding count_up percent
  build id from to values =
      let successful = count_up 0 values in
      record {
        server_id = id;
        from = from;
        to = to;
        checks = length values;
        successful = successful;
        uptime_percent = percent successful (length values);
      }
