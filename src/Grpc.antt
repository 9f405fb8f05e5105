-- ===== src/Grpc.antt =====
-- internal/grpcmonitoring/service.go and internal/grpcreporting/service.go: the two gRPC services.
use terraform_provider_viett.Prelude.{
  ℕ, ◌-◌, ◌*◌, String, Bool, Option, none, some, List, [], ◌∷◌, ◌==◌, if◌then◌else◌,
}
use terraform_provider_viett.Go.{Failure, Result, ok, err, Act, Proc}
use terraform_provider_viett.Server.{Server, zero_server, Store}
use terraform_provider_viett.Monitoring.{CheckResult, Checker, Network, check}
use terraform_provider_viett.Reporting.{UptimeReport}

-- monitoringv1.CheckRequest and CheckResponse
pub record CheckRequest : Type 0 where
  pub server_id : String
  pub address : String

pub record CheckResponse : Type 0 where
  pub server_id : String
  pub up : Bool
  pub latency_ms : ℕ
  pub checked_at : String
  pub error : String

-- What the monitoring service is made of: the checker and the network, RecordHealthCheck of the
-- database, the store of servers, the two calls of a search client that may be absent, new UUIDs and the
-- format of a time.
pub record Service (W : Type 0) : Type 0 where
  pub checker : Checker
  pub network : Network W
  pub record_health_check : String → Bool → ℕ → ℕ → String → Act W (Unit {0})
  pub store : Store W
  pub has_search : Bool
  pub index_check : String → CheckResult → Proc W
  pub index_server : String → Server → Proc W
  pub new_uuid : W → String × W
  pub format_time : ℕ → String

unfoldable pub status_text : Bool → String
status_text up = if up then "up" else "down"

module _ {W : Type 0} (s : Service W) where
  -- the two documents of the search index; their errors are only logged
  unfoldable pub index_result : CheckResult → Server → W → W
  index_result result updated w =
      let (uuid, w1) = s.new_uuid w in
      let (_, w2) = s.index_check uuid result w1 in
      let (_, w3) = s.index_server updated.id updated w2 in if s.has_search then w3 else w

  unfoldable pub response_of : CheckResult → CheckResponse
  response_of result = record {
    server_id = result.server_id;
    up = result.up;
    latency_ms = result.latency_ms;
    checked_at = s.format_time result.checked_at;
    error = result.error;
  }

  unfoldable pub after_update : CheckResult → Result Server × W → Result CheckResponse × W
  unfolding index_result response_of
  after_update result (err e, w) = (err e, w)
  after_update result (ok updated, w) = (ok (response_of result), index_result result updated w)

  unfoldable pub after_record : CheckResult → Result (Unit {0}) × W → Result CheckResponse × W
  unfolding after_update status_text
  after_record result (err e, w) = (err e, w)
  after_record result (ok _, w) =
      after_update result
        (s.store.update result.server_id (record zero_server { status = status_text result.up }) w)

  -- (*Service).Check
  unfoldable pub check_server : CheckRequest → Act W CheckResponse
  unfolding after_record check
  check_server req w =
      let (result, w') = check s.network s.checker req.server_id req.address w in
      after_record result (
        s.record_health_check result.server_id result.up result.latency_ms result.checked_at
          result.error w')

module _ {W : Type 0} (handle : CheckRequest → Act W CheckResponse)
    (send : CheckResponse → Proc W) where
  -- the loop of (*Service).CheckBatch
  unfoldable pub check_batch : List CheckRequest → Option Failure → Proc W
  check_batch [] ends w = (ends, w)
  check_batch (req ∷ rest) ends w =
      let (resp, w') = handle req w in
      elim resp [
        | err e ↦ (some e, w')
        | ok r ↦
            let (sent, w'') = send r w' in
            elim sent [ some e ↦ (some e, w'') | none ↦ check_batch rest ends w'' ]
      ]

-- reportingv1.UptimeRequest and UptimeResponse
pub record UptimeRequest : Type 0 where
  pub server_id : String
  pub from : String
  pub to : String

pub record UptimeResponse (F : Type 0) : Type 0 where
  pub server_id : String
  pub checks : ℕ
  pub successful : ℕ
  pub uptime_percent : F

-- 24 hours
abbrev pub day : ℕ
day = 24 * 3600 * 1000000000

-- a time of a request, or a default where the text is empty
unfoldable pub time_or : (String → Result ℕ) → String → ℕ → Result ℕ
time_or parse_time given default = if given == "" then ok default else parse_time given

module _ {F W : Type 0} (uptime_report : String → ℕ → ℕ → Act W (UptimeReport F))
    (parse_time : String → Result ℕ) (now : W → ℕ × W) where
  unfoldable pub uptime_response : Result (UptimeReport F) → Result (UptimeResponse F)
  uptime_response (err e) = err e
  uptime_response (ok report) = ok (record {
    server_id = report.server_id;
    checks = report.checks;
    successful = report.successful;
    uptime_percent = report.uptime_percent;
  })

  -- (*Service).GetUptime
  unfoldable pub get_uptime : UptimeRequest → Act W (UptimeResponse F)
  unfolding time_or uptime_response
  get_uptime req w =
      let (t, w') = now w in
      elim (time_or parse_time req.from (t - day)) [
        | err e ↦ (err e, w')
        | ok from ↦ elim (time_or parse_time req.to t) [
          | err e ↦ (err e, w')
          | ok to ↦
              let (report, w'') = uptime_report req.server_id from to w' in
              (uptime_response report, w'')
        ]
      ]
