-- ===== src/Api/Breakers.antt =====
-- What the breakers of cmd/api/main.go do for the handlers that call a gRPC service.
use terraform_provider_viett.Prelude.{ℕ, ◌+◌, ◌-◌, ◌<◌, String, ◌≡◌, ap, false, none, some}
use terraform_provider_viett.Go.{circuit_open, ok, Act}
use terraform_provider_viett.Server.{Server}
use terraform_provider_viett.Resilience.{CircuitBreaker, Env}
use terraform_provider_viett.Resilience.Breaker.{execute_open}
use terraform_provider_viett.Metrics.{count_circuit_open}
use terraform_provider_viett.Grpc.{CheckRequest, CheckResponse, UptimeRequest, UptimeResponse, day}
use terraform_provider_viett.Auth.{Context, subject, role}
use terraform_provider_viett.Api.Call.{respond, detail_body}
use terraform_provider_viett.Api.Calls.{Backend, record_audit}
use terraform_provider_viett.Api.Remote.{
  Frame, frame_env, retried_call, guarded_call, ApiState, check_done, post_check, report_done,
  get_report,
}

module _ {W R : Type 0} (env : Env W) (service operation : String) (call : Act W R) where
  guarded_call_open :
      (breaker : CircuitBreaker) (f : Frame W R)
      → (env.now f.world).0 < breaker.open_until
      → guarded_call env service operation call breaker f
        ≡ (some circuit_open, breaker, record f { world = (env.now f.world).1 })
  unfolding guarded_call frame_env
  guarded_call_open breaker f h =
      execute_open (frame_env env) (retried_call env service operation call) breaker f h

module _ {W : Type 0} (b : Backend W) (env : Env W) where
  -- While the monitoring breaker is open, a check of a server that exists is answered with 503, whatever
  -- the gRPC call would do: it is not made, nor observed, and the breakers stay as they are. Of the metrics
  -- only the counter of rejections changes, by one, and the one call of the audit log records a failed
  -- "server.check" of that server under the subject and the role of the request.
  pub post_check_open :
      (call : CheckRequest → Act W CheckResponse) (c : Context) (id : String) (s : ApiState W)
      (v : Server)
      → (b.store.get id s.world).0 ≡ ok v
      → (env.now (b.store.get id s.world).1).0 < s.monitoring_breaker.open_until
      → post_check b env call c id s ≡ (
        respond 503 (detail_body "monitoring circuit breaker open" (b.message circuit_open)),
        record s {
          world =
              (b.audit_record
                (record {
                  actor = subject c;
                  role = role c;
                  action = "server.check";
                  resource = "server";
                  resource_id = id;
                  success = false;
                })
                (env.now (b.store.get id s.world).1).1).1;
          metrics = record s.metrics { circuit_open = s.metrics.circuit_open + 1 };
        },
      )
  unfolding post_check record_audit count_circuit_open
  post_check_open call c id s v found open_now =
      rw (found, post_check)
        (ap (check_done b env c id s) (
          guarded_call_open env "monitoring" "Check"
            (call (record { server_id = v.id; address = v.address })) s.monitoring_breaker
            (record { world = (b.store.get id s.world).1; metrics = s.metrics; response = none })
            open_now))

  -- While the reporting breaker is open, a report is answered with 502, and the rejection is not
  -- counted in the metrics.
  pub get_report_open :
      (call : UptimeRequest → Act W (UptimeResponse String)) (show : ℕ → String) (id : String)
      (s : ApiState W)
      → (env.now (env.now s.world).1).0 < s.reporting_breaker.open_until
      → get_report b env call show id s ≡ (
        respond 502 (detail_body "reporting service unavailable" (b.message circuit_open)),
        record s { world = (env.now (env.now s.world).1).1 },
      )
  unfolding get_report
  get_report_open call show id s open_now = ap (report_done b env s) (
      guarded_call_open env "reporting" "GetUptime"
        (call (record {
          server_id = id;
          from = show ((env.now s.world).0 - day);
          to = show (env.now s.world).0;
        }))
        s.reporting_breaker
        (record { world = (env.now s.world).1; metrics = s.metrics; response = none }) open_now)
