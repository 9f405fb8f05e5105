-- ===== src/Api/Remote.antt =====
-- The handlers of cmd/api/main.go that call a gRPC service, through a breaker and the retry loop.
use terraform_provider_viett.Prelude.{ℕ, ◌-◌, ◌*◌, String, Bool, true, false, Option, none, some}
use terraform_provider_viett.Go.{Failure, circuit_open, Result, ok, err, Act, Proc, error_of}
use terraform_provider_viett.Resilience.{CircuitBreaker, Env, new_circuit_breaker, execute, retry}
use terraform_provider_viett.Metrics.{Metrics, new_metrics, observe_grpc, count_circuit_open}
use terraform_provider_viett.Grpc.{CheckRequest, CheckResponse, UptimeRequest, UptimeResponse, day}
use terraform_provider_viett.Auth.{Context}
use terraform_provider_viett.Api.Call.{
  Response, error_body, detail_body, check_body, report_body, null_body, respond,
}
use terraform_provider_viett.Api.Calls.{Backend, record_audit}

-- the variables that the closure of a call can change: the world, the metrics and `resp`
pub record Frame (W R : Type 0) : Type 0 where
  pub world : W
  pub metrics : Metrics
  pub response : Option R

unfoldable pub frame_env : {W R : Type 0} → Env W → Env (Frame W R)
frame_env env = record {
  now = λ f. let (t, w) = env.now f.world in (t, record f { world = w });
  ctx_err = λ f. env.ctx_err f.world;
  wait = λ d f. let (fired, w) = env.wait d f.world in (fired, record f { world = w });
}

abbrev pub value_of {ℓ} : {A : Type ℓ} → Result A → Option A
value_of (ok a) = some a
value_of (err e) = none

-- three attempts, 50 milliseconds after the first
abbrev pub attempts : ℕ
attempts = 3

abbrev pub base_delay : ℕ
base_delay = 50 * 1000000

module _ {W R : Type 0} (env : Env W) (service operation : String) (call : Act W R) where
  -- the innermost closure: one call and its metrics
  unfoldable pub observed_call : Proc (Frame W R)
  observed_call f =
      let (start, w1) = env.now f.world in
      let (reply, w2) = call w1 in
      let (now, w3) = env.now w2 in
      (
        error_of reply,
        record {
          world = w3;
          metrics = observe_grpc service operation start now (error_of reply) f.metrics;
          response = value_of reply;
        },
      )

  unfoldable pub retried_call : Proc (Frame W R)
  unfolding observed_call frame_env
  retried_call = retry (frame_env env) attempts base_delay observed_call

  -- breaker.Execute around resilience.Retry
  unfoldable pub guarded_call :
      CircuitBreaker → Frame W R → Option Failure × CircuitBreaker × Frame W R
  unfolding retried_call frame_env
  guarded_call breaker f = execute (frame_env env) retried_call breaker f

-- the state of the server beside the world
pub record ApiState (W : Type 0) : Type 0 where
  pub world : W
  pub monitoring_breaker : CircuitBreaker
  pub reporting_breaker : CircuitBreaker
  pub metrics : Metrics

-- main: three failures open a breaker for ten seconds
unfoldable pub start_state : {W : Type 0} → W → ApiState W
start_state w = record {
  world = w;
  monitoring_breaker = new_circuit_breaker 3 (10 * 1000000000);
  reporting_breaker = new_circuit_breaker 3 (10 * 1000000000);
  metrics = new_metrics;
}

module _ {W : Type 0} (b : Backend W) (env : Env W) where
  -- the response to a call that failed; only an open breaker is counted
  unfoldable pub check_failed : Failure → Metrics → Response × Metrics
  check_failed circuit_open m = (
    respond 503 (detail_body "monitoring circuit breaker open" (b.message circuit_open)),
    count_circuit_open m,
  )
  check_failed e m = (respond 502 (detail_body "monitoring service unavailable" (b.message e)), m)

  -- the end of the handler, after the audit event; `resp` is set whenever there is no error
  unfoldable pub check_response :
      Option Failure → Option CheckResponse → Metrics → Response × Metrics
  unfolding check_failed
  check_response (some e) resp m = check_failed e m
  check_response none (some resp) m = (respond 200 (check_body resp), m)
  check_response none none m = (respond 200 (null_body), m)

  -- err == nil
  unfoldable pub is_nil : Option Failure → Bool
  is_nil none = true
  is_nil (some e) = false

  -- what follows the call of Execute
  unfoldable pub check_done :
      Context
      → String
      → ApiState W
      → Option Failure × CircuitBreaker × Frame W CheckResponse
      → Response × ApiState W
  unfolding check_response is_nil record_audit
  check_done c id s (e, breaker, f) =
      let (response, m) = check_response e f.response f.metrics in
      (
        response,
        record s {
          world = record_audit b c "server.check" id (is_nil e) f.world;
          monitoring_breaker = breaker;
          metrics = m;
        },
      )

  -- POST /v1/servers/:id/check; `call` is monitoringClient.Check
  unfoldable pub post_check :
      (CheckRequest → Act W CheckResponse) → Context → String → ApiState W → Response × ApiState W
  unfolding check_done
  post_check call c id s =
      let (found, w1) = b.store.get id s.world in
      elim found [
        | err e ↦ (
          respond 404 (error_body "server not found"),
          record s { world = record_audit b c "server.check" id false w1 },
        )
        | ok server ↦ check_done c id s (
            guarded_call env "monitoring" "Check"
              (call (record { server_id = server.id; address = server.address }))
              s.monitoring_breaker (record { world = w1; metrics = s.metrics; response = none }))
      ]

  unfoldable pub report_response : Option Failure → Option (UptimeResponse String) → Response
  report_response (some e) resp =
      respond 502 (detail_body "reporting service unavailable" (b.message e))
  report_response none (some resp) = respond 200 (report_body resp)
  report_response none none = respond 200 (null_body)

  unfoldable pub report_done :
      ApiState W
      → Option Failure × CircuitBreaker × Frame W (UptimeResponse String)
      → Response × ApiState W
  unfolding report_response
  report_done s (e, breaker, f) = (
    report_response e f.response,
    record s { world = f.world; reporting_breaker = breaker; metrics = f.metrics },
  )

  -- GET /v1/servers/:id/report; `call` is reportingClient.GetUptime, `show` formats a time
  unfoldable pub get_report :
      (UptimeRequest → Act W (UptimeResponse String))
      → (ℕ → String)
      → String
      → ApiState W
      → Response × ApiState W
  unfolding report_done
  get_report call show id s =
      let (to, w1) = env.now s.world in
      report_done s (
        guarded_call env "reporting" "GetUptime"
          (call (record { server_id = id; from = show (to - day); to = show to }))
          s.reporting_breaker (record { world = w1; metrics = s.metrics; response = none }))
