-- ===== src/Api/Failing.antt =====
-- GET /v1/servers/:id/report of cmd/api/main.go while every call of the reporting service fails.
use terraform_provider_viett.Prelude.{
  ℕ, zero, suc, ◌-◌, String, ◌≡◌, ◌≢◌, refl, ap, Option, none, some, arith,
}
use terraform_provider_viett.Go.{Failure, err, Act, Proc}
use terraform_provider_viett.Resilience.{
  CircuitBreaker, Env, delay, retry_from, retry, settle, execute,
}
use terraform_provider_viett.Resilience.Attempts.{DoneMeansErr, retry_succeeds}
use terraform_provider_viett.Metrics.{observe_grpc}
use terraform_provider_viett.Grpc.{UptimeRequest, UptimeResponse, day}
use terraform_provider_viett.Api.Call.{respond, detail_body}
use terraform_provider_viett.Api.Calls.{Backend}
use terraform_provider_viett.Api.Remote.{
  Frame, frame_env, observed_call, retried_call, guarded_call, ApiState, report_response,
  report_done, get_report,
}

-- a number that neither a call nor its surroundings change
record Keeps {W : Type 0} (env : Env W) (fn : Proc W) (count : W → ℕ) : Type 0 where
  by_call : (w : W) → count (fn w).1 ≡ count w
  by_wait : (d : ℕ) (w : W) → count (env.wait d w).1 ≡ count w
  by_now : (w : W) → count (env.now w).1 ≡ count w

module _ {W : Type 0} (env : Env W) (fn : Proc W) (count : W → ℕ) (keeps : Keeps env fn count)
    (attempts base_delay : ℕ) where
  retry_from-keeps :
      (left attempt : ℕ) (e : Option Failure) (w : W)
      → count (retry_from env attempts base_delay fn left attempt e w).1 ≡ count w
  unfolding retry_from
  retry_from-keeps zero attempt e w = refl
  retry_from-keeps (suc left) attempt e w = ground (
    arith,
    keeps.by_call w,
    keeps.by_wait (delay base_delay attempt) (fn w).1,
    retry_from-keeps left (suc attempt) (fn w).0 (env.wait (delay base_delay attempt) (fn w).1).1,
  )

  retry-keeps : (w : W) → count (retry env attempts base_delay fn w).1 ≡ count w
  unfolding retry
  retry-keeps w = retry_from-keeps attempts 0 none w

module _ {W : Type 0} (env : Env W) (fn : Proc W) (c : CircuitBreaker) (w : W) where
  execute_same_count : (count : W → ℕ) → Keeps env fn count → count (execute env fn c w).2 ≡ count w
  unfolding execute settle
  execute_same_count count keeps =
      ground (arith, keeps.by_now w, keeps.by_call (env.now w).1, keeps.by_now (fn (env.now w).1).1)

  execute_fails : (fn (env.now w).1).0 ≢ none → (execute env fn c w).0 ≢ none
  unfolding execute settle
  execute_fails fails = ground arith

-- the rejections that are counted
abbrev rejections : {W R : Type 0} → Frame W R → ℕ
rejections f = f.metrics.circuit_open

-- a call that gives an error in every state
abbrev pub AlwaysFails : {W R : Type 0} → Act W R → Type 0
AlwaysFails {W} call = (w : W) → (e : Failure) × ((call w).0 ≡ err e)

module _ {W R : Type 0} (env : Env W) (law : DoneMeansErr env) (service operation : String)
    (call : Act W R) where
  frame_law : DoneMeansErr (frame_env {R = R} env)
  unfolding frame_env
  frame_law = record { at = λ d f. law.at d f.world }

  observed_call-Keeps : Keeps (frame_env env) (observed_call env service operation call) rejections
  unfolding frame_env observed_call observe_grpc
  observed_call-Keeps = record { by_call = λ f. refl; by_wait = λ d f. refl; by_now = λ f. refl }

  retried_call-Keeps : Keeps (frame_env env) (retried_call env service operation call) rejections
  unfolding retried_call
  retried_call-Keeps = record {
    by_call =
        retry-keeps (frame_env env) (observed_call env service operation call) rejections
          observed_call-Keeps 3 50000000;
    by_wait = observed_call-Keeps.by_wait;
    by_now = observed_call-Keeps.by_now;
  }

  guarded_call-keeps :
      (breaker : CircuitBreaker) (f : Frame W R)
      → rejections (guarded_call env service operation call breaker f).2 ≡ rejections f
  unfolding guarded_call
  guarded_call-keeps breaker f =
      execute_same_count (frame_env env) (retried_call env service operation call) breaker f
        rejections retried_call-Keeps

  observed_call_fails :
      AlwaysFails call → (f : Frame W R) → (observed_call env service operation call f).0 ≢ none
  unfolding observed_call
  observed_call_fails fails f h =
      let (e, failed) = fails (env.now f.world).1 in absurd (ground (arith, h, failed))

  retried_call_fails :
      AlwaysFails call → (f : Frame W R) → (retried_call env service operation call f).0 ≢ none
  unfolding retried_call
  retried_call_fails fails f h =
      let (u, same) =
        retry_succeeds (frame_env env) 3 50000000 (observed_call env service operation call)
          frame_law f (omega arith) h in
      observed_call_fails fails u (ap (λ r. r.0) same)

  guarded_call_fails :
      AlwaysFails call
      → (breaker : CircuitBreaker) (f : Frame W R)
      → (guarded_call env service operation call breaker f).0 ≢ none
  unfolding guarded_call
  guarded_call_fails fails breaker f =
      execute_fails (frame_env env) (retried_call env service operation call) breaker f
        (retried_call_fails fails ((frame_env env).now f).1)

module _ {W : Type 0} (b : Backend W) (env : Env W) (law : DoneMeansErr env) where
  report_of_failure :
      (s : ApiState W) (r : Option Failure × CircuitBreaker × Frame W (UptimeResponse String))
      → r.0 ≢ none
      → (message : String) × ((report_done b env s r).0
          ≡ respond 502 (detail_body "reporting service unavailable" message))
  unfolding report_done report_response
  report_of_failure s (none, c, f) h = absurd (h refl)
  report_of_failure s (some e, c, f) h = (b.message e, refl)

  -- If every call of the reporting service fails, and a context that ends a wait has an error, a report is
  -- answered with 502 in every state of the breakers, open ones included; the monitoring breaker stays as it
  -- is, and no rejection is counted in the metrics.
  pub get_report_failing :
      (call : UptimeRequest → Act W (UptimeResponse String)) (show : ℕ → String) (id : String)
      (s : ApiState W)
      → ((req : UptimeRequest) → AlwaysFails (call req))
      → ((message : String) × ((get_report b env call show id s).0
            ≡ respond 502 (detail_body "reporting service unavailable" message)))
        × ((get_report b env call show id s).1.monitoring_breaker ≡ s.monitoring_breaker)
        × ((get_report b env call show id s).1.metrics.circuit_open ≡ s.metrics.circuit_open)
  unfolding get_report report_done guarded_call
  get_report_failing call show id s fails =
      let req : UptimeRequest = record {
        server_id = id;
        from = show ((env.now s.world).0 - day);
        to = show (env.now s.world).0;
      } in
      let f : Frame W (UptimeResponse String) = record {
        world = (env.now s.world).1;
        metrics = s.metrics;
        response = none;
      } in
      (
        report_of_failure s
            (guarded_call env "reporting" "GetUptime" (call req) s.reporting_breaker f)
            (guarded_call_fails env law "reporting" "GetUptime" (call req) (fails req)
              s.reporting_breaker f),
        refl,
        guarded_call-keeps env law "reporting" "GetUptime" (call req) s.reporting_breaker f,
      )
