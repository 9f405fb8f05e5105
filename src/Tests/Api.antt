-- ===== src/Tests/Api.antt =====
-- The handlers of cmd/api/main.go while a breaker is open. The world is a clock that ticks when it is read.
use terraform_provider_viett.Prelude.{ℕ, String, ◌+◌, ◌≡◌, refl, none, [], true, arith}
use terraform_provider_viett.Go.{external, ok, err}
use terraform_provider_viett.Server.{Server}
use terraform_provider_viett.Resilience.{CircuitBreaker, Env, new_circuit_breaker}
use terraform_provider_viett.Resilience.Attempts.{DoneMeansErr}
use terraform_provider_viett.Metrics.{new_metrics}
use terraform_provider_viett.Auth.{Context}
use terraform_provider_viett.Api.Call.{respond, detail_body}
use terraform_provider_viett.Api.Calls.{Backend}
use terraform_provider_viett.Api.Remote.{ApiState, post_check, get_report}
use terraform_provider_viett.Api.Breakers.{post_check_open}
use terraform_provider_viett.Api.Failing.{get_report_failing}

abbrev web : Server
web = record { id = "web"; name = "web"; address = "10.0.0.1"; status = "up"; updated_at = 3 }

abbrev test_backend : Backend ℕ
test_backend = record {
  store = record {
    create = λ v w. (ok v, w);
    get = λ id w. (ok web, w);
    update = λ id v w. (ok v, w);
    list = λ w. (ok [], w);
  };
  audit_record = λ e w. (ok tt, w + 100);
  audit_list = λ limit w. (ok [], w);
  index = λ index id v w. (none, w);
  ping = λ w. (none, w);
  new_uuid = λ w. ("id", w);
  message = λ e. "circuit breaker open";
}

abbrev ticking : Env ℕ
ticking = record { now = λ w. (w, w + 1); ctx_err = λ w. none; wait = λ d w. (true, w + d) }

abbrev opened : CircuitBreaker
opened = record { failures = 3; failure_threshold = 3; open_until = 50; reset_timeout = 10 }

abbrev both_open : ApiState ℕ
both_open = record {
  world = 40;
  monitoring_breaker = opened;
  reporting_breaker = opened;
  metrics = new_metrics;
}

abbrev anonymous : Context
anonymous = record { authorization = ""; keys = [] }

post_check_open_example :
    post_check test_backend ticking (λ req w. (err (external "down"), w)) anonymous "web" both_open
    ≡ (
      respond 503 (detail_body "monitoring circuit breaker open" "circuit breaker open"),
      record both_open { world = 141; metrics = record new_metrics { circuit_open = 1 } },
    )
unfolding new_metrics
post_check_open_example =
    post_check_open test_backend ticking (λ req w. (err (external "down"), w)) anonymous "web"
      both_open web refl (omega arith)

ticking-DoneMeansErr : DoneMeansErr ticking
ticking-DoneMeansErr = record { at = λ d w h. absurd (cc h) }

-- the reporting breaker lets the calls through, and each of them fails
abbrev one_open : ApiState ℕ
one_open = record both_open { reporting_breaker = new_circuit_breaker 3 10 }

get_report_failing_example :
    ((message : String) × ((get_report test_backend ticking
          (λ req w. (err (external "down"), w))
          (λ t. "time")
          "web"
          one_open).0
        ≡ respond 502 (detail_body "reporting service unavailable" message)))
    × ((get_report test_backend ticking
          (λ req w. (err (external "down"), w))
          (λ t. "time")
          "web"
          one_open).1.monitoring_breaker
        ≡ opened)
    × ((get_report test_backend ticking
          (λ req w. (err (external "down"), w))
          (λ t. "time")
          "web"
          one_open).1.metrics.circuit_open
        ≡ 0)
unfolding new_metrics
get_report_failing_example =
    get_report_failing test_backend ticking ticking-DoneMeansErr
      (λ req w. (err (external "down"), w)) (λ t. "time") "web" one_open
      (λ req w. (external "down", refl))
