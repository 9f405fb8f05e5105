-- ===== src/Tests/Resilience.antt =====
-- internal/resilience/circuit.go at concrete inputs: a breaker with two failures of two, and a call
-- that fails twice and then works.
use terraform_provider_viett.Prelude.{
  ℕ, ◌+◌, ◌-◌, ◌*◌, ◌^◌, ◌≤◌, ◌≡◌, refl, true, ◌&&◌, none, some, List, [], ◌∷◌, arith, ltb, leb,
  if◌then◌else◌,
}
use terraform_provider_viett.Go.{external, Proc}
use terraform_provider_viett.Resilience.{
  CircuitBreaker, new_circuit_breaker, is_open, Env, execute, delay, retry,
}
use terraform_provider_viett.Resilience.History.{
  Event, admitted, failed, replay, streak, last_failure, is_open-replay,
}
use terraform_provider_viett.Resilience.Breaker.{events_of, execute-replay}
use terraform_provider_viett.Resilience.Attempts.{
  Counts, DoneMeansErr, retry_exhausts, retry_succeeds,
}
use terraform_provider_viett.Resilience.Waiting.{Sleeps, slept-retry}

-- how many calls were made and how long the program slept; the clock reads 5 more than that
abbrev World : Type 0
World = ℕ × ℕ

abbrev test_env : Env World
test_env = record {
  now = λ w. (w.1 + 5, w);
  ctx_err = λ w. none;
  wait = λ d w. (true, (w.0, w.1 + d));
}

-- the call works from its third time on
unfoldable flaky : Proc World
flaky w = (if leb 2 w.0 then none else some (external "refused"), (w.0 + 1, w.1))

unfoldable refused : Proc World
refused w = (some (external "refused"), (w.0 + 1, w.1))

abbrev two_failures : List Event
two_failures = failed 9 ∷ admitted ∷ failed 4 ∷ admitted ∷ []

is_open-replay_example :
    is_open (replay (new_circuit_breaker 2 10) two_failures) 12
    ≡ (leb 2 (streak two_failures) && ltb 12 (last_failure two_failures + 10))
is_open-replay_example = is_open-replay 2 10 two_failures 12 (omega arith)

abbrev tripped : CircuitBreaker
tripped = record { failures = 2; failure_threshold = 2; open_until = 19; reset_timeout = 10 }

execute-replay_example :
    (execute test_env refused tripped (0, 30)).1
    ≡ replay tripped (events_of tripped 35 (refused (0, 30)).0 35)
unfolding refused
execute-replay_example = execute-replay test_env refused tripped (0, 30)

abbrev flaky_counts : Counts test_env flaky (λ w. w.0)
unfolding flaky
flaky_counts = record { by_call = λ w. refl; by_wait = λ d w. refl }

abbrev refused_counts : Counts test_env refused (λ w. w.0)
unfolding refused
refused_counts = record { by_call = λ w. refl; by_wait = λ d w. refl }

abbrev refused_sleeps : Sleeps test_env refused (λ w. w.1)
unfolding refused
refused_sleeps = record { by_call = λ w. refl; by_wait = λ d w. omega arith }

refused_fails : (retry test_env 3 100 refused (0, 0)).0 ≡ some (external "refused")
unfolding retry refused delay
refused_fails = refl

retry_exhausts_example : (retry test_env 3 100 refused (0, 0)).1.0 ≡ 0 + 3
retry_exhausts_example =
    retry_exhausts test_env 3 100 refused (λ w. w.0) refused_counts (0, 0)
      (λ e. ground (arith, refused_fails)) refl

flaky_works : (retry test_env 3 100 flaky (0, 0)).0 ≡ none
unfolding retry flaky delay
flaky_works = refl

test_env-DoneMeansErr : DoneMeansErr test_env
test_env-DoneMeansErr = record { at = λ d w h. absurd (cc h) }

retry_succeeds_example : (u : World) × (flaky u ≡ (none, (retry test_env 3 100 flaky (0, 0)).1))
retry_succeeds_example =
    retry_succeeds test_env 3 100 flaky test_env-DoneMeansErr (0, 0) (omega arith) flaky_works

slept-retry_example : (retry test_env 3 100 refused (0, 0)).1.1 + 100 ≤ 0 + 100 * 2 ^ (3 - 1)
slept-retry_example =
    slept-retry test_env 3 100 refused (λ w. w.1) refused_sleeps (0, 0) (omega arith)
