-- ===== src/Resilience/Breaker.antt =====
-- Execute of internal/resilience/circuit.go: one call against the breaker's history, and the path
-- from closed to open and back.
use terraform_provider_viett.Prelude.{
  ℕ, ◌≤◌, ◌<◌, ◌≡◌, Option, none, some, List, [], ◌∷◌, arith, if◌then◌else◌, lt→ltb,
}
use terraform_provider_viett.Go.{Failure, circuit_open, Proc}
use terraform_provider_viett.Resilience.{CircuitBreaker, Env, is_open, execute}
use terraform_provider_viett.Resilience.History.{
  Event, admitted, rejected, succeeded, failed, apply, replay,
}

-- the events that a call of Execute adds, newest first: `t` is the reading of the clock at its
-- start, `e` what the call returned and `t'` the reading after it
abbrev pub events_of : CircuitBreaker → ℕ → Option Failure → ℕ → List Event
events_of c t e t' =
    if is_open c t
    then rejected ∷ []
    else (elim e [ none ↦ succeeded | some _ ↦ failed t' ]) ∷ admitted ∷ []

module _ {W : Type 0} (env : Env W) (fn : Proc W) (c : CircuitBreaker) (w : W) where
  abbrev started : ℕ
  started = (env.now w).0

  abbrev after_now : W
  after_now = (env.now w).1

  abbrev outcome : Option Failure
  outcome = (fn after_now).0

  abbrev after_call : W
  after_call = (fn after_now).1

  -- While the breaker is open, Execute returns the error of an open circuit, changes nothing in the
  -- breaker and does not make the call: the world only has its clock read.
  pub execute_open : started < c.open_until → execute env fn c w ≡ (some circuit_open, c, after_now)
  unfolding execute
  execute_open h = ground (arith, lt→ltb started c.open_until h)

  -- Execute leaves the breaker as the events of the call do: a rejection, or an admission and then
  -- a success or a failure settled at the time that is read after the call.
  pub execute-replay :
      (execute env fn c w).1 ≡ replay c (events_of c started outcome (env.now after_call).0)
  unfolding execute replay apply
  execute-replay = ground arith

  -- What Execute returns when the breaker lets the call in is what the call returned.
  pub execute_admitted : c.open_until ≤ started → (execute env fn c w).0 ≡ outcome
  unfolding execute
  execute_admitted h = ground arith
