-- ===== src/Resilience.antt =====
-- internal/resilience/circuit.go: the circuit breaker and the retry loop. A `time.Time` is the
-- number of nanoseconds since Go's zero time, so `time.Time{}` is 0; a `time.Duration` that the
-- program configures is a natural number. The counter `failures` goes up by one for a call and is
-- left unbounded.
pub mod History
pub mod Breaker
pub mod Attempts
pub mod Waiting
use terraform_provider_viett.Prelude.{
  ℕ, zero, suc, ◌+◌, ◌-◌, ◌*◌, ◌%◌, ◌^◌, Bool, true, false, Option, none, some, ltb, leb, num_eq,
  if◌then◌else◌,
}
use terraform_provider_viett.Go.{Failure, circuit_open, Proc}

pub record CircuitBreaker : Type 0 where
  pub failures : ℕ
  pub failure_threshold : ℕ
  pub open_until : ℕ
  pub reset_timeout : ℕ

-- NewCircuitBreaker
unfoldable pub new_circuit_breaker : ℕ → ℕ → CircuitBreaker
new_circuit_breaker failure_threshold reset_timeout = record {
  failures = 0;
  failure_threshold = failure_threshold;
  open_until = 0;
  reset_timeout = reset_timeout;
}

-- the test of the first critical section of Execute
unfoldable pub is_open : CircuitBreaker → ℕ → Bool
is_open c now = ltb now c.open_until

-- the second critical section of Execute, when the call returned no error
unfoldable pub on_success : CircuitBreaker → CircuitBreaker
on_success c = record c { failures = 0; open_until = 0 }

unfoldable pub count_failure : CircuitBreaker → CircuitBreaker
count_failure c = record c { failures = c.failures + 1 }

unfoldable pub trips : CircuitBreaker → Bool
trips c = leb c.failure_threshold c.failures

unfoldable pub trip : CircuitBreaker → ℕ → CircuitBreaker
trip c now = record c { open_until = now + c.reset_timeout }

-- What a call takes from `time` and `context`: a reading of the clock, `ctx.Err()`, and the `select`
-- on `ctx.Done()` and a timer, whose answer is whether the timer fired.
pub record Env (W : Type 0) : Type 0 where
  pub now : W → ℕ × W
  pub ctx_err : W → Option Failure
  pub wait : ℕ → W → Bool × W

module _ {W : Type 0} (env : Env W) where
  -- the second critical section of Execute; the clock is read only if the threshold is reached
  unfoldable pub settle : CircuitBreaker → Option Failure → W → Option Failure × CircuitBreaker × W
  unfolding on_success count_failure trips trip
  settle c none w = (none, on_success c, w)
  settle c (some e) w =
      let c' = count_failure c in
      if trips c' then (let (t, w') = env.now w in (some e, trip c' t, w')) else (some e, c', w)

  -- Execute, when no other call changes the breaker while `fn` runs
  unfoldable pub execute : Proc W → CircuitBreaker → W → Option Failure × CircuitBreaker × W
  unfolding is_open settle
  execute fn c w =
      let (t, w') = env.now w in
      if is_open c t then (some circuit_open, c, w') else (let (e, w'') = fn w' in settle c e w'')

-- baseDelay * time.Duration(1<<attempt) in int64; a timer of a negative duration fires at once
unfoldable pub delay : ℕ → ℕ → ℕ
delay base_delay attempt =
    let d = (base_delay * 2 ^ attempt) % 2 ^ 64 in if ltb d (2 ^ 63) then d else 0

module _ {W : Type 0} (env : Env W) (attempts base_delay : ℕ) (fn : Proc W) where
  -- the loop of Retry with `left` rounds to go: `attempt + left` is `attempts`
  unfoldable pub retry_from : ℕ → ℕ → Option Failure → W → Option Failure × W
  retry_from zero attempt e w = (e, w)
  retry_from (suc left) attempt e w = elim (env.ctx_err w) [
    | some c ↦ (some c, w)
    | none ↦
        let (r, w') = fn w in
        elim r [
          | none ↦ (none, w')
          | some f ↦ elim (num_eq attempt (attempts - 1)) [
            | true ↦ (some f, w')
            | false ↦
                let (fired, w'') = env.wait (delay base_delay attempt) w' in
                elim fired [
                  | true ↦ retry_from left (suc attempt) (some f) w''
                  | false ↦ (env.ctx_err w'', w'')
                ]
          ]
        ]
  ]

  -- Retry
  unfoldable pub retry : Proc W
  unfolding retry_from
  retry w = retry_from attempts 0 none w
