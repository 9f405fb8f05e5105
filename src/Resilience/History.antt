-- ===== src/Resilience/History.antt =====
-- The breaker of internal/resilience/circuit.go as a function of what happened to it, for any
-- interleaving of the calls that share it.
use terraform_provider_viett.Prelude.{
  ℕ, ◌+◌, ◌<◌, ◌≡◌, List, [], ◌∷◌, arith, leb, if◌then◌else◌, ltb, ◌&&◌,
}
use terraform_provider_viett.Resilience.{
  CircuitBreaker, new_circuit_breaker, is_open, on_success, count_failure, trips, trip,
}

-- The critical sections of the calls, in the order in which they hold the mutex: the first one
-- lets a call in or rejects it and changes nothing, the second settles a call that was let in.
pub data Event : Type 0 where
  admitted rejected succeeded : Event
  failed : ℕ → Event

unfoldable pub apply : CircuitBreaker → Event → CircuitBreaker
unfolding on_success count_failure trips trip
apply c admitted = c
apply c rejected = c
apply c succeeded = on_success c
apply c (failed now) = let c' = count_failure c in if trips c' then trip c' now else c'

-- the newest event comes first
unfoldable pub replay : CircuitBreaker → List Event → CircuitBreaker
replay c [] = c
replay c (e ∷ older) = apply (replay c older) e

-- how many calls failed since the last one that succeeded
unfoldable pub streak : List Event → ℕ
streak [] = 0
streak (admitted ∷ older) = streak older
streak (rejected ∷ older) = streak older
streak (succeeded ∷ older) = 0
streak (failed now ∷ older) = streak older + 1

-- when the last failure was settled
unfoldable pub last_failure : List Event → ℕ
last_failure [] = 0
last_failure (admitted ∷ older) = last_failure older
last_failure (rejected ∷ older) = last_failure older
last_failure (succeeded ∷ older) = last_failure older
last_failure (failed now ∷ older) = now

-- What a breaker with a threshold and a timeout promises after a history.
pub record Describes (threshold timeout : ℕ) (h : List Event) (c : CircuitBreaker) : Type 0 where
  pub failures : c.failures ≡ streak h
  pub same_threshold : c.failure_threshold ≡ threshold
  pub same_timeout : c.reset_timeout ≡ timeout
  pub open_until : c.open_until ≡ (if leb threshold (streak h) then last_failure h + timeout else 0)

apply-Describes :
    (threshold timeout : ℕ) (h : List Event) (c : CircuitBreaker) (e : Event)
    → 0 < threshold
    → Describes threshold timeout h c
    → Describes threshold timeout (e ∷ h) (apply c e)
unfolding apply streak last_failure
apply-Describes threshold timeout h c admitted pos d = ground arith
apply-Describes threshold timeout h c rejected pos d = ground arith
apply-Describes threshold timeout h c succeeded pos d = ground arith
apply-Describes threshold timeout h c (failed now) pos d = ground arith

replay-Describes :
    (threshold timeout : ℕ) (h : List Event)
    → 0 < threshold
    → Describes threshold timeout h (replay (new_circuit_breaker threshold timeout) h)
unfolding replay new_circuit_breaker streak
replay-Describes threshold timeout [] pos = ground arith
replay-Describes threshold timeout (e ∷ h) pos =
    apply-Describes threshold timeout h (replay (new_circuit_breaker threshold timeout) h) e pos
      (replay-Describes threshold timeout h pos)

-- With a positive threshold, after any interleaving of calls a new breaker rejects at time `now`
-- exactly if at least `threshold` calls failed since the last success and the last failure was
-- settled less than `timeout` ago.
pub is_open-replay :
    (threshold timeout : ℕ) (h : List Event) (now : ℕ)
    → 0 < threshold
    → is_open (replay (new_circuit_breaker threshold timeout) h) now
      ≡ (leb threshold (streak h) && ltb now (last_failure h + timeout))
unfolding is_open
is_open-replay threshold timeout h now pos =
    ground (arith, (replay-Describes threshold timeout h pos).open_until)
