-- ===== src/Resilience/Waiting.antt =====
-- The backoff of Retry in internal/resilience/circuit.go: the delays double, and their sum is bounded.
use native.Mathlib.Nat.{pow-suc, mod-le, zero-add, suc-add, add-zero}
use terraform_provider_viett.Prelude.{
  ℕ, zero, suc, ◌+◌, ◌-◌, ◌*◌, ◌^◌, ◌≤◌, ◌<◌, ◌≡◌, refl, ap, Option, none, arith,
}
use terraform_provider_viett.Go.{Failure, Proc}
use terraform_provider_viett.Resilience.{Env, delay, retry_from, retry}

-- the base delay doubled `k` times
doubled : ℕ → ℕ → ℕ
doubled b k = b * 2 ^ k

doubled-suc : (b k : ℕ) → doubled b (suc k) ≡ doubled b k + doubled b k
unfolding doubled
doubled-suc b k = rw pow-suc (omega arith)

doubled_mono : (b k n : ℕ) → doubled b k ≤ doubled b (n + k)
doubled_mono b k zero = rw (zero-add k) (omega arith)
doubled_mono b k (suc n) =
    rw (suc-add n k) (omega (arith, doubled-suc b (n + k), doubled_mono b k n))

suc-sub-one : (n : ℕ) → suc n - 1 ≡ n
suc-sub-one n = omega arith

doubled_shift : (b m k : ℕ) → doubled b (m + suc k) ≡ doubled b (suc m + k)
doubled_shift b m k = ap (doubled b) (omega arith)

delay-le : (base_delay attempt : ℕ) → delay base_delay attempt ≤ doubled base_delay attempt
unfolding delay doubled
delay-le base_delay attempt = ground (arith, mod-le (base_delay * 2 ^ attempt) (2 ^ 64))

-- Below 2^63 nanoseconds the delay after attempt k is the base delay times 2^k.
delay_exact :
    (base_delay attempt : ℕ)
    → base_delay * 2 ^ attempt < 2 ^ 63
    → delay base_delay attempt ≡ base_delay * 2 ^ attempt
unfolding delay
delay_exact base_delay attempt h = ground arith

-- `slept` is the time waited so far: the call adds none, waiting at most what was asked for.
pub record Sleeps {W : Type 0} (env : Env W) (fn : Proc W) (slept : W → ℕ) : Type 0 where
  pub by_call : (w : W) → slept (fn w).1 ≡ slept w
  pub by_wait : (d : ℕ) (w : W) → slept (env.wait d w).1 ≤ slept w + d

module _ {W : Type 0} (env : Env W) (attempts base_delay : ℕ) (fn : Proc W) where
  module _ (slept : W → ℕ) (sleeps : Sleeps env fn slept) where
    slept-retry_from :
        (left attempt : ℕ) (e : Option Failure) (w : W)
        → attempt + suc left ≡ attempts
        → slept (retry_from env attempts base_delay fn (suc left) attempt e w).1
            + doubled base_delay attempt
          ≤ slept w + doubled base_delay (left + attempt)
    unfolding retry_from
    slept-retry_from zero attempt e w total =
        ground (arith, sleeps.by_call w, doubled_mono base_delay attempt 0)
    slept-retry_from (suc left) attempt e w total = ground (
      arith,
      sleeps.by_call w,
      sleeps.by_wait (delay base_delay attempt) (fn w).1,
      delay-le base_delay attempt,
      doubled-suc base_delay attempt,
      doubled_mono base_delay (suc attempt) left,
      doubled_mono base_delay attempt (suc left),
      doubled_shift base_delay left attempt,
      slept-retry_from left (suc attempt) (fn w).0 (env.wait (delay base_delay attempt) (fn w).1).1,
    )

    slept_from :
        (left : ℕ) (w : W)
        → suc left ≡ attempts
        → slept (retry_from env attempts base_delay fn (suc left) 0 none w).1 + base_delay
          ≤ slept w + base_delay * 2 ^ left
    unfolding doubled
    slept_from left w total = omega (
      arith,
      ap (λ (k : ℕ). base_delay * 2 ^ k) (add-zero left),
      slept-retry_from left 0 none w (omega arith),
    )

    slept_within :
        (n : ℕ) (w : W)
        → n ≡ attempts
        → 0 < n
        → slept (retry_from env attempts base_delay fn n 0 none w).1 + base_delay
          ≤ slept w + base_delay * 2 ^ (n - 1)
    slept_within zero w total pos = absurd (omega arith)
    slept_within (suc left) w total pos = rw (suc-sub-one left) (slept_from left w total)

    -- Retry with at least one attempt waits in all at most the base delay times (2^(attempts - 1)
    -- - 1), as measured by any number that a call leaves as it is and a wait raises by at most
    -- what it is asked to wait.
    pub slept-retry :
        (w : W)
        → 0 < attempts
        → slept (retry env attempts base_delay fn w).1 + base_delay
          ≤ slept w + base_delay * 2 ^ (attempts - 1)
    unfolding retry
    slept-retry w pos = slept_within attempts w refl pos
