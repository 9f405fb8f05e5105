-- ===== src/Resilience/Attempts.antt =====
-- Retry of internal/resilience/circuit.go: how often it makes the call, and what its result means.
use terraform_provider_viett.Prelude.{
  ℕ, zero, suc, ◌+◌, ◌≤◌, ◌<◌, ◌≡◌, ◌≢◌, refl, false, Option, none, some, arith,
}
use terraform_provider_viett.Go.{Failure, Proc}
use terraform_provider_viett.Resilience.{Env, delay, retry_from, retry}

-- `calls` counts the calls made so far: the call adds one, waiting adds none.
pub record Counts {W : Type 0} (env : Env W) (fn : Proc W) (calls : W → ℕ) : Type 0 where
  pub by_call : (w : W) → calls (fn w).1 ≡ calls w + 1
  pub by_wait : (d : ℕ) (w : W) → calls (env.wait d w).1 ≡ calls w

-- As `context` documents it: once `Done` is closed, `Err` is not nil.
pub record DoneMeansErr {W : Type 0} (env : Env W) : Type 0 where
  pub at : (d : ℕ) (w : W) → (env.wait d w).0 ≡ false → env.ctx_err (env.wait d w).1 ≢ none

module _ {W : Type 0} (env : Env W) (attempts base_delay : ℕ) (fn : Proc W) where
  abbrev run_from : ℕ → ℕ → Option Failure → W → Option Failure × W
  run_from = retry_from env attempts base_delay fn

  module _ (calls : W → ℕ) (counts : Counts env fn calls) where
    abbrev InRange : ℕ → W → W → Type 0
    InRange left w w' = (calls w ≤ calls w') × (calls w' ≤ calls w + left)

    retry_from-calls :
        (left attempt : ℕ) (e : Option Failure) (w : W)
        → InRange left w (run_from left attempt e w).1
    unfolding retry_from
    retry_from-calls zero attempt e w = omega arith
    retry_from-calls (suc left) attempt e w = ground (
      arith,
      counts.by_call w,
      counts.by_wait (delay base_delay attempt) (fn w).1,
      retry_from-calls left (suc attempt) (fn w).0 (env.wait (delay base_delay attempt) (fn w).1).1,
    )

    -- Retry makes the call at most `attempts` times, as counted by any number that a call raises
    -- by one and a wait leaves as it is.
    pub retry-calls-le : (w : W) → calls (retry env attempts base_delay fn w).1 ≤ calls w + attempts
    unfolding retry
    retry-calls-le w = (retry_from-calls attempts 0 none w).1

    retry_from_exhausts :
        (left attempt : ℕ) (e : Option Failure) (w : W)
        → attempt + suc left ≡ attempts
        → (run_from (suc left) attempt e w).0 ≢ none
        → env.ctx_err (run_from (suc left) attempt e w).1 ≡ none
        → calls (run_from (suc left) attempt e w).1 ≡ calls w + suc left
    unfolding retry_from
    retry_from_exhausts zero attempt e w total fails live = ground (arith, counts.by_call w)
    retry_from_exhausts (suc left) attempt e w total fails live = ground (
      arith,
      counts.by_call w,
      counts.by_wait (delay base_delay attempt) (fn w).1,
      retry_from_exhausts left (suc attempt) (fn w).0
          (env.wait (delay base_delay attempt) (fn w).1).1,
    )

    exhausts_from :
        (left attempt : ℕ) (w : W)
        → attempt + left ≡ attempts
        → (run_from left attempt none w).0 ≢ none
        → env.ctx_err (run_from left attempt none w).1 ≡ none
        → calls (run_from left attempt none w).1 ≡ calls w + left
    unfolding retry_from
    exhausts_from zero attempt w total fails live = absurd (fails refl)
    exhausts_from (suc left) attempt w total fails live =
        retry_from_exhausts left attempt none w total fails live

    -- With calls counted in the same way: if Retry returns an error and the context has no error
    -- at the end, it has made the call exactly `attempts` times.
    pub retry_exhausts :
        (w : W)
        → (retry env attempts base_delay fn w).0 ≢ none
        → env.ctx_err (retry env attempts base_delay fn w).1 ≡ none
        → calls (retry env attempts base_delay fn w).1 ≡ calls w + attempts
    unfolding retry
    retry_exhausts w fails live = exhausts_from attempts 0 w (omega arith) fails live

  module _ (law : DoneMeansErr env) where
    -- the state before the last call that the loop makes
    last_call : ℕ → ℕ → W → W
    last_call zero attempt w = w
    last_call (suc left) attempt w =
        let (r, w') = fn w in
        elim r [
          | none ↦ w
          | some f ↦ last_call left (suc attempt) (env.wait (delay base_delay attempt) w').1
        ]

    retry_from_succeeds :
        (left attempt : ℕ) (e : Option Failure) (w : W)
        → attempt + suc left ≡ attempts
        → (run_from (suc left) attempt e w).0 ≡ none
        → fn (last_call (suc left) attempt w) ≡ (none, (run_from (suc left) attempt e w).1)
    unfolding retry_from last_call
    retry_from_succeeds zero attempt e w total h =
        ground (arith, law.at (delay base_delay attempt) (fn w).1)
    retry_from_succeeds (suc left) attempt e w total h = ground (
      arith,
      law.at (delay base_delay attempt) (fn w).1,
      retry_from_succeeds left (suc attempt) (fn w).0
          (env.wait (delay base_delay attempt) (fn w).1).1,
    )

    succeeds_from :
        (left attempt : ℕ) (w : W)
        → attempt + left ≡ attempts
        → 0 < left
        → (run_from left attempt none w).0 ≡ none
        → fn (last_call left attempt w) ≡ (none, (run_from left attempt none w).1)
    succeeds_from zero attempt w total pos h = absurd (omega arith)
    succeeds_from (suc left) attempt w total pos h = retry_from_succeeds left attempt none w total h

    -- If a context that ends a wait has an error, Retry is to make at least one attempt and it
    -- returns no error, then the call in some state returned no error and left the state in which
    -- Retry returns.
    pub retry_succeeds :
        (w : W)
        → 0 < attempts
        → (retry env attempts base_delay fn w).0 ≡ none
        → (u : W) × (fn u ≡ (none, (retry env attempts base_delay fn w).1))
    unfolding retry
    retry_succeeds w pos h =
        (last_call attempts 0 w, succeeds_from attempts 0 w (omega arith) pos h)
