-- ===== src/Monitoring/Progress.antt =====
-- The pool of CheckAll in internal/monitoring/checker.go always ends.
use terraform_provider_viett.Prelude.{
  ℕ, zero, suc, ◌+◌, ◌*◌, ◌<◌, ◌≤◌, ◌≡◌, refl, ap, Bool, true, false, List, [], ◌∷◌, arith, length,
  ◌⊎◌, inl, inr,
}
use terraform_provider_viett.Monitoring.{
  Checker, CheckResult, Target, PoolState, worker_count, start_pool, Step, send, deliver,
  close_jobs, exit, close_out, collect, Returned, Run, here, next,
}
use terraform_provider_viett.Monitoring.Pool.{Inv, start-Inv, Run-Inv, length-middle, length-one}

-- CheckAll starts at least one worker, whatever number it is configured with.
pub worker_count_pos : (c : Checker) → 0 < worker_count c
unfolding worker_count
worker_count_pos c = ground arith

abbrev open_flag : Bool → ℕ
open_flag true = 0
open_flag false = 1

-- what is left to do
unfoldable pub work_left : PoolState → ℕ
work_left p =
    5 * length p.pending
    + 3 * length p.busy
    + length p.out
    + p.idle
    + open_flag p.jobs_closed
    + open_flag p.out_closed

module _ (workers capacity : ℕ) where
  Step-work_left : {p q : PoolState} → Step workers capacity p q → work_left q < work_left p
  unfolding work_left
  Step-work_left (send t rest n pending idle) = omega (arith, ap length pending)
  Step-work_left {p} (deliver t before after r busy same room) =
      omega (arith, length-middle t before after p.busy busy, length-one p.out r)
  Step-work_left (close_jobs none_left not_yet) = omega (arith, ap open_flag not_yet)
  Step-work_left (exit n closed idle) = omega arith
  Step-work_left (close_out closed all not_yet) = omega (arith, ap open_flag not_yet)
  Step-work_left (collect r rest out) = omega (arith, ap length out)

  Run-work_left :
      {p : PoolState} {n : ℕ} {q : PoolState}
      → Run workers capacity p n q
      → work_left q + n ≤ work_left p
  Run-work_left here = omega arith
  Run-work_left (next run step) = omega (arith, Run-work_left run, Step-work_left step)

-- No run of CheckAll takes more than 5 steps for a target, one for a worker and two more.
pub Run-bounded :
    (c : Checker) (ts : List Target) {n : ℕ} {p : PoolState}
    → Run (worker_count c) (length ts) (start_pool c ts) n p
    → n ≤ 5 * length ts + worker_count c + 2
unfolding work_left start_pool
Run-bounded c ts run = omega (arith, Run-work_left (worker_count c) (length ts) run)

-- a result that a check of a target can give
abbrev some_result : Target → CheckResult
some_result t = record { server_id = t.id; up = false; latency_ms = 0; checked_at = 0; error = "" }

module _ (workers : ℕ) (ts : List Target) (p : PoolState) (pos_workers : 0 < workers)
    (v : Inv workers ts p) where
  abbrev CanStep : Type 0
  CanStep = (q : PoolState) × Step workers (length ts) p q

  abbrev Goes : Type 0
  Goes = Returned p ⊎ CanStep

  -- no worker is busy, nothing is left to send and `jobs` is closed
  closed_jobs :
      p.busy ≡ [] → p.out_closed ≡ false → p.jobs_closed ≡ true → (n : ℕ) → p.idle ≡ n → Goes
  closed_jobs busy not_yet closed zero idle =
      inr (_, close_out closed (omega (arith, v.staffed, ap length busy)) not_yet)
  closed_jobs busy not_yet closed (suc n) idle = inr (_, exit n closed (omega arith))

  nothing_pending :
      p.busy ≡ [] → p.out_closed ≡ false → p.pending ≡ [] → (b : Bool) → p.jobs_closed ≡ b → Goes
  nothing_pending busy not_yet none_left true closed = closed_jobs busy not_yet closed p.idle refl
  nothing_pending busy not_yet none_left false open_jobs = inr (_, close_jobs none_left open_jobs)

  none_exited : (t : Target) (rest : List Target) → p.pending ≡ t ∷ rest → p.exited ≡ 0
  none_exited t rest pending = by_exited p.exited refl
    where
      by_exited : (n : ℕ) → p.exited ≡ n → p.exited ≡ 0
      by_exited zero e = e
      by_exited (suc n) e = cc (v.closing (v.leaving (omega (arith, e))), pending)

  waiting_worker : p.busy ≡ [] → p.exited ≡ 0 → (n : ℕ) → p.idle ≡ n → (m : ℕ) × (p.idle ≡ m + 1)
  waiting_worker busy stay zero idle =
      absurd (omega (arith, v.staffed, ap length busy, pos_workers))
  waiting_worker busy stay (suc n) idle = (n, omega arith)

  nobody_busy : p.busy ≡ [] → p.out_closed ≡ false → (b : List Target) → p.pending ≡ b → Goes
  nobody_busy busy not_yet [] pending = nothing_pending busy not_yet pending p.jobs_closed refl
  nobody_busy busy not_yet (t ∷ rest) pending =
      let (n, idle) = waiting_worker busy (none_exited t rest pending) p.idle refl in
      inr (_, send t rest n pending idle)

  no_results_waiting :
      p.out ≡ [] → (o : Bool) → p.out_closed ≡ o → (b : List Target) → p.busy ≡ b → Goes
  no_results_waiting out true ended b busy = inl (record { closed = ended; drained = out })
  no_results_waiting out false not_yet (t ∷ after) busy = inr (
    _,
    deliver t [] after (some_result t) busy refl
        (omega (arith, v.sized, ap length busy, ap length out)),
  )
  no_results_waiting out false not_yet [] busy = nobody_busy busy not_yet p.pending refl

  step_or_returned : (o : List CheckResult) → p.out ≡ o → Goes
  step_or_returned [] out = no_results_waiting out p.out_closed refl p.busy refl
  step_or_returned (r ∷ rest) out = inr (_, collect r rest out)

-- CheckAll does not deadlock: in every state that its goroutines can reach, it has returned or some
-- goroutine can take a step.
pub never_stuck :
    (c : Checker) (ts : List Target) {n : ℕ} {p : PoolState}
    → Run (worker_count c) (length ts) (start_pool c ts) n p
    → Returned p ⊎ ((q : PoolState) × Step (worker_count c) (length ts) p q)
never_stuck c ts {p = p} run =
    step_or_returned (worker_count c) ts p (worker_count_pos c)
      (Run-Inv (worker_count c) (length ts) ts run (start-Inv c ts)) p.out refl
