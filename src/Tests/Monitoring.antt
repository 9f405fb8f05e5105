-- ===== src/Tests/Monitoring.antt =====
-- internal/monitoring/checker.go: CheckAll with one worker and no target, which runs to its end.
use terraform_provider_viett.Prelude.{
  ◌+◌, ◌*◌, ◌≤◌, String, ◌≡◌, refl, ◌⊎◌, true, [], ◌∷◌, length, arith,
}
use terraform_provider_viett.Go.{pos}
use terraform_provider_viett.Monitoring.{
  CheckResult, Checker, Target, PoolState, worker_count, start_pool, Step, send, deliver,
  close_jobs, exit, close_out, collect, Returned, Run, here, next,
}
use terraform_provider_viett.Monitoring.Pool.{targets_with, results_with, Returned-results}
use terraform_provider_viett.Monitoring.Progress.{Run-bounded, never_stuck}

abbrev one_worker : Checker
one_worker = record { timeout = 3; workers = pos 1 }

abbrev host : Target
host = record { id = "web"; address = "10.0.0.1:22" }

abbrev host_up : CheckResult
host_up = record { server_id = "web"; up = true; latency_ms = 1; checked_at = 5; error = "" }

abbrev finished : PoolState
finished = record {
  pending = [];
  busy = [];
  idle = 0;
  exited = 1;
  jobs_closed = true;
  out = [];
  out_closed = true;
  results = host_up ∷ [];
}

-- the worker takes the target and delivers its result; then all is closed and collected
Run-one :
    Run
      (worker_count one_worker)
      (length (host ∷ []))
      (start_pool one_worker (host ∷ []))
      6
      finished
unfolding start_pool
Run-one =
    next
      (next
        (next
          (next
            (next (next here (send host [] 0 refl refl))
              (deliver host [] [] host_up refl refl (omega arith)))
            (close_jobs refl refl))
          (exit 0 refl refl))
        (close_out refl refl refl))
      (collect host_up [] refl)

Returned-results_example :
    ((id : String) → results_with id finished.results ≡ targets_with id (host ∷ []))
    × (length finished.results ≡ length (host ∷ []))
    × (finished.pending ≡ [])
    × (finished.busy ≡ [])
    × (finished.idle ≡ 0)
    × (finished.exited ≡ worker_count one_worker)
    × (finished.out_closed ≡ true)
    × (finished.out ≡ [])
Returned-results_example =
    Returned-results one_worker (host ∷ []) Run-one (record { closed = refl; drained = refl })

Run-bounded_example : 6 ≤ 5 * length (host ∷ []) + worker_count one_worker + 2
Run-bounded_example = Run-bounded one_worker (host ∷ []) Run-one

never_stuck_example :
    Returned finished
    ⊎ ((q : PoolState) × Step (worker_count one_worker) (length (host ∷ [])) finished q)
never_stuck_example = never_stuck one_worker (host ∷ []) Run-one
