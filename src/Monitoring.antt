-- ===== src/Monitoring.antt =====
-- internal/monitoring/checker.go: the health check of one address and the pool of workers that checks
-- many. The network and the clock are parameters. The pool is a step relation: its goroutines run in any
-- order that their channels allow.
pub mod Single
pub mod Pool
pub mod Progress
use terraform_provider_viett.Prelude.{
  ℕ, suc, ◌+◌, ◌-◌, ◌/◌, ◌<◌, ◌≡◌, String, Bool, true, false, Option, none, some, List, [], ◌∷◌,
  ◌++◌, length, ltb, ◌==◌, if◌then◌else◌,
}
use terraform_provider_viett.Go.{Failure, Proc, ℤ, pos, negsuc}

-- Result
pub record CheckResult : Type 0 where
  pub server_id : String
  pub up : Bool
  pub latency_ms : ℕ
  pub checked_at : ℕ
  pub error : String

pub record Checker : Type 0 where
  pub timeout : ℕ
  pub workers : ℤ

pub record Target : Type 0 where
  pub id : String
  pub address : String

-- the clock, the host of a text that parses as a URL, a TCP connection that is closed again, and the
-- text of an error
pub record Network (W : Type 0) : Type 0 where
  pub now : W → ℕ × W
  pub parse_host : String → Option String
  pub dial : ℕ → String → Proc W
  pub message : Failure → String

-- the host that is dialled
unfoldable pub host_of : (String → Option String) → String → String
host_of parse_host address = elim (parse_host address) [
  | none ↦ address
  | some host ↦ if host == "" then address else host
]

unfoldable pub result_of : (Failure → String) → String → Option Failure → ℕ → ℕ → CheckResult
result_of message id none latency_ms checked_at = record {
  server_id = id;
  up = true;
  latency_ms = latency_ms;
  checked_at = checked_at;
  error = "";
}
result_of message id (some e) latency_ms checked_at = record {
  server_id = id;
  up = false;
  latency_ms = latency_ms;
  checked_at = checked_at;
  error = message e;
}

module _ {W : Type 0} (network : Network W) where
  -- (Checker).Check; the clock of time.Since does not go back
  unfoldable pub check : Checker → String → String → W → CheckResult × W
  unfolding host_of result_of
  check c id address w =
      let (start, w1) = network.now w in
      let (e, w2) = network.dial c.timeout (host_of network.parse_host address) w1 in
      let (stop, w3) = network.now w2 in
      let (checked_at, w4) = network.now w3 in
      (result_of network.message id e ((stop - start) / 1000000) checked_at, w4)

-- the number of goroutines that CheckAll starts
unfoldable pub worker_count : Checker → ℕ
worker_count c = elim c.workers [ pos n ↦ if ltb n 1 then 64 else n | negsuc _ ↦ 64 ]

-- CheckAll while it runs: the targets that are not yet sent on `jobs`, those that workers hold, the
-- workers that wait and those that have returned, the channels and the results collected so far.
pub record PoolState : Type 0 where
  pub pending : List Target
  pub busy : List Target
  pub idle : ℕ
  pub exited : ℕ
  pub jobs_closed : Bool
  pub out : List CheckResult
  pub out_closed : Bool
  pub results : List CheckResult

unfoldable pub start_pool : Checker → List Target → PoolState
unfolding worker_count
start_pool c ts = record {
  pending = ts;
  busy = [];
  idle = worker_count c;
  exited = 0;
  jobs_closed = false;
  out = [];
  out_closed = false;
  results = [];
}

-- One step of some goroutine: `workers` is the number of workers, `capacity` that of the channel `out`.
-- A check may give any result that carries the id of its target.
pub data Step (workers capacity : ℕ) (p : PoolState) : PoolState → Type 0 where
  -- jobs <- t meets a waiting worker
  send :
      (t : Target) (ts : List Target) (n : ℕ)
      → p.pending ≡ t ∷ ts
      → p.idle ≡ n + 1
      → Step workers capacity p (record p { pending = ts; idle = n; busy = t ∷ p.busy })
  -- out <- c.Check(...) by one of the busy workers, if the channel has room
  deliver :
      (t : Target) (before after : List Target) (r : CheckResult)
      → p.busy ≡ before ++ (t ∷ after)
      → r.server_id ≡ t.id
      → length p.out < capacity
      → Step workers capacity p
          (record p { busy = before ++ after; idle = p.idle + 1; out = p.out ++ (r ∷ []) })
  -- close(jobs)
  close_jobs :
      p.pending ≡ []
      → p.jobs_closed ≡ false
      → Step workers capacity p (record p { jobs_closed = true })
  -- a worker finds `jobs` closed and returns
  exit :
      (n : ℕ)
      → p.jobs_closed ≡ true
      → p.idle ≡ n + 1
      → Step workers capacity p (record p { idle = n; exited = p.exited + 1 })
  -- close(out) after wg.Wait()
  close_out :
      p.jobs_closed ≡ true
      → p.exited ≡ workers
      → p.out_closed ≡ false
      → Step workers capacity p (record p { out_closed = true })
  -- the loop over `out` appends a result
  collect :
      (r : CheckResult) (rest : List CheckResult)
      → p.out ≡ r ∷ rest
      → Step workers capacity p (record p { out = rest; results = p.results ++ (r ∷ []) })

-- the loop over `out` has ended, and CheckAll returns the results
pub record Returned (p : PoolState) : Type 0 where
  pub closed : p.out_closed ≡ true
  pub drained : p.out ≡ []

-- a run of `n` steps
pub data Run (workers capacity : ℕ) (p : PoolState) : ℕ → PoolState → Type 0 where
  here : Run workers capacity p 0 p
  next :
      {n : ℕ} {q r : PoolState}
      → Run workers capacity p n q
      → Step workers capacity q r
      → Run workers capacity p (suc n) r
