-- ===== src/Monitoring/Pool.antt =====
-- What holds of the pool of CheckAll in internal/monitoring/checker.go between any two steps.
use terraform_provider_viett.Prelude.{
  ℕ, suc, ◌+◌, ◌<◌, String, ◌≡◌, refl, ap, true, List, [], ◌∷◌, ◌++◌, arith, length, length-append,
  ◌==◌, if◌then◌else◌,
}
use terraform_provider_viett.Monitoring.{
  Checker, CheckResult, Target, PoolState, worker_count, start_pool, Step, send, deliver,
  close_jobs, exit, close_out, collect, Returned, Run, here, next,
}

-- how many targets and how many results carry an id
unfoldable pub targets_with : String → List Target → ℕ
targets_with id [] = 0
targets_with id (t ∷ ts) = (if t.id == id then 1 else 0) + targets_with id ts

unfoldable pub results_with : String → List CheckResult → ℕ
results_with id [] = 0
results_with id (r ∷ rs) = (if r.server_id == id then 1 else 0) + results_with id rs

targets_with-append :
    (id : String) (xs ys : List Target)
    → targets_with id (xs ++ ys) ≡ targets_with id xs + targets_with id ys
unfolding targets_with
targets_with-append id [] ys = omega arith
targets_with-append id (x ∷ xs) ys = omega (arith, targets_with-append id xs ys)

results_with-append :
    (id : String) (xs ys : List CheckResult)
    → results_with id (xs ++ ys) ≡ results_with id xs + results_with id ys
unfolding results_with
results_with-append id [] ys = omega arith
results_with-append id (x ∷ xs) ys = omega (arith, results_with-append id xs ys)

pub record Inv (workers : ℕ) (ts : List Target) (p : PoolState) : Type 0 where
  pub counted :
      (id : String)
      → targets_with id p.pending
          + targets_with id p.busy
          + results_with id p.out
          + results_with id p.results
        ≡ targets_with id ts
  pub sized : length p.pending + length p.busy + length p.out + length p.results ≡ length ts
  pub staffed : p.idle + length p.busy + p.exited ≡ workers
  pub closing : p.jobs_closed ≡ true → p.pending ≡ []
  pub leaving : 0 < p.exited → p.jobs_closed ≡ true
  pub ended : p.out_closed ≡ true → (p.exited ≡ workers) × (p.jobs_closed ≡ true)

pub start-Inv : (c : Checker) (ts : List Target) → Inv (worker_count c) ts (start_pool c ts)
unfolding start_pool targets_with results_with
start-Inv c ts = record {
  counted = λ id. omega arith;
  sized = omega arith;
  staffed = omega arith;
  closing = λ h. cc;
  leaving = λ h. absurd (omega arith);
  ended = λ h. cc;
}

-- the middle of a list goes
targets_with-middle :
    (id : String) (t : Target) (before after busy : List Target)
    → busy ≡ before ++ (t ∷ after)
    → targets_with id busy ≡ (if t.id == id then 1 else 0) + targets_with id (before ++ after)
unfolding targets_with
targets_with-middle id t before after busy h =
    rw h (
      omega (arith, targets_with-append id before (t ∷ after), targets_with-append id before after))

pub length-middle :
    (t : Target) (before after busy : List Target)
    → busy ≡ before ++ (t ∷ after)
    → length busy ≡ suc (length (before ++ after))
length-middle t before after busy h =
    rw h (omega (arith, length-append before (t ∷ after), length-append before after))

results_with-one :
    (id : String) (out : List CheckResult) (r : CheckResult)
    → results_with id (out ++ (r ∷ [])) ≡ results_with id out + (if r.server_id == id then 1 else 0)
unfolding results_with
results_with-one id out r = omega (arith, results_with-append id out (r ∷ []))

pub length-one :
    (out : List CheckResult) (r : CheckResult) → length (out ++ (r ∷ [])) ≡ suc (length out)
length-one out r = omega (arith, length-append out (r ∷ []))

module _ (workers capacity : ℕ) (ts : List Target) where
  Step-Inv : {p q : PoolState} → Step workers capacity p q → Inv workers ts p → Inv workers ts q
  unfolding targets_with results_with
  Step-Inv {p} (send t rest n pending idle) v = record {
    counted = λ id. omega (arith, v.counted id, ap (targets_with id) pending);
    sized = omega (arith, v.sized, ap length pending);
    staffed = omega (arith, v);
    closing = λ h. cc (v.closing h, pending);
    leaving = v.leaving;
    ended = v.ended;
  }
  Step-Inv {p} (deliver t before after r busy same room) v = record {
    counted = λ id. omega (
      arith,
      v.counted id,
      targets_with-middle id t before after p.busy busy,
      results_with-one id p.out r,
      ap {B = ℕ} (λ s. if s == id then 1 else 0) same,
    );
    sized = omega (arith, v, length-middle t before after p.busy busy, length-one p.out r);
    staffed = omega (arith, v, length-middle t before after p.busy busy);
    closing = v.closing;
    leaving = v.leaving;
    ended = v.ended;
  }
  Step-Inv (close_jobs none_left not_yet) v = record {
    counted = v.counted;
    sized = v.sized;
    staffed = v.staffed;
    closing = λ _. none_left;
    leaving = λ _. refl;
    ended = λ h. ((v.ended h).0, refl);
  }
  Step-Inv (exit n closed idle) v = record {
    counted = v.counted;
    sized = v.sized;
    staffed = omega (arith, v);
    closing = v.closing;
    leaving = λ _. closed;
    ended = λ h. absurd (omega (arith, v, (v.ended h).0));
  }
  Step-Inv (close_out closed all not_yet) v = record {
    counted = v.counted;
    sized = v.sized;
    staffed = v.staffed;
    closing = v.closing;
    leaving = v.leaving;
    ended = λ _. (all, closed);
  }
  Step-Inv {p} (collect r rest out) v = record {
    counted = λ id.
        omega (arith, v.counted id, ap (results_with id) out, results_with-one id p.results r);
    sized = omega (arith, v.sized, ap length out, length-one p.results r);
    staffed = v.staffed;
    closing = v.closing;
    leaving = v.leaving;
    ended = v.ended;
  }

  pub Run-Inv :
      {p : PoolState} {n : ℕ} {q : PoolState}
      → Run workers capacity p n q
      → Inv workers ts p
      → Inv workers ts q
  Run-Inv here v = v
  Run-Inv (next run step) v = Step-Inv step (Run-Inv run v)

empty_of_length : {A : Type 0} (xs : List A) → length xs ≡ 0 → xs ≡ []
empty_of_length [] h = refl
empty_of_length (x ∷ xs) h = absurd (omega arith)

-- Whatever order the goroutines of CheckAll run in: when it returns, no target waits or is being
-- checked, every worker has ended and none is idle or blocked, the channel of results is closed and
-- empty, there are as many results as targets, and every id occurs in the results exactly as often as
-- in the targets.
pub Returned-results :
    (c : Checker) (ts : List Target) {n : ℕ} {p : PoolState}
    → Run (worker_count c) (length ts) (start_pool c ts) n p
    → Returned p
    → ((id : String) → results_with id p.results ≡ targets_with id ts)
      × (length p.results ≡ length ts)
      × (p.pending ≡ [])
      × (p.busy ≡ [])
      × (p.idle ≡ 0)
      × (p.exited ≡ worker_count c)
      × (p.out_closed ≡ true)
      × (p.out ≡ [])
unfolding targets_with results_with
Returned-results c ts {p} run returned =
    let v = Run-Inv (worker_count c) (length ts) ts run (start-Inv c ts) in
    let (all_exited, closed) = v.ended returned.closed in
    let pending = v.closing closed in
    let busy = empty_of_length p.busy (omega (arith, v.staffed, all_exited)) in
    (
      (λ id. omega (
        arith,
        v.counted id,
        ap (targets_with id) pending,
        ap (targets_with id) busy,
        ap (results_with id) returned.drained,
      )),
      omega (arith, v.sized, ap length pending, ap length busy, ap length returned.drained),
      pending,
      busy,
      omega (arith, v.staffed, all_exited),
      all_exited,
      returned.closed,
      returned.drained,
    )
