-- ===== src/Vcd/Locks/Exclusion.antt =====
-- Mutual exclusion for the keys of vcd/mutexkv.go.
use terraform_provider_viett.Prelude.{
  ℕ, ◌+◌, ◌<◌, ◌≡◌, ◌≢◌, refl, String, true, false, Option, none, some, arith, eq_iff, num_eq, inl,
  inr, Bool-cases,
}
use terraform_provider_viett.Go.Dict
use terraform_provider_viett.Vcd.Locks.{
  MutexKv, new_mutex_kv, set_at, get_mutex, idle, waiting, holding, System, set_phase, look_up,
  take_lock, kv_unlock, Step, looks_up, locks, unlocks, Reachable, start, after,
}

-- Keys have mutexes of their own, and a mutex is locked exactly while one goroutine holds its key.
pub record IsSound (s : System) : Type 0 where
  pub allocated : (k : String) (p : ℕ) → Dict.get s.kv.store k ≡ some p → p < s.kv.fresh
  pub distinct :
      (j k : String) (p : ℕ)
      → Dict.get s.kv.store j ≡ some p
      → Dict.get s.kv.store k ≡ some p
      → j ≡ k
  pub known :
      (a : ℕ) (k : String) (p : ℕ) → s.phases a ≡ waiting k p → Dict.get s.kv.store k ≡ some p
  pub kept : (a : ℕ) (k : String) → s.phases a ≡ holding k → Dict.get s.kv.store k ≢ none
  pub held :
      (a : ℕ) (k : String) (p : ℕ)
      → s.phases a ≡ holding k
      → Dict.get s.kv.store k ≡ some p
      → s.kv.heap p ≡ true
  pub one : (a b : ℕ) (k : String) → s.phases a ≡ holding k → s.phases b ≡ holding k → a ≡ b
  pub free :
      (k : String) (p : ℕ)
      → Dict.get s.kv.store k ≡ some p
      → ((a : ℕ) → s.phases a ≢ holding k)
      → s.kv.heap p ≡ false

start-IsSound : (s : System) → s.kv ≡ new_mutex_kv → ((a : ℕ) → s.phases a ≡ idle) → IsSound s
unfolding new_mutex_kv Dict.get
start-IsSound s empty quiet = record {
  allocated = λ k p h. absurd (ground (arith, empty));
  distinct = λ j k p h h'. absurd (ground (arith, empty));
  known = λ a k p h. absurd (ground (arith, quiet a));
  kept = λ a k h. absurd (ground (arith, quiet a));
  held = λ a k p h h'. absurd (ground (arith, quiet a));
  one = λ a b k h h'. absurd (ground (arith, quiet a));
  free = λ k p h h'. absurd (ground (arith, empty));
}

module _ (s : System) (v : IsSound s) (a : ℕ) (key : String) where
  abbrev waits_at : ℕ → MutexKv → System
  waits_at p kv = record { kv = kv; phases = set_phase s.phases a (waiting key p) }

  abbrev with_new : MutexKv
  with_new = record s.kv {
    store = Dict.put s.kv.store key s.kv.fresh;
    heap = set_at s.kv.heap s.kv.fresh false;
    fresh = s.kv.fresh + 1;
  }

  known-IsSound :
      (p : ℕ) → s.phases a ≡ idle → Dict.get s.kv.store key ≡ some p → IsSound (waits_at p s.kv)
  unfolding set_phase
  known-IsSound p at e = record {
    allocated = v.allocated;
    distinct = v.distinct;
    known = λ b k q h. ground (arith, v.known b k q);
    kept = λ b k h. ground (arith, v.kept b k);
    held = λ b k q h h'. ground (arith, v.held b k q);
    one = λ b c k h h'. ground (arith, v.one b c k);
    free = λ k q h h'. v.free k q h (λ b g. ground (arith, h' b));
  }

  new-IsSound :
      s.phases a ≡ idle → Dict.get s.kv.store key ≡ none → IsSound (waits_at s.kv.fresh with_new)
  unfolding set_phase set_at
  new-IsSound at e = record {
    allocated = λ k p h. ground (arith, Dict.get-put s.kv.store key s.kv.fresh k, v.allocated k p);
    distinct = λ j k p h h'. ground (
      arith,
      Dict.get-put s.kv.store key s.kv.fresh j,
      Dict.get-put s.kv.store key s.kv.fresh k,
      eq_iff key j,
      eq_iff key k,
      v.distinct j k p,
      v.allocated j p,
      v.allocated k p,
    );
    known = λ b k q h.
        ground (arith, Dict.get-put s.kv.store key s.kv.fresh k, eq_iff key k, v.known b k q);
    kept = λ b k h. ground (arith, Dict.get-put s.kv.store key s.kv.fresh k, v.kept b k);
    held = λ b k q h h'. ground (
      arith,
      Dict.get-put s.kv.store key s.kv.fresh k,
      eq_iff key k,
      v.held b k q,
      v.kept b k,
      v.allocated k q,
    );
    one = λ b c k h h'. ground (arith, v.one b c k);
    free = λ k q h h'. ground (
      arith,
      Dict.get-put s.kv.store key s.kv.fresh k,
      v.free k q,
      v.allocated k q,
      λ (b : ℕ). h' b,
    );
  }

  look_up-IsSound : s.phases a ≡ idle → IsSound (look_up a key s)
  unfolding look_up
  look_up-IsSound at = by_entry (Dict.get s.kv.store key) refl
    where
      by_entry : (o : Option ℕ) → Dict.get s.kv.store key ≡ o → IsSound (look_up a key s)
      by_entry none e = rw (e, get_mutex) (new-IsSound at e)
      by_entry (some p) e = rw (e, get_mutex) (known-IsSound p at e)

  take_lock-IsSound :
      (p : ℕ) → s.phases a ≡ waiting key p → s.kv.heap p ≡ false → IsSound (take_lock a key p s)
  unfolding take_lock
  take_lock-IsSound p at unlocked = record {
    allocated = v.allocated;
    distinct = v.distinct;
    known = λ b k q h. ground (arith, v.known b k q);
    kept = λ b k h. ground (arith, v.kept b k, v.known a key p);
    held = λ b k q h h'. ground (arith, v.held b k q, v.known a key p);
    one = λ b c k h h'. ground (arith, v.one b c k, v.known a key p, v.held b k p, v.held c k p);
    free = λ k q h h'. ground (
      arith,
      v.distinct key k p,
      v.known a key p,
      h' a,
      v.free k q h (λ b g. ground (arith, h' b)),
    );
  }

  kv_unlock-IsSound : s.phases a ≡ holding key → IsSound (kv_unlock a key s)
  unfolding kv_unlock
  kv_unlock-IsSound at = by_entry (Dict.get s.kv.store key) refl
    where
      by_entry : (o : Option ℕ) → Dict.get s.kv.store key ≡ o → IsSound (kv_unlock a key s)
      by_entry none e = absurd (v.kept a key at e)
      by_entry (some p) e =
          rw (e, get_mutex)
            (record {
              allocated = v.allocated;
              distinct = v.distinct;
              known = λ b k q h. ground (arith, v.known b k q);
              kept = λ b k h. ground (arith, v.kept b k);
              held = λ b k q h h'. ground (arith, v.held b k q, v.distinct key k p, v.one a b k);
              one = λ b c k h h'. ground (arith, v.one b c k);
              free = λ k q h h'. elim (Bool-cases (num_eq p q)) [
                | inl same ↦ ground arith
                | inr other ↦ ground (arith, v.free k q h (λ b g. ground (arith, h' b)))
              ];
            })

Step-IsSound : {s t : System} → Step s t → IsSound s → IsSound t
Step-IsSound {s} (looks_up a key at) v = look_up-IsSound s v a key at
Step-IsSound {s} (locks a key p at unlocked) v = take_lock-IsSound s v a key p at unlocked
Step-IsSound {s} (unlocks a key at) v = kv_unlock-IsSound s v a key at

Reachable-IsSound : {s : System} → Reachable s → IsSound s
Reachable-IsSound (start s empty quiet) = start-IsSound s empty quiet
Reachable-IsSound (after run step) = Step-IsSound step (Reachable-IsSound run)

-- In every state that goroutines reach by kvLock and kvUnlock from an empty map, each unlocking only what
-- it has locked, no goroutine holds a key that another one holds.
pub Reachable-exclusive :
    {s : System} (run : Reachable s) (a b : ℕ) (key : String)
    → a ≢ b
    → s.phases a ≡ holding key
    → s.phases b ≢ holding key
Reachable-exclusive run a b key other held =
    λ held'. absurd (other ((Reachable-IsSound run).one a b key held held'))

-- In every state that goroutines reach by kvLock and kvUnlock from an empty map, each unlocking only what
-- it has locked, a goroutine that waits for the mutex of a key finds it free when no goroutine holds that
-- key, whatever happens to other keys.
pub Reachable-unblocked :
    {s : System} (run : Reachable s) (a : ℕ) (key : String) (p : ℕ)
    → s.phases a ≡ waiting key p
    → ((b : ℕ) → s.phases b ≢ holding key)
    → s.kv.heap p ≡ false
Reachable-unblocked run a key p at nobody =
    let v = Reachable-IsSound run in v.free key p (v.known a key p at) nobody
