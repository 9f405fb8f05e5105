-- ===== src/Vcd/Locks.antt =====
-- vcd/mutexkv.go, a map of mutexes by key, and the functions of vcd/config.go that lock the parents of a
-- resource. A mutex is a place of a heap that holds whether it is locked; logging is left out.
pub mod Exclusion
pub mod Keys
pub mod Parents
use Prim.Native.String.{◌++◌ as append_text}
use terraform_provider_viett.Prelude.{
  ℕ, ◌+◌, ◌≡◌, String, Bool, true, false, Option, none, some, List, [], ◌∷◌, ◌==◌, ◌&&◌, num_eq,
  if◌then◌else◌,
}
use terraform_provider_viett.Go.{Failure, plain, Result, ok, err}
use terraform_provider_viett.Go.Dict
use terraform_provider_viett.Go.Dict.{Dict}

-- mutexKV: `store` holds pointers into the heap
pub record MutexKv : Type 0 where
  pub store : Dict ℕ
  pub heap : ℕ → Bool
  pub fresh : ℕ

-- newMutexKV
unfoldable pub new_mutex_kv : MutexKv
new_mutex_kv = record { store = []; heap = λ p. false; fresh = 0 }

unfoldable pub set_at : (ℕ → Bool) → ℕ → Bool → ℕ → Bool
set_at heap p b q = if num_eq p q then b else heap q

-- (*mutexKV).get, under the lock of the map
unfoldable pub get_mutex : String → MutexKv → ℕ × MutexKv
unfolding set_at
get_mutex key m = elim (Dict.get m.store key) [
  | some mutex ↦ (mutex, m)
  | none ↦ (
    m.fresh,
    record m {
      store = Dict.put m.store key m.fresh;
      heap = set_at m.heap m.fresh false;
      fresh = m.fresh + 1;
    },
  )
]

-- What a goroutine that uses one key does: nothing, kvLock up to the moment where it waits for the mutex
-- that it got, or the work between kvLock and kvUnlock.
pub data Phase : Type 0 where
  idle : Phase
  waiting : String → ℕ → Phase
  holding : String → Phase

-- the map and the phase of each goroutine
pub record System : Type 0 where
  pub kv : MutexKv
  pub phases : ℕ → Phase

unfoldable pub set_phase : (ℕ → Phase) → ℕ → Phase → ℕ → Phase
set_phase phases a p b = if num_eq a b then p else phases b

-- m.get(key) of kvLock by a goroutine
unfoldable pub look_up : ℕ → String → System → System
unfolding get_mutex set_phase
look_up a key s =
    let (p, kv) = get_mutex key s.kv in
    record { kv = kv; phases = set_phase s.phases a (waiting key p) }

-- Lock() of kvLock, once the mutex is free
unfoldable pub take_lock : ℕ → String → ℕ → System → System
unfolding set_at set_phase
take_lock a key p s = record {
  kv = record s.kv { heap = set_at s.kv.heap p true };
  phases = set_phase s.phases a (holding key);
}

-- kvUnlock
unfoldable pub kv_unlock : ℕ → String → System → System
unfolding get_mutex set_at set_phase
kv_unlock a key s =
    let (p, kv) = get_mutex key s.kv in
    record { kv = record kv { heap = set_at kv.heap p false }; phases = set_phase s.phases a idle }

-- One step of some goroutine. Each unlocks only what it has locked, as the comments of kvLock and kvUnlock
-- ask for.
pub data Step (s : System) : System → Type 0 where
  looks_up : (a : ℕ) (key : String) → s.phases a ≡ idle → Step s (look_up a key s)
  locks :
      (a : ℕ) (key : String) (p : ℕ)
      → s.phases a ≡ waiting key p
      → s.kv.heap p ≡ false
      → Step s (take_lock a key p s)
  unlocks : (a : ℕ) (key : String) → s.phases a ≡ holding key → Step s (kv_unlock a key s)

-- the states that are reached from an empty map with no goroutine at work
pub data Reachable : System → Type 0 where
  start : (s : System) → s.kv ≡ new_mutex_kv → ((a : ℕ) → s.phases a ≡ idle) → Reachable s
  after : {s t : System} → Reachable s → Step s t → Reachable t
