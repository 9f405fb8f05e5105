-- ===== src/Go.antt =====
-- What the program takes from Go: an error value beside a result, a state that is passed on,
-- and a map with string keys.
pub mod Dict
pub mod Text
use terraform_provider_viett.Prelude.{ℕ, String, Option, none, some}

-- The errors that the program makes itself (`plain` for a text that no other code tests for), and `external` for those that it gets from a
-- database, a network call, a library or a context.
pub data Failure : Type 0 where
  circuit_open : Failure
  server_exists : Failure
  server_not_found : Failure
  invalid_role : Failure
  http_status : ℕ → Failure
  nil_client : Failure
  plain : String → Failure
  wrapped : String → Failure → Failure
  external : String → Failure

-- `(value, error)` where the value is read only if the error is nil
pub data Result {ℓ} (A : Type ℓ) : Type ℓ where
  ok : A → Result A
  err : Failure → Result A

-- the error of a result: `none` is nil
abbrev pub error_of {ℓ} : {A : Type ℓ} → Result A → Option Failure
error_of (ok a) = none
error_of (err e) = some e

-- A call that reads and changes a state.
abbrev pub Act {ℓ} : Type 0 → Type ℓ → Type ℓ
Act W A = W → Result A × W

-- a call whose only result is an `error`
abbrev pub Proc : Type 0 → Type 0
Proc W = W → Option Failure × W

-- Go's `int`; `negsuc n` is -(n + 1)
pub data ℤ : Type 0 where
  pos : ℕ → ℤ
  negsuc : ℕ → ℤ
