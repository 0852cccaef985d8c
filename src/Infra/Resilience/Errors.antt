-- ===== src/Infra/Resilience/Errors.antt =====
-- src/infra/resilience/errors.ts, and what else a call may raise.
use money_across_borders.Base.{ℕ, String, Bool, Option}
use money_across_borders.Infra.Retry.{
  Thrown, external_call_timeout, external_http_error, type_error, other, is_retryable_error,
}

-- Cockatiel's TaskCancelledError and BrokenCircuitError, an error named AbortError, an error named
-- TypeError, and any other.
pub data Raised : Type 0 where
  timed_out : ℕ → Raised
  http_status : ℕ → Raised
  circuit_open : Raised
  task_cancelled : Raised
  broken_circuit : Raised
  abort_error : Raised
  type_error_of : Option String → String → Raised
  unknown_error : String → Raised

abbrev pub as_thrown : Raised → Thrown
as_thrown (timed_out ms) = external_call_timeout
as_thrown (http_status status) = external_http_error status
as_thrown circuit_open = other
as_thrown task_cancelled = other
as_thrown broken_circuit = other
as_thrown abort_error = other
as_thrown (type_error_of cause message) = type_error cause message
as_thrown (unknown_error message) = other

unfoldable pub is_retryable : Raised → Bool
unfolding is_retryable_error
is_retryable e = is_retryable_error (as_thrown e)

pub data Outcome (A : Type 0) : Type 0 where
  returned : A → Outcome A
  raised : Raised → Outcome A

-- A call that waits for something outside, in a state of it.
abbrev pub Call : Type 0 → Type 0 → Type 0
Call S A = S → Outcome A × S
