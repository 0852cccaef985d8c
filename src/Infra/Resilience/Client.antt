-- ===== src/Infra/Resilience/Client.antt =====
-- src/infra/resilience/resilient-http-client.ts, without its log and its metrics.
use money_across_borders.Base.{
  ℕ, suc, ◌-◌, ltb, leb, Bool, true, false, ◌&&◌, ◌≡◌, ◌⊎◌, if◌then◌else◌,
}
use money_across_borders.Infra.Resilience.Errors.{
  Raised, timed_out, http_status, circuit_open, task_cancelled, broken_circuit, abort_error,
  type_error_of, unknown_error, is_retryable, Outcome, returned, raised, Call,
}
use money_across_borders.Infra.Resilience.Backoff.{HttpConfig}

-- The policies of cockatiel on calls, each with its settings: `timeout` of a duration; `retry` of what it
-- handles and of how many retries it makes at most, the first of which has a number; `breaker` of what
-- it counts, the threshold, and the time until it is half open.
pub record Policies (S A : Type 0) : Type 0 where
  pub timeout : ℕ → Call S A → Call S A
  pub retry : (Raised → Bool) → ℕ → ℕ → Call S A → Call S A
  pub breaker : (Raised → Bool) → ℕ → ℕ → Call S A → Call S A
  pub pause : ℕ → S → S
  pub is_closed : S → Bool

abbrev pub is_handled : {A : Type 0} → (Raised → Bool) → Outcome A → Bool
is_handled handles (returned a) = false
is_handled handles (raised e) = handles e

-- What cockatiel documents: a timeout gives what the call gives or cancels it; a retry calls again
-- after a pause while the error is one it handles and retries are left; a breaker calls or throws
-- BrokenCircuitError, and a closed one calls.
pub record IsCockatiel {S A : Type 0} (P : Policies S A) : Type 0 where
  pub timeout_or_cancel :
      (ms : ℕ) (f : Call S A) (s : S)
      → (P.timeout ms f s ≡ f s) ⊎ ((P.timeout ms f s).0 ≡ raised task_cancelled)
  pub retry_none :
      (handles : Raised → Bool) (n : ℕ) (f : Call S A) (s : S) → P.retry handles 0 n f s ≡ f s
  pub retry_done :
      (handles : Raised → Bool) (k n : ℕ) (f : Call S A) (s : S)
      → is_handled handles (f s).0 ≡ false
      → P.retry handles k n f s ≡ f s
  pub retry_again :
      (handles : Raised → Bool) (k n : ℕ) (f : Call S A) (s : S)
      → is_handled handles (f s).0 ≡ true
      → P.retry handles (suc k) n f s ≡ P.retry handles k (suc n) f (P.pause n (f s).1)
  pub breaker_calls_or_breaks :
      (handles : Raised → Bool) (threshold reset : ℕ) (f : Call S A) (s : S)
      → ((P.breaker handles threshold reset f s).0 ≡ raised broken_circuit)
        ⊎ ((s' : S) × ((P.breaker handles threshold reset f s).0 ≡ (f s').0))
  pub breaker_closed :
      (handles : Raised → Bool) (threshold reset : ℕ) (f : Call S A) (s : S)
      → P.is_closed s ≡ true
      → (P.breaker handles threshold reset f s).0 ≡ (f s).0

pub record Response (Body : Type 0) : Type 0 where
  pub status : ℕ
  pub body : Body

-- `response.ok`
abbrev pub is_ok : ℕ → Bool
is_ok status = leb 200 status && ltb status 300

module _ {S A Url Body : Type 0} (P : Policies S A) (config : HttpConfig)
    (fetch : Url → S → Outcome (Response Body) × S) (json : Body → Outcome A) where
  abbrev read_response : Response Body → Outcome A
  read_response response =
      if is_ok response.status then json response.body else raised (http_status response.status)

  abbrev pub fetched : Outcome (Response Body) → Outcome A
  fetched (raised e) = raised e
  fetched (returned response) = read_response response

  -- What `timeoutPolicy` executes.
  unfoldable pub fetch_once : Url → Call S A
  fetch_once url s = let (r, s') = fetch url s in (fetched r, s')

  -- The `catch` of `attemptOnce`.
  abbrev pub translate_attempt : Outcome A → Outcome A
  translate_attempt (returned a) = returned a
  translate_attempt (raised task_cancelled) = raised (timed_out config.timeout_ms)
  translate_attempt (raised abort_error) = raised (timed_out config.timeout_ms)
  translate_attempt (raised (timed_out ms)) = raised (timed_out ms)
  translate_attempt (raised (http_status status)) = raised (http_status status)
  translate_attempt (raised circuit_open) = raised circuit_open
  translate_attempt (raised broken_circuit) = raised broken_circuit
  translate_attempt (raised (type_error_of cause message)) = raised (type_error_of cause message)
  translate_attempt (raised (unknown_error message)) = raised (unknown_error message)

  unfoldable pub attempt_once : Url → Call S A
  unfolding fetch_once
  attempt_once url s =
      let (r, s') = P.timeout config.timeout_ms (fetch_once url) s in (translate_attempt r, s')

  -- The `catch` of `fetchJson`.
  abbrev pub translate_call : Outcome A → Outcome A
  translate_call (returned a) = returned a
  translate_call (raised broken_circuit) = raised circuit_open
  translate_call (raised task_cancelled) = raised task_cancelled
  translate_call (raised abort_error) = raised abort_error
  translate_call (raised (timed_out ms)) = raised (timed_out ms)
  translate_call (raised (http_status status)) = raised (http_status status)
  translate_call (raised circuit_open) = raised circuit_open
  translate_call (raised (type_error_of cause message)) = raised (type_error_of cause message)
  translate_call (raised (unknown_error message)) = raised (unknown_error message)

  -- `retryPolicy`, whose package counts the retries, not the attempts.
  unfoldable pub retried : Url → Call S A
  unfolding attempt_once is_retryable
  retried url = P.retry is_retryable (config.retry_max_attempts - 1) 1 (attempt_once url)

  unfoldable pub fetch_json : Url → Call S A
  unfolding retried is_retryable
  fetch_json url s =
      let (r, s') =
        P.breaker is_retryable config.circuit_breaker_failure_threshold
          config.circuit_breaker_reset_timeout_ms (retried url) s in
      (translate_call r, s')
