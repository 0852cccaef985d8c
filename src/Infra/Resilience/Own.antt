-- ===== src/Infra/Resilience/Own.antt =====
-- No error class of the package leaves the client.
use money_across_borders.Base.{
  ℕ, zero, suc, ◌-◌, Bool, true, false, ◌≡◌, refl, ap, ◌∙◌, ◌⊎◌, inl, inr, Bool-cases,
}
use money_across_borders.Infra.Resilience.Errors.{
  timed_out, http_status, circuit_open, task_cancelled, broken_circuit, abort_error, type_error_of,
  unknown_error, is_retryable, Outcome, returned, raised, Call,
}
use money_across_borders.Infra.Resilience.Backoff.{HttpConfig}
use money_across_borders.Infra.Resilience.Client.{
  Policies, IsCockatiel, is_handled, Response, translate_attempt, attempt_once, translate_call,
  retried, fetch_json,
}

module _ {A : Type 0} where
  -- Neither cancelled nor aborted.
  abbrev pub is_settled : Outcome A → Bool
  is_settled (returned a) = true
  is_settled (raised task_cancelled) = false
  is_settled (raised abort_error) = false
  is_settled (raised (timed_out ms)) = true
  is_settled (raised (http_status status)) = true
  is_settled (raised circuit_open) = true
  is_settled (raised broken_circuit) = true
  is_settled (raised (type_error_of cause message)) = true
  is_settled (raised (unknown_error message)) = true

  -- None of TaskCancelledError, BrokenCircuitError and AbortError.
  abbrev pub is_own : Outcome A → Bool
  is_own (returned a) = true
  is_own (raised task_cancelled) = false
  is_own (raised abort_error) = false
  is_own (raised broken_circuit) = false
  is_own (raised (timed_out ms)) = true
  is_own (raised (http_status status)) = true
  is_own (raised circuit_open) = true
  is_own (raised (type_error_of cause message)) = true
  is_own (raised (unknown_error message)) = true

module _ {S A Url Body : Type 0} (P : Policies S A) (C : IsCockatiel P) (config : HttpConfig)
    (fetch : Url → S → Outcome (Response Body) × S) (json : Body → Outcome A) where
  open C use {retry_none, retry_done, retry_again, breaker_calls_or_breaks}

  settled_attempt : (o : Outcome A) → is_settled (translate_attempt P config fetch json o) ≡ true
  settled_attempt (returned a) = refl
  settled_attempt (raised task_cancelled) = refl
  settled_attempt (raised abort_error) = refl
  settled_attempt (raised (timed_out ms)) = refl
  settled_attempt (raised (http_status status)) = refl
  settled_attempt (raised circuit_open) = refl
  settled_attempt (raised broken_circuit) = refl
  settled_attempt (raised (type_error_of cause message)) = refl
  settled_attempt (raised (unknown_error message)) = refl

  own_call :
      (o : Outcome A) → is_settled o ≡ true → is_own (translate_call P config fetch json o) ≡ true
  own_call (returned a) h = refl
  own_call (raised task_cancelled) h = h
  own_call (raised abort_error) h = h
  own_call (raised (timed_out ms)) h = refl
  own_call (raised (http_status status)) h = refl
  own_call (raised circuit_open) h = refl
  own_call (raised broken_circuit) h = refl
  own_call (raised (type_error_of cause message)) h = refl
  own_call (raised (unknown_error message)) h = refl

  attempt_once_settled :
      (url : Url) (s : S) → is_settled (attempt_once P config fetch json url s).0 ≡ true
  unfolding attempt_once
  attempt_once_settled url s = settled_attempt _

  -- However often a call is made again, the last outcome is one of the call.
  retry_settled :
      (f : Call S A)
      → ((s : S) → is_settled (f s).0 ≡ true)
      → (k n : ℕ) (s : S) → is_settled (P.retry is_retryable k n f s).0 ≡ true
  retry_settled f h zero n s = ap (λ r. is_settled r.0) (retry_none is_retryable n f s) ∙ h s
  retry_settled f h (suc k) n s = elim (Bool-cases (is_handled is_retryable (f s).0)) [
    | inl again ↦
        ap (λ r. is_settled r.0) (retry_again is_retryable k n f s again)
        ∙ retry_settled f h k (suc n) _
    | inr done ↦ ap (λ r. is_settled r.0) (retry_done is_retryable (suc k) n f s done) ∙ h s
  ]

  -- Over policies that do what cockatiel documents, a call of the resilient client never ends in
  -- an error class of that package, TaskCancelledError or BrokenCircuitError, nor in an
  -- AbortError, whatever the network raises.
  pub fetch_json_own : (url : Url) (s : S) → is_own (fetch_json P config fetch json url s).0 ≡ true
  unfolding fetch_json retried
  fetch_json_own url s = own_call _ (
      settled (
        breaker_calls_or_breaks is_retryable config.circuit_breaker_failure_threshold
          config.circuit_breaker_reset_timeout_ms (retried P config fetch json url) s))
    where
      settled :
          ((P.breaker is_retryable config.circuit_breaker_failure_threshold
                config.circuit_breaker_reset_timeout_ms
                (retried P config fetch json url)
                s).0
              ≡ raised broken_circuit)
            ⊎ ((s' : S) × ((P.breaker is_retryable config.circuit_breaker_failure_threshold
                    config.circuit_breaker_reset_timeout_ms
                    (retried P config fetch json url)
                    s).0
                  ≡ (retried P config fetch json url s').0))
          → is_settled
              (P.breaker is_retryable config.circuit_breaker_failure_threshold
                config.circuit_breaker_reset_timeout_ms
                (retried P config fetch json url)
                s).0
            ≡ true
      settled (inl broken) = ap is_settled broken
      settled (inr (s', called)) =
          ap is_settled called
          ∙ retry_settled (attempt_once P config fetch json url) (attempt_once_settled url)
              (config.retry_max_attempts - 1) 1 s'
