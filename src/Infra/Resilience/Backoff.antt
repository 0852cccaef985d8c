-- ===== src/Infra/Resilience/Backoff.antt =====
-- src/infra/resilience/backoff.ts and the defaults of src/infra/resilience/resilience-config.ts
use money_across_borders.Base.{
  ℕ, ◌-◌, ◌*◌, ◌^◌, ltb, String, pos, Option, none, some, is_same, if◌then◌else◌,
}
use money_across_borders.Domain.Numbers.{Floats}
use money_across_borders.Infra.Seed.Arithmetic.{Arithmetic}

pub record HttpConfig : Type 0 where
  pub timeout_ms : ℕ
  pub retry_max_attempts : ℕ
  pub retry_base_delay_ms : ℕ
  pub retry_max_delay_ms : ℕ
  pub retry_jitter_ms : ℕ
  pub circuit_breaker_failure_threshold : ℕ
  pub circuit_breaker_reset_timeout_ms : ℕ

-- `readNumber`, where `parse` is Number with NaN and the infinities as `none`.
unfoldable pub read_number : (String → Option ℕ) → Option String → ℕ → ℕ
read_number parse none fallback = fallback
read_number parse (some raw) fallback =
    if is_same raw "" then fallback else (elim (parse raw) [ none ↦ fallback | some n ↦ n ])

-- `resilienceConfig.http`, from the variables of the environment. Settings are taken to be natural numbers.
unfoldable pub http_config : (String → Option ℕ) → (String → Option String) → HttpConfig
unfolding read_number
http_config parse env = record {
  timeout_ms = read_number parse (env "HTTP_TIMEOUT_MS") 2000;
  retry_max_attempts = read_number parse (env "RETRY_MAX_ATTEMPTS") 3;
  retry_base_delay_ms = read_number parse (env "RETRY_BASE_DELAY_MS") 200;
  retry_max_delay_ms = read_number parse (env "RETRY_MAX_DELAY_MS") 5000;
  retry_jitter_ms = read_number parse (env "RETRY_JITTER_MS") 100;
  circuit_breaker_failure_threshold = read_number parse (env "CIRCUIT_BREAKER_FAILURE_THRESHOLD") 5;
  circuit_breaker_reset_timeout_ms =
      read_number parse (env "CIRCUIT_BREAKER_RESET_TIMEOUT_MS") 10000;
}

module _ (F : Floats) (M : Arithmetic F) where
  open F use {Float, of_ℤ, mul}
  open M use {add, is_at_most}

  abbrev min_float : Float → Float → Float
  min_float a b = if is_at_most a b then a else b

  -- The delay before a retry, of which the first has number 1, at a draw of the random generator.
  unfoldable pub compute_backoff_delay_ms : ℕ → HttpConfig → Float → Float
  compute_backoff_delay_ms attempt config random =
      let exponential = of_ℤ (pos (config.retry_base_delay_ms * 2 ^ (attempt - 1))) in
      let jitter =
        if ltb 0 config.retry_jitter_ms
        then mul random (of_ℤ (pos config.retry_jitter_ms))
        else of_ℤ (pos 0) in
      min_float (add exponential jitter) (of_ℤ (pos config.retry_max_delay_ms))
