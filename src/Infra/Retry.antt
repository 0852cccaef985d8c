-- ===== src/Infra/Retry.antt =====
-- src/infra/resilience/retry-classifier.ts
use money_across_borders.Base.{
  ℕ, String, Bool, true, false, ◌||◌, ◌==◌, Option, none, some, List, [], ◌∷◌, is_same,
}

-- What a call may have thrown: the two error classes, an object named TypeError, by the code of its
-- cause and its message, and anything else.
pub data Thrown : Type 0 where
  external_call_timeout : Thrown
  external_http_error : ℕ → Thrown
  type_error : Option String → String → Thrown
  other : Thrown

abbrev has_status : ℕ → List ℕ → Bool
has_status n [] = false
has_status n (m ∷ ms) = n == m || has_status n ms

abbrev has_code : String → List String → Bool
has_code c [] = false
has_code c (d ∷ ds) = is_same c d || has_code c ds

abbrev pub retryable_status_codes : List ℕ
retryable_status_codes = 408 ∷ 429 ∷ 500 ∷ 502 ∷ 503 ∷ 504 ∷ []

abbrev pub retryable_network_error_codes : List String
retryable_network_error_codes =
    "ECONNREFUSED" ∷ "ECONNRESET" ∷ "ETIMEDOUT" ∷ "EAI_AGAIN" ∷ "ENOTFOUND"
    ∷ "UND_ERR_CONNECT_TIMEOUT" ∷ "UND_ERR_SOCKET" ∷ []

unfoldable pub is_retryable_error : Thrown → Bool
is_retryable_error external_call_timeout = true
is_retryable_error (external_http_error status) = has_status status retryable_status_codes
is_retryable_error (type_error none message) = is_same message "fetch failed"
is_retryable_error (type_error (some code) message) =
    has_code code retryable_network_error_codes || is_same message "fetch failed"
is_retryable_error other = false
