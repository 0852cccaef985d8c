-- ===== src/Infra/HttpRates/Recovered.antt =====
-- The provider over HTTP, asking the fake server, does what the mock provider does.
use money_across_borders.Base.{
  ℕ, zero, suc, ◌-◌, ◌<◌, ◌≤◌, String, true, false, Option, none, some, List, [], ◌∷◌, length, ◌≡◌,
  refl, ap, ◌∙◌, All, arith, String_discrete,
}
use money_across_borders.Domain.Errors.{err, exchange_rate_not_available}
use money_across_borders.Domain.Numbers.{Floats}
use money_across_borders.Domain.Currency.{Currency}
use money_across_borders.Domain.Exchange.{exchange_rate}
use money_across_borders.Infra.FxRates.{compute_rate}
use money_across_borders.Infra.FxRates
use money_across_borders.Infra.Retry.{is_retryable_error}
use money_across_borders.Infra.FakeFxServer.{
  SimulatedBehavior, success, status_429, status_500, status_502, status_503, status_400,
  status_404, delayed_response, connection_failure, FakeFxServer, RatesRequest, Payload,
  rate_payload, Reply, json_reply, late_reply, destroyed, simulated_behavior, next_behavior, quoted,
  reply, serve,
}
use money_across_borders.Infra.Resilience.Errors.{
  http_status, type_error_of, is_retryable, Outcome, returned, raised, Call,
}
use money_across_borders.Infra.Resilience.Backoff.{HttpConfig}
use money_across_borders.Infra.Resilience.Client.{
  Policies, IsCockatiel, is_handled, Response, fetched, fetch_once, translate_attempt, attempt_once,
  translate_call, retried, fetch_json,
}
use money_across_borders.Infra.HttpRates.{FxRateResponse, of_result, to_rate, get_rate}

-- What `fetch` of the engine makes of a reply. A destroyed socket is the TypeError "fetch failed".
abbrev pub received : {Float : Type 0} → Reply Float → Outcome (Response (Payload Float))
received (json_reply status payload) = returned (record { status = status; body = payload })
received (late_reply status payload) = returned (record { status = status; body = payload })
received destroyed = raised (type_error_of (some "UND_ERR_SOCKET") "fetch failed")

abbrev pub asked : String → String → RatesRequest
asked base quote = record { simulate = none; base = base; quote = quote }

-- The behaviours that another attempt may get past.
pub data IsTransient : SimulatedBehavior → Type 0 where
  rate_limited : IsTransient status_429
  internal : IsTransient status_500
  bad_gateway : IsTransient status_502
  unavailable : IsTransient status_503
  disconnected : IsTransient connection_failure

module _ (F : Floats) (at : ℕ) where
  open F use {Float}

  -- A state in which requests reach the fake server, in time, and pauses do not.
  pub record IsServed {S Url : Type 0} (P : Policies S (FxRateResponse Float))
      (fetch : Url → S → Outcome (Response (Payload Float)) × S)
      (json : Payload Float → Outcome (FxRateResponse Float)) (url : String → String → Url)
      (server : S → FakeFxServer) : Type 0 where
    pub fetch_reply :
        (b q : String) (s : S)
        → (fetch (url b q) s).0 ≡ received (serve F at (asked b q) (server s)).0
    pub fetch_server :
        (b q : String) (s : S)
        → server (fetch (url b q) s).1 ≡ (serve F at (asked b q) (server s)).1
    pub in_time : (ms : ℕ) (f : Call S (FxRateResponse Float)) (s : S) → P.timeout ms f s ≡ f s
    pub pause_server : (n : ℕ) (s : S) → server (P.pause n s) ≡ server s
    pub json_rate :
        (b q : String) (r : Float) (t : ℕ)
        → json (rate_payload b q r t) ≡ returned (record { rate = r; as_of = t })

module _ (F : Floats) (at : ℕ) {S Url : Type 0} (P : Policies S (FxRateResponse F.Float))
    (C : IsCockatiel P) (config : HttpConfig)
    (fetch : Url → S → Outcome (Response (Payload F.Float)) × S)
    (json : Payload F.Float → Outcome (FxRateResponse F.Float)) (url : String → String → Url)
    (server : S → FakeFxServer) (V : IsServed F at P fetch json url server) where
  open F use {Float}
  open C use {retry_done, retry_again, breaker_closed}
  open V use {fetch_reply, fetch_server, in_time, pause_server, json_rate}

  abbrev attempt : String → String → Call S (FxRateResponse Float)
  attempt b q = attempt_once P config fetch json (url b q)

  abbrev read : Reply Float → Outcome (FxRateResponse Float)
  read r = translate_attempt P config fetch json (fetched P config fetch json (received r))

  attempt_outcome :
      (b q : String) (s : S) → (attempt b q s).0 ≡ read (serve F at (asked b q) (server s)).0
  unfolding attempt_once fetch_once
  attempt_outcome b q s =
      ap (λ r. translate_attempt P config fetch json r.0)
        (in_time config.timeout_ms (fetch_once P config fetch json (url b q)) s)
      ∙ ap (λ r. translate_attempt P config fetch json (fetched P config fetch json r))
          (fetch_reply b q s)

  attempt_server :
      (b q : String) (s : S) → server (attempt b q s).1 ≡ (serve F at (asked b q) (server s)).1
  unfolding attempt_once fetch_once
  attempt_server b q s =
      ap (λ r. server r.1) (in_time config.timeout_ms (fetch_once P config fetch json (url b q)) s)
      ∙ fetch_server b q s

  -- What the last attempt gets from a server without instructions.
  abbrev answer : Option Float → Outcome (FxRateResponse Float)
  answer none = raised (http_status 404)
  answer (some rate) = returned (record { rate = rate; as_of = at })

  read-quoted : (b q : String) (o : Option Float) → read (quoted F at b q o) ≡ answer o
  read-quoted b q none = refl
  read-quoted b q (some rate) = ap (translate_attempt P config fetch json) (json_rate b q rate at)

  answer_final : (o : Option Float) → is_handled is_retryable (answer o) ≡ false
  unfolding is_retryable is_retryable_error
  answer_final none = refl
  answer_final (some rate) = refl

  transient_handled :
      (b q : String) (x : SimulatedBehavior)
      → IsTransient x
      → is_handled is_retryable (read (reply F at (asked b q) x)) ≡ true
  unfolding is_retryable is_retryable_error reply String_discrete
  transient_handled b q status_429 rate_limited = refl
  transient_handled b q status_500 internal = refl
  transient_handled b q status_502 bad_gateway = refl
  transient_handled b q status_503 unavailable = refl
  transient_handled b q connection_failure disconnected = refl
  transient_handled b q success h = elim h [ ]
  transient_handled b q status_400 h = elim h [ ]
  transient_handled b q status_404 h = elim h [ ]
  transient_handled b q delayed_response h = elim h [ ]

  served_next :
      (b q : String) (x : SimulatedBehavior) (xs : List SimulatedBehavior) (v : FakeFxServer)
      → v.queue ≡ x ∷ xs
      → ((serve F at (asked b q) v).0 ≡ reply F at (asked b q) x)
        × ((serve F at (asked b q) v).1.queue ≡ xs)
  unfolding serve simulated_behavior next_behavior
  served_next b q x xs v h = rw h (refl, refl)

  served_last :
      (b q : String) (v : FakeFxServer)
      → v.queue ≡ []
      → (serve F at (asked b q) v).0 ≡ quoted F at b q (compute_rate F b q)
  unfolding serve simulated_behavior next_behavior reply
  served_last b q v h = rw h refl

  -- With a retry for each failure that is queued, the retries end with the answer.
  retries_recover :
      (b q : String) (failures : List SimulatedBehavior) (k n : ℕ) (s : S)
      → All IsTransient failures
      → length failures ≤ k
      → (server s).queue ≡ failures
      → (P.retry is_retryable k n (attempt b q) s).0 ≡ answer (compute_rate F b q)
  retries_recover b q [] k n s transient enough queued =
      let outcome : (attempt b q s).0 ≡ answer (compute_rate F b q) =
        attempt_outcome b q s
        ∙ ap read (served_last b q (server s) queued)
        ∙ read-quoted b q (compute_rate F b q) in
      ap (λ r. r.0)
        (retry_done is_retryable k n (attempt b q) s
          (ap (is_handled is_retryable) outcome ∙ answer_final (compute_rate F b q)))
      ∙ outcome
  retries_recover b q (x ∷ xs) zero n s transient enough queued = absurd (omega (arith, enough))
  retries_recover b q (x ∷ xs) (suc k) n s transient enough queued =
      let (replied, left) = served_next b q x xs (server s) queued in
      let again : is_handled is_retryable (attempt b q s).0 ≡ true =
        ap (is_handled is_retryable) (attempt_outcome b q s ∙ ap read replied)
        ∙ transient_handled b q x transient.0 in
      let later = P.pause n (attempt b q s).1 in
      let rest : (server later).queue ≡ xs =
        ap (λ v. v.queue) (pause_server n (attempt b q s).1 ∙ attempt_server b q s) ∙ left in
      ap (λ r. r.0) (retry_again is_retryable k n (attempt b q) s again)
      ∙ retries_recover b q xs k (suc n) later transient.1 (omega (arith, enough)) rest

  rate_of_answer :
      (base quote : Currency)
      → to_rate F P config fetch json url base quote
          (translate_call P config fetch json (answer (compute_rate F base.code quote.code)))
        ≡ of_result (FxRates.get_rate F at base quote)
  unfolding FxRates.get_rate
  rate_of_answer base quote = go (compute_rate F base.code quote.code)
    where
      go :
          (o : Option Float)
          → to_rate F P config fetch json url base quote
              (translate_call P config fetch json (answer o))
            ≡ of_result (elim o [
              | none ↦ err (exchange_rate_not_available base.code quote.code)
              | some rate ↦ exchange_rate F base quote rate at
            ])
      go none = refl
      go (some rate) = refl

  -- Over policies that do what cockatiel documents, with the circuit closed and no timeout
  -- elapsing, and a network that brings requests to the fake exchange server: where fewer
  -- transient failures are queued there than attempts are allowed, and nothing else, the
  -- provider over HTTP gives for every pair what the mock provider gives, the rate or the error.
  pub get_rate_recovers :
      (base quote : Currency) (failures : List SimulatedBehavior) (s : S)
      → P.is_closed s ≡ true
      → All IsTransient failures
      → length failures < config.retry_max_attempts
      → (server s).queue ≡ failures
      → (get_rate F P config fetch json url base quote s).0
        ≡ of_result (FxRates.get_rate F at base quote)
  unfolding get_rate fetch_json retried
  get_rate_recovers base quote failures s closed transient enough queued =
      ap (λ o. to_rate F P config fetch json url base quote (translate_call P config fetch json o))
        (breaker_closed is_retryable config.circuit_breaker_failure_threshold
            config.circuit_breaker_reset_timeout_ms
            (retried P config fetch json (url base.code quote.code)) s closed
          ∙ retries_recover base.code quote.code failures (config.retry_max_attempts - 1) 1 s
              transient (omega (arith, enough)) queued)
      ∙ rate_of_answer base quote
