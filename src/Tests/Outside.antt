-- ===== src/Tests/Outside.antt =====
-- The fake exchange server behind a client whose policies are written out, the table of Postgres, and
-- a shutdown.
use money_across_borders.Base.{
  ◌⊎◌, ℕ, zero, suc, String, ℤ, Bool, true, false, none, List, [], ◌∷◌, ◌≡◌, refl, inl, inr,
  is_same, String_discrete, arith,
}
use money_across_borders.Domain.Currency.{Currency}
use money_across_borders.Application.Idempotency.{IsRepository, FailsWhole}
use money_across_borders.Application.Idempotency.Postgres.{repository, postgres-IsRepository}
use money_across_borders.Infra.FxRates
use money_across_borders.Infra.FakeFxServer.{
  status_503, connection_failure, FakeFxServer, RatesRequest, Payload, rate_payload, ok_payload,
  error_payload, serve,
}
use money_across_borders.Infra.Resilience.Errors.{
  Raised, unknown_error, Outcome, returned, raised, Call,
}
use money_across_borders.Infra.Resilience.Backoff.{HttpConfig}
use money_across_borders.Infra.Resilience.Client.{
  Policies, IsCockatiel, is_handled, Response, fetch_json,
}
use money_across_borders.Infra.Resilience.Own.{is_own, fetch_json_own}
use money_across_borders.Infra.HttpRates.{FxRateResponse, of_result, get_rate}
use money_across_borders.Infra.HttpRates.Recovered.{
  received, asked, unavailable, disconnected, IsServed, get_rate_recovers,
}
use money_across_borders.Main.Shutdown.{ShutdownStep, signal, settles, elapses, running, happen}
use money_across_borders.Main.Shutdown.Once.{IsInTurn, HasExited, fulfilling, shutdown_exits_once}
use money_across_borders.Tests.Samples.{fixed_point}

abbrev Quote : Type 0
Quote = FxRateResponse ℤ

abbrev again : (Raised → Bool) → ℕ → Call FakeFxServer Quote → Call FakeFxServer Quote
again handles zero f s = f s
again handles (suc k) f s =
    let (r, s') = f s in
    elim (is_handled handles r) [ true ↦ again handles k f s' | false ↦ (r, s') ]

-- No timeout elapses, no pause is noticed, and the circuit stays closed.
abbrev policies : Policies FakeFxServer Quote
policies = record {
  timeout = λ ms f. f;
  retry = λ handles k n f. again handles k f;
  breaker = λ handles threshold reset f. f;
  pause = λ n s. s;
  is_closed = λ s. true;
}

again_done :
    (handles : Raised → Bool) (k : ℕ) (f : Call FakeFxServer Quote) (s : FakeFxServer)
    → is_handled handles (f s).0 ≡ false
    → again handles k f s ≡ f s
again_done handles zero f s h = refl
again_done handles (suc k) f s h = ground arith

policies-IsCockatiel : IsCockatiel policies
policies-IsCockatiel = record {
  timeout_or_cancel = λ ms f s. inl refl;
  retry_none = λ handles n f s. refl;
  retry_done = λ handles k n f s h. again_done handles k f s h;
  retry_again = λ handles k n f s h. ground arith;
  breaker_calls_or_breaks = λ handles threshold reset f s. inr (s, refl);
  breaker_closed = λ handles threshold reset f s h. refl;
}

abbrev settings : HttpConfig
settings = record {
  timeout_ms = 2000;
  retry_max_attempts = 3;
  retry_base_delay_ms = 200;
  retry_max_delay_ms = 5000;
  retry_jitter_ms = 100;
  circuit_breaker_failure_threshold = 5;
  circuit_breaker_reset_timeout_ms = 10000;
}

abbrev read : Payload ℤ → Outcome Quote
read (rate_payload b q rate at) = returned (record { rate = rate; as_of = at })
read ok_payload = raised (unknown_error "no rate")
read (error_payload message) = raised (unknown_error message)

abbrev ask : RatesRequest → FakeFxServer → Outcome (Response (Payload ℤ)) × FakeFxServer
ask request s = let (r, s') = serve fixed_point 9 request s in (received r, s')

abbrev flaky : FakeFxServer
flaky = record { queue = status_503 ∷ connection_failure ∷ []; request_count = 0 }

policies-IsServed : IsServed fixed_point 9 policies ask read asked (λ s. s)
policies-IsServed = record {
  fetch_reply = λ b q s. refl;
  fetch_server = λ b q s. refl;
  in_time = λ ms f s. refl;
  pause_server = λ n s. refl;
  json_rate = λ b q r t. refl;
}

abbrev dollars : Currency
dollars = record { code = "USD"; minor_unit_exponent = 2 }

abbrev reais : Currency
reais = record { code = "BRL"; minor_unit_exponent = 2 }

get_rate_recovers_example :
    (get_rate fixed_point policies settings ask read asked dollars reais flaky).0
    ≡ of_result (FxRates.get_rate fixed_point 9 dollars reais)
get_rate_recovers_example =
    get_rate_recovers fixed_point 9 policies policies-IsCockatiel settings ask read asked (λ s. s)
      policies-IsServed dollars reais (status_503 ∷ connection_failure ∷ []) flaky refl
      (unavailable, (disconnected, tt)) (omega arith) refl

fetch_json_own_example :
    is_own (fetch_json policies settings ask read (asked "USD" "XXX") flaky).0 ≡ true
fetch_json_own_example =
    fetch_json_own policies policies-IsCockatiel settings ask read (asked "USD" "XXX") flaky

abbrev text : Bool → String
text true = "true"
text false = "false"

parse-text : (b : Bool) → is_same (text b) "true" ≡ b
unfolding String_discrete
parse-text true = refl
parse-text false = refl

postgres-IsRepository_example :
    IsRepository (repository (λ n. none) text (λ s. is_same s "true"))
    × FailsWhole (repository (λ n. none) text (λ s. is_same s "true"))
postgres-IsRepository_example =
    postgres-IsRepository (λ n. none) text (λ s. is_same s "true") parse-text

-- A server that closes, a second signal meanwhile, and a client that never does.
abbrev steps : List ShutdownStep
steps = (record { name = "HTTP server" }) ∷ (record { name = "Redis" }) ∷ []

shutdown_exits_once_example :
    let p = happen steps (signal ∷ settles 0 true ∷ signal ∷ []) running in
    let q = happen steps (signal ∷ settles 0 true ∷ signal ∷ elapses ∷ signal ∷ []) running in
    IsInTurn steps p
    × ((p.exits ≡ []) ⊎ HasExited steps p)
    × HasExited steps q
    × ((happen steps (signal ∷ fulfilling steps) running).exits ≡ 0 ∷ [])
shutdown_exits_once_example = shutdown_exits_once steps (settles 0 true ∷ signal ∷ []) (signal ∷ [])
