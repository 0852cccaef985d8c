-- ===== src/Infra/HttpRates.antt =====
-- src/infra/exchange/http-exchange-rate-provider.ts
pub mod Recovered
use money_across_borders.Base.{ℕ, String, ◌==◌, if◌then◌else◌}
use money_across_borders.Domain.Errors.{DomainError, Result, ok, err, exchange_rate_not_available}
use money_across_borders.Domain.Numbers.{Floats}
use money_across_borders.Domain.Currency.{Currency}
use money_across_borders.Domain.Exchange.{ExchangeRate, exchange_rate}
use money_across_borders.Infra.Resilience.Errors.{
  Raised, timed_out, http_status, circuit_open, task_cancelled, broken_circuit, abort_error,
  type_error_of, unknown_error, Outcome, returned, raised,
}
use money_across_borders.Infra.Resilience.Backoff.{HttpConfig}
use money_across_borders.Infra.Resilience.Client.{Policies, Response, fetch_json}

-- `FxRateResponse`, what the provider reads of it.
pub record FxRateResponse (Float : Type 0) : Type 0 where
  pub rate : Float
  pub as_of : ℕ

-- What a call of `getRate` does: a rate, an error of the domain, or an error of the resilient client.
pub data Rated (Float : Type 0) : Type 0 where
  rated : ExchangeRate Float → Rated Float
  refused : DomainError → Rated Float
  failed : Raised → Rated Float

abbrev pub of_result : {Float : Type 0} → Result (ExchangeRate Float) → Rated Float
of_result (ok r) = rated r
of_result (err e) = refused e

-- `url` is the address of a pair of codes, with the base of the provider and encodeURIComponent.
module _ (F : Floats) {S Url Body : Type 0} (P : Policies S (FxRateResponse F.Float))
    (config : HttpConfig) (fetch : Url → S → Outcome (Response Body) × S)
    (json : Body → Outcome (FxRateResponse F.Float)) (url : String → String → Url) where
  open F use {Float}

  -- The `catch`.
  abbrev pub not_quoted : Currency → Currency → Raised → Rated Float
  not_quoted base quote (http_status status) =
      if status == 404
      then refused (exchange_rate_not_available base.code quote.code)
      else failed (http_status status)
  not_quoted base quote (timed_out ms) = failed (timed_out ms)
  not_quoted base quote circuit_open = failed circuit_open
  not_quoted base quote task_cancelled = failed task_cancelled
  not_quoted base quote broken_circuit = failed broken_circuit
  not_quoted base quote abort_error = failed abort_error
  not_quoted base quote (type_error_of cause message) = failed (type_error_of cause message)
  not_quoted base quote (unknown_error message) = failed (unknown_error message)

  abbrev pub to_rate : Currency → Currency → Outcome (FxRateResponse Float) → Rated Float
  to_rate base quote (returned response) =
      of_result (exchange_rate F base quote response.rate response.as_of)
  to_rate base quote (raised e) = not_quoted base quote e

  -- `HttpExchangeRateProvider.getRate`
  unfoldable pub get_rate : Currency → Currency → S → Rated Float × S
  unfolding fetch_json exchange_rate
  get_rate base quote s =
      let (r, s') = fetch_json P config fetch json (url base.code quote.code) s in
      (to_rate base quote r, s')
