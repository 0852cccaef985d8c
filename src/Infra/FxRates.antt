-- ===== src/Infra/FxRates.antt =====
-- src/infra/exchange/fx-rates-table.ts and src/infra/exchange/mock-exchange-rate-provider.ts
use money_across_borders.Base.{
  ℕ, String, Option, none, some, List, [], ◌∷◌, ◌≡◌, true, refl, is_same, if◌then◌else◌, arith,
  Bool-cases, inl, inr,
}
use money_across_borders.Domain.Errors.{Result, ok, err, exchange_rate_not_available}
use money_across_borders.Domain.Numbers.{Floats, IsLiteral}
use money_across_borders.Domain.Currency.{Currency, lookup, supported_currencies}
use money_across_borders.Domain.Currency.Laws.{from-lookup}
use money_across_borders.Domain.Currency
use money_across_borders.Domain.Exchange.{ExchangeRate, exchange_rate}

module _ (F : Floats) where
  open F use {Float, decimal, div, is_positive, div-positive}

  -- `RATES_PER_USD`
  abbrev pub rates_per_usd : List (String × Float)
  rates_per_usd =
      ("USD", decimal 1 0)
      ∷ ("BRL", decimal 52 1)
      ∷ ("EUR", decimal 92 2)
      ∷ ("GBP", decimal 79 2)
      ∷ []

  unfoldable pub rate_in : String → List (String × Float) → Option Float
  rate_in k [] = none
  rate_in k ((j, v) ∷ m) = if is_same j k then some v else rate_in k m

  unfoldable pub compute_rate : String → String → Option Float
  compute_rate base quote = elim (rate_in base rates_per_usd) [
    | none ↦ none
    | some b ↦ elim (rate_in quote rates_per_usd) [ none ↦ none | some q ↦ some (div q b) ]
  ]

  -- `MockExchangeRateProvider.getRate`, at the date `at`.
  unfoldable pub get_rate : ℕ → Currency → Currency → Result (ExchangeRate Float)
  unfolding compute_rate exchange_rate
  get_rate at base quote = elim (compute_rate base.code quote.code) [
    | none ↦ err (exchange_rate_not_available base.code quote.code)
    | some rate ↦ exchange_rate F base quote rate at
  ]

  -- A supported code has a rate, which is a literal.
  rate_of_supported :
      (c : String) (e : ℕ)
      → lookup c supported_currencies ≡ some e
      → (n : ℕ) × (k : ℕ) × (rate_in c rates_per_usd ≡ some (decimal n k)) × IsLiteral n k
  unfolding rate_in
  rate_of_supported c e h = elim (Bool-cases (is_same "USD" c)) [
    | inl usd ↦ (1, 0, ground arith, (omega arith, omega arith, omega arith))
    | inr not_usd ↦ elim (Bool-cases (is_same "BRL" c)) [
      | inl brl ↦ (52, 1, ground arith, (omega arith, omega arith, omega arith))
      | inr not_brl ↦ elim (Bool-cases (is_same "EUR" c)) [
        | inl eur ↦ (92, 2, ground arith, (omega arith, omega arith, omega arith))
        | inr not_eur ↦ (79, 2, ground arith, (omega arith, omega arith, omega arith))
      ]
    ]
  ]

  get_rate_found :
      (at : ℕ) (base quote : Currency) (v u : Float)
      → rate_in base.code rates_per_usd ≡ some v
      → rate_in quote.code rates_per_usd ≡ some u
      → is_positive (div u v) ≡ true
      → get_rate at base quote
        ≡ ok (record {
          base_currency = base;
          quote_currency = quote;
          rate = div u v;
          quoted_at = at;
        })
  unfolding get_rate
  get_rate_found at base quote v u hb hq hp = ground arith

  -- For every two codes that the currency class accepts, the mock provider returns a rate, and
  -- it is of that pair.
  pub get_rate_total :
      (at : ℕ) (a b : String) (base quote : Currency)
      → Currency.from a ≡ ok base
      → Currency.from b ≡ ok quote
      → (r : ExchangeRate Float) × (get_rate at base quote ≡ ok r)
        × (r.base_currency ≡ base)
        × (r.quote_currency ≡ quote)
  get_rate_total at a b base quote ha hb =
      let (n, k, base_rate, base_literal) =
        rate_of_supported base.code base.minor_unit_exponent (from-lookup a base ha) in
      let (m, l, quote_rate, quote_literal) =
        rate_of_supported quote.code quote.minor_unit_exponent (from-lookup b quote hb) in
      let v = decimal n k in
      let u = decimal m l in
      let positive = div-positive m l n k quote_literal base_literal in
      (
        record { base_currency = base; quote_currency = quote; rate = div u v; quoted_at = at },
        get_rate_found at base quote v u base_rate quote_rate positive,
        refl,
        refl,
      )
