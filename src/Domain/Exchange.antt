-- ===== src/Domain/Exchange.antt =====
-- src/domain/exchange/value-objects/exchange-rate-value-object.ts
use money_across_borders.Base.{ℕ, ◌-ℤ◌, pos, not}
use money_across_borders.Domain.Errors.{Result, ok, ◌>>◌, throw_if, currency_mismatch, invalid}
use money_across_borders.Domain.Numbers.{integer, Floats}
use money_across_borders.Domain.Currency.{Currency}
use money_across_borders.Domain.Currency
use money_across_borders.Domain.Money.{Money}
use money_across_borders.Domain.Money

pub record ExchangeRate (Float : Type 0) : Type 0 where
  pub base_currency : Currency
  pub quote_currency : Currency
  pub rate : Float
  pub quoted_at : ℕ

module _ (F : Floats) where
  open F use {Float, of_ℤ, mul, pow10, round, is_positive}

  -- The constructor, which refuses a rate that is zero or negative.
  unfoldable pub exchange_rate : Currency → Currency → Float → ℕ → Result (ExchangeRate Float)
  exchange_rate base quote rate at = do
    throw_if (not (is_positive rate)) (invalid "Exchange rate must be positive")
    ok (record { base_currency = base; quote_currency = quote; rate = rate; quoted_at = at })

  unfoldable pub convert : ExchangeRate Float → Money → Result Money
  unfolding Currency.equals Money.from_minor_units
  convert r amount = do
    throw_if (not (Currency.equals amount.currency r.base_currency))
        (currency_mismatch r.base_currency.code amount.currency.code)
    let adjustment =
        pos r.quote_currency.minor_unit_exponent -ℤ pos r.base_currency.minor_unit_exponent
    let converted = mul (mul (of_ℤ amount.amount_minor_units) r.rate) (pow10 adjustment)
    Money.from_minor_units (integer (round converted)) r.quote_currency
