-- ===== src/Domain/Money.antt =====
-- src/domain/shared/value-objects/money-value-object.ts
use money_across_borders.Base.{ℤ, pos, ◌+ℤ◌, ◌-ℤ◌, leb_ℤ, ltb_ℤ, is_zero, Bool, not, ◌&&◌}
use money_across_borders.Domain.Errors.{Result, ok, err, ◌>>◌, throw_if, currency_mismatch, invalid}
use money_across_borders.Domain.Numbers.{Number, integer, fractional, Floats}
use money_across_borders.Domain.Currency.{Currency}
use money_across_borders.Domain.Currency

pub record Money : Type 0 where
  pub amount_minor_units : ℤ
  pub currency : Currency

unfoldable pub from_minor_units : Number → Currency → Result Money
from_minor_units fractional c =
    err (invalid "Money amount must be an integer number of minor units")
from_minor_units (integer n) c = do
  throw_if (ltb_ℤ n (pos 0)) (invalid "Money amount cannot be negative")
  ok (record { amount_minor_units = n; currency = c })

unfoldable pub zero_money : Currency → Money
zero_money c = record { amount_minor_units = pos 0; currency = c }

unfoldable pub assert_same_currency : Money → Money → Result (Unit {0})
unfolding Currency.equals
assert_same_currency a b =
    throw_if (not (Currency.equals a.currency b.currency))
      (currency_mismatch a.currency.code b.currency.code)

unfoldable pub add : Money → Money → Result Money
unfolding assert_same_currency
add a b = do
  assert_same_currency a b
  ok (record {
    amount_minor_units = a.amount_minor_units +ℤ b.amount_minor_units;
    currency = a.currency;
  })

unfoldable pub subtract : Money → Money → Result Money
unfolding assert_same_currency
subtract a b = do
  assert_same_currency a b
  let result = a.amount_minor_units -ℤ b.amount_minor_units
  throw_if (ltb_ℤ result (pos 0)) (invalid "Resulting money amount cannot be negative")
  ok (record { amount_minor_units = result; currency = a.currency })

unfoldable pub is_greater_than_or_equal : Money → Money → Result Bool
unfolding assert_same_currency
is_greater_than_or_equal a b = do
  assert_same_currency a b
  ok (leb_ℤ b.amount_minor_units a.amount_minor_units)

unfoldable pub is_zero_money : Money → Bool
is_zero_money a = is_zero a.amount_minor_units

unfoldable pub equals : Money → Money → Bool
unfolding Currency.equals
equals a b =
    Currency.equals a.currency b.currency && is_zero (a.amount_minor_units -ℤ b.amount_minor_units)

module _ (F : Floats) where
  open F use {Float, of_ℤ, mul, round}

  unfoldable pub multiply : Money → Float → Money
  multiply a factor = record {
    amount_minor_units = round (mul (of_ℤ a.amount_minor_units) factor);
    currency = a.currency;
  }
