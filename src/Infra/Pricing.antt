-- ===== src/Infra/Pricing.antt =====
-- src/infra/pricing/flat-percentage-fee-calculator.ts
use money_across_borders.Base.{pos, ◌+ℤ◌, int_laws, ◌≤ℤ◌, ◌≡◌, refl, arith}
use money_across_borders.Domain.Errors.{ok}
use money_across_borders.Domain.Numbers.{Floats}
use money_across_borders.Domain.Money.{Money}
use money_across_borders.Domain.Money

module _ (F : Floats) where
  open F use {decimal, round-mul-nonneg, decimal-positive}

  -- 0.5%: `FEE_PERCENTAGE = 0.005`.
  unfoldable pub calculate : Money → Money
  unfolding Money.multiply
  calculate amount = Money.multiply F amount (decimal 5 3)

  pub calculate_nonneg :
      (m : Money) → pos 0 ≤ℤ m.amount_minor_units → pos 0 ≤ℤ (calculate m).amount_minor_units
  unfolding calculate
  calculate_nonneg m h =
      round-mul-nonneg m.amount_minor_units (decimal 5 3) h
        (decimal-positive 5 3 (omega arith, omega arith, omega arith))

  -- For an amount of zero or more, the sum of the amount and its fee exists, is in the currency
  -- of the amount, and is at least the amount.
  pub calculate_chargeable :
      (m : Money)
      → pos 0 ≤ℤ m.amount_minor_units
      → (total : Money) × (Money.add m (calculate m) ≡ ok total)
        × (m.amount_minor_units ≤ℤ total.amount_minor_units)
        × (total.currency ≡ m.currency)
  unfolding Money.add calculate
  calculate_chargeable m h =
      let fee =
        round-mul-nonneg m.amount_minor_units (decimal 5 3) h
          (decimal-positive 5 3 (omega arith, omega arith, omega arith)) in
      (
        record {
          amount_minor_units = m.amount_minor_units +ℤ (calculate m).amount_minor_units;
          currency = m.currency;
        },
        ground arith,
        omega (int_laws, fee),
        refl,
      )
