-- ===== src/Tests/Treasury.antt =====
-- Seeding the treasury of an empty table, with ids of growing length.
use money_across_borders.Base.{
  ℕ, zero, suc, ◌<◌, ℤ, none, String, false, Bool-cases, inl, inr, All, is_same, eq_of_is_same, ◌≡◌,
  refl, arith,
}
use money_across_borders.Domain.Errors.{ok}
use money_across_borders.Domain.Currency.{Currency, supported_codes}
use money_across_borders.Domain.Currency
use money_across_borders.Store.{World, Environment}
use money_across_borders.Store.Repositories.{find_wallet_by_id}
use money_across_borders.Infra.TreasurySeed.{seed_treasury_wallets}
use money_across_borders.Infra.TreasurySeed.Seeded.{HasTreasury, seed_treasury_wallets_covers}
use money_across_borders.Tests.Samples.{environment, empty_world}

abbrev tally : ℕ → String
tally zero = String.[]
tally (suc n) = String.◌∷◌ "i" (tally n)

abbrev growing : Environment
growing = record environment { uuid_v7 = tally }

tally_apart : (n m : ℕ) → n < m → ¬ (tally n ≡ tally m)
tally_apart n zero h e = absurd (omega (arith, h))
tally_apart zero (suc m) h e = absurd (cc e)
tally_apart (suc n) (suc m) h e = tally_apart n m (omega (arith, h)) (cc e)

distinct : (n m : ℕ) → n < m → is_same (tally n) (tally m) ≡ false
distinct n m h = elim (Bool-cases (is_same (tally n) (tally m))) [
  | inl same ↦ absurd (tally_apart n m h (eq_of_is_same (tally n) (tally m) same))
  | inr e ↦ e
]

fresh : (n : ℕ) → find_wallet_by_id (tally n) empty_world.wallets ≡ none
unfolding find_wallet_by_id
fresh n = refl

seed_treasury_wallets_covers_example :
    (w' : World ℤ) × (seed_treasury_wallets growing empty_world ≡ (ok tt, w'))
    × All (λ code. (c : Currency) × (Currency.from code ≡ ok c) × HasTreasury w' c) supported_codes
    × (seed_treasury_wallets growing w' ≡ (ok tt, w'))
seed_treasury_wallets_covers_example =
    seed_treasury_wallets_covers growing distinct empty_world (λ n h. fresh n)
