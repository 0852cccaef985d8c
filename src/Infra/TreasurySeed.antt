-- ===== src/Infra/TreasurySeed.antt =====
-- src/infra/persistence/in-memory/seed-treasury-wallets.ts
pub mod Seeded
use money_across_borders.Base.{String, ℤ, pos, Option, none, some, List, [], ◌∷◌}
use money_across_borders.Domain.Errors.{ok}
use money_across_borders.Domain.Numbers.{integer}
use money_across_borders.Domain.Currency.{Currency, supported_codes}
use money_across_borders.Domain.Currency
use money_across_borders.Domain.Money
use money_across_borders.Domain.Statuses.{active_wallet}
use money_across_borders.Domain.Wallet.{Wallet}
use money_across_borders.Store.{
  World, Environment, Action, ◌>>=◌, ◌>>◌, pure, lift, reads, modify, generate_id, now,
}
use money_across_borders.Store.Repositories.{save_wallet, find_by_account_id_and_currency}
use money_across_borders.Application.SendRemittance.{treasury_account_id}

module _ (E : Environment) {Float : Type 0} where
  -- The wallet that a currency without one gets.
  unfoldable pub add_treasury : Currency → Action Float (Unit {0})
  unfolding Money.from_minor_units save_wallet
  add_treasury currency = do
    id ← generate_id E
    balance ← lift (Money.from_minor_units (integer (pos 1000000000)) currency)
    at ← now E
    modify (λ w. record w {
      wallets =
          save_wallet
            (record {
              id = id;
              account_id = treasury_account_id;
              currency = currency;
              balance = balance;
              status = active_wallet;
              created_at = at;
            })
            w.wallets;
    })

  -- `if (existing) continue`
  unfoldable pub seed_currency : Currency → Action Float (Unit {0})
  unfolding find_by_account_id_and_currency add_treasury
  seed_currency currency w =
      elim (find_by_account_id_and_currency treasury_account_id currency w.wallets) [
        | some existing ↦ (ok tt, w)
        | none ↦ add_treasury currency w
      ]

  unfoldable pub seed_codes : List String → Action Float (Unit {0})
  unfolding Currency.from seed_currency
  seed_codes [] = pure tt
  seed_codes (code ∷ codes) = do
    currency ← lift (Currency.from code)
    seed_currency currency
    seed_codes codes

  unfoldable pub seed_treasury_wallets : Action Float (Unit {0})
  unfolding seed_codes supported_codes
  seed_treasury_wallets = seed_codes supported_codes
