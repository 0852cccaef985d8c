-- ===== src/Infra/Seed/Funding.antt =====
-- src/infra/seed/generators/funding-generator.ts
pub mod Traced
use money_across_borders.Base.{
  ℕ, String, ℤ, pos, ltb_ℤ, leb_ℤ, ◌&&◌, List, [], ◌∷◌, ◌++◌, sum, is_same, if◌then◌else◌,
}
use money_across_borders.Domain.Numbers.{Floats}
use money_across_borders.Infra.Seed.Run.{Run, ◌>>=◌, ◌>>◌, pure}
use money_across_borders.Infra.Seed.Arithmetic.{Arithmetic}
use money_across_borders.Infra.Seed.Rng.{next_int, weighted_pick, uuid}
use money_across_borders.Infra.Seed.Ledger.{
  top_up_legs, require_balanced, credit, debit, require_treasury, draw, top_up_rows,
}
use money_across_borders.Infra.Seed.Types.{
  SeedWalletRef, SeedLedgerEntryRow, SeedConfig, Seed, BalanceTier, zero_tier, low_tier,
  medium_tier, high_tier,
}

-- A `Map` of groups, in insertion order.
abbrev pub Groups : Type 0
Groups = List (String × List SeedWalletRef)

-- `groups.get(key)`, then a push or a new group.
abbrev add_to_group : SeedWalletRef → Groups → Groups
add_to_group w [] = (w.currency, w ∷ []) ∷ []
add_to_group w ((k, ws) ∷ groups) =
    if is_same k w.currency then (k, ws ++ w ∷ []) ∷ groups else (k, ws) ∷ add_to_group w groups

unfoldable pub group_by_currency : Groups → List SeedWalletRef → Groups
group_by_currency groups [] = groups
group_by_currency groups (w ∷ ws) = group_by_currency (add_to_group w groups) ws

abbrev pub funding_description : String
funding_description = "seed initial funding (treasury -> customer)"

module _ (F : Floats) (M : Arithmetic F) (config : SeedConfig F.Float) where
  open F use {Float, of_ℤ, decimal, mul, div}
  open M use {floor}

  unfoldable pub sample_tier_amount_minor_units : Run ℕ ℤ
  unfolding weighted_pick next_int
  sample_tier_amount_minor_units = do
    tier ← weighted_pick F M config.balance_tier_distribution
    elim tier [
      | zero_tier ↦ pure (pos 0)
      | low_tier ↦ next_int F M config.low_balances.min config.low_balances.max
      | medium_tier ↦ next_int F M config.medium_balances.min config.medium_balances.max
      | high_tier ↦ next_int F M config.high_balances.min config.high_balances.max
    ]

  unfoldable pub sample_requests : List SeedWalletRef → Run ℕ (List (SeedWalletRef × ℤ))
  unfolding sample_tier_amount_minor_units
  sample_requests [] = pure []
  sample_requests (w ∷ ws) = do
    amount ← sample_tier_amount_minor_units
    rest ← sample_requests ws
    pure ((w, amount) ∷ rest)

  -- The posting of one request, after its guard.
  unfoldable pub fund_wallet : String → SeedWalletRef → ℤ → Run Seed (List SeedLedgerEntryRow)
  unfolding uuid require_balanced credit debit draw
  fund_wallet treasury_id wallet actual = do
    transaction_id ← draw (uuid F M)
    require_balanced (top_up_legs treasury_id wallet actual)
    debit_id ← draw (uuid F M)
    credit_id ← draw (uuid F M)
    debit treasury_id actual
    credit wallet.id actual
    pure (
        top_up_rows debit_id credit_id treasury_id wallet actual transaction_id funding_description
          wallet.created_at)

  -- The loop over the requests of one currency, each scaled and rounded down.
  unfoldable pub fund_requests :
      String → Float → List (SeedWalletRef × ℤ) → Run Seed (List SeedLedgerEntryRow)
  unfolding fund_wallet
  fund_requests treasury_id scale [] = pure []
  fund_requests treasury_id scale ((wallet, amount) ∷ requests) = do
    let actual = floor (mul (of_ℤ amount) scale)
    rows ← if leb_ℤ actual (pos 0) then pure [] else fund_wallet treasury_id wallet actual
    rest ← fund_requests treasury_id scale requests
    pure (rows ++ rest)

  -- What a request is multiplied by, so that all of them together stay in the budget.
  unfoldable pub funding_scale : ℤ → List (SeedWalletRef × ℤ) → Float
  funding_scale treasury_balance requests =
      let raw_total = sum (λ r. r.1) requests in
      let budget = floor (mul (of_ℤ treasury_balance) (decimal 6 1)) in
      if ltb_ℤ budget raw_total && ltb_ℤ (pos 0) raw_total
      then div (of_ℤ budget) (of_ℤ raw_total)
      else of_ℤ (pos 1)

  unfoldable pub fund_groups : Groups → Run Seed (List SeedLedgerEntryRow)
  unfolding require_treasury sample_requests funding_scale fund_requests draw
  fund_groups [] = pure []
  fund_groups ((currency, wallets) ∷ groups) = do
    treasury ← require_treasury currency
    requests ← draw (sample_requests wallets)
    rows ← fund_requests treasury.id (funding_scale treasury.balance requests) requests
    rest ← fund_groups groups
    pure (rows ++ rest)

  unfoldable pub generate_funding : Run Seed (List SeedLedgerEntryRow)
  unfolding fund_groups group_by_currency
  generate_funding s = fund_groups (group_by_currency [] s.wallets) s
