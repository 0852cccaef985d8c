-- ===== src/Infra/Seed/Contention.antt =====
-- src/infra/seed/generators/contention-generator.ts
pub mod Traced
use money_across_borders.Base.{
  ℕ, zero, suc, ◌*◌, String, ℤ, pos, negsuc, ◌-ℤ◌, leb_ℤ, Option, none, some, List, [], ◌∷◌, ◌++◌,
  map, take, is_same, if◌then◌else◌,
}
use money_across_borders.Domain.Numbers.{Floats}
use money_across_borders.Infra.Seed.Run.{Run, ◌>>=◌, ◌>>◌, pure}
use money_across_borders.Infra.Seed.Arithmetic.{Arithmetic}
use money_across_borders.Infra.Seed.Rng.{next_int, pick, uuid}
use money_across_borders.Infra.Seed.Wallets.{min_ℤ}
use money_across_borders.Infra.Seed.Ledger.{
  credit, debit, draw, read, treasury_of, wallets_of, top_up_rows,
}
use money_across_borders.Infra.Seed.Types.{
  SeedCustomer, SeedWalletRef, SeedLedgerEntryRow, ContentionIntent, SeedConfig, Seed,
}

pub record ContentionPoolResult : Type 0 where
  pub shared_account_ids : List String
  pub top_up_ledger_entries : List SeedLedgerEntryRow
  pub intents : List ContentionIntent

abbrev pub pool_description : String
pool_description = "seed high-contention pool top-up (treasury -> customer)"

abbrev multiple : ℕ → ℤ → ℤ
multiple n (pos m) = pos (n * m)
multiple n (negsuc m) = pos 0 -ℤ pos (n * suc m)

module _ (F : Floats) (M : Arithmetic F) (config : SeedConfig F.Float) (now : ℤ) where
  open F use {Float, of_ℤ, decimal, mul}
  open M use {floor}

  -- `contentionIntents * contentionAmountRange.max * 2`
  abbrev top_up_target : ℤ
  top_up_target = multiple (config.contention_intents * 2) config.contention_amount_range.max

  -- The target, or half of what the treasury has.
  unfoldable pub top_up_amount : ℤ → ℤ
  top_up_amount treasury_balance =
      min_ℤ top_up_target (floor (mul (of_ℤ treasury_balance) (decimal 5 1)))

  -- The posting of a top-up, after its guard.
  unfoldable pub post_top_up : String → SeedWalletRef → ℤ → Run Seed (List SeedLedgerEntryRow)
  unfolding uuid debit credit draw
  post_top_up treasury_id wallet amount = do
    transaction_id ← draw (uuid F M)
    debit_id ← draw (uuid F M)
    credit_id ← draw (uuid F M)
    debit treasury_id amount
    credit wallet.id amount
    pure (
        top_up_rows debit_id credit_id treasury_id wallet amount transaction_id pool_description
          now)

  -- A currency without a treasury wallet is passed over.
  unfoldable pub top_up_wallet : SeedWalletRef → Run Seed (List SeedLedgerEntryRow)
  unfolding read treasury_of top_up_amount post_top_up
  top_up_wallet wallet = do
    treasury ← read (treasury_of wallet.currency)
    elim treasury [
      | none ↦ pure []
      | some t ↦
          if leb_ℤ (top_up_amount t.balance) (pos 0)
          then pure []
          else post_top_up t.id wallet (top_up_amount t.balance)
    ]

  unfoldable pub top_up_wallets : List SeedWalletRef → Run Seed (List SeedLedgerEntryRow)
  unfolding top_up_wallet
  top_up_wallets [] = pure []
  top_up_wallets (w ∷ ws) = do rows ← top_up_wallet w; rest ← top_up_wallets ws; pure (rows ++ rest)

  unfoldable pub top_up_customers : List SeedCustomer → Run Seed (List SeedLedgerEntryRow)
  unfolding read wallets_of top_up_wallets
  top_up_customers [] = pure []
  top_up_customers (c ∷ cs) = do
    wallets ← read (wallets_of c.account_id)
    rows ← top_up_wallets wallets
    rest ← top_up_customers cs
    pure (rows ++ rest)

  -- The attempts that are left.
  unfoldable pub pick_different_customer :
      List SeedCustomer → String → ℕ → Run ℕ (Option SeedCustomer)
  unfolding pick
  pick_different_customer pool exclude_account_id zero = pure none
  pick_different_customer pool exclude_account_id (suc attempts) = do
    candidate ← pick F M pool
    let retry = pick_different_customer pool exclude_account_id attempts
    if is_same candidate.account_id exclude_account_id then retry else pure (some candidate)

  -- An intent between two customers, each of whom needs a wallet.
  unfoldable pub intent_between :
      SeedCustomer
      → SeedCustomer
      → List SeedWalletRef
      → List SeedWalletRef
      → Run ℕ (List ContentionIntent)
  unfolding pick next_int uuid
  intent_between sender recipient [] recipient_wallets = pure []
  intent_between sender recipient (w ∷ ws) [] = pure []
  intent_between sender recipient (w ∷ ws) (v ∷ vs) = do
    sender_wallet ← pick F M (w ∷ ws)
    recipient_wallet ← pick F M (v ∷ vs)
    amount ← next_int F M config.contention_amount_range.min config.contention_amount_range.max
    key ← uuid F M
    pure (
        (record {
          sender_account_id = sender.account_id;
          sender_currency = sender_wallet.currency;
          recipient_account_id = recipient.account_id;
          recipient_currency = recipient_wallet.currency;
          amount_minor_units = amount;
          idempotency_key = key;
        })
        ∷ [])

  -- The turns that are left, over the balances that the top-up left.
  unfoldable pub contention_intents : Seed → List SeedCustomer → ℕ → Run ℕ (List ContentionIntent)
  unfolding pick pick_different_customer wallets_of intent_between
  contention_intents s shared zero = pure []
  contention_intents s shared (suc n) = do
    sender ← pick F M shared
    recipient ← pick_different_customer shared sender.account_id 5
    intents ← elim recipient [
      | none ↦ pure []
      | some r ↦
          intent_between sender r (wallets_of sender.account_id s) (wallets_of r.account_id s)
    ]
    rest ← contention_intents s shared n
    pure (intents ++ rest)

  abbrev pub pool_of :
      List SeedCustomer → List SeedLedgerEntryRow → List ContentionIntent → ContentionPoolResult
  pool_of shared entries intents = record {
    shared_account_ids = map (λ c. c.account_id) shared;
    top_up_ledger_entries = entries;
    intents = intents;
  }

  unfoldable pub build_contention_pool : List SeedCustomer → Run Seed ContentionPoolResult
  unfolding top_up_customers contention_intents read draw
  build_contention_pool customers = do
    entries ← top_up_customers (take config.contention_shared_accounts customers)
    s ← read (λ s. s)
    intents ← draw (
        contention_intents s (take config.contention_shared_accounts customers)
          config.contention_intents)
    pure (pool_of (take config.contention_shared_accounts customers) entries intents)
