-- ===== src/Infra/Seed/Drafts.antt =====
-- The legs of a completed remittance in src/infra/seed/generators/remittance-generator.ts, and their
-- rows in the ledger.
use money_across_borders.Base.{
  ℕ, suc, String, ℤ, Bool, true, false, ◌&&◌, Option, none, some, List, [], ◌∷◌, get_elem?, is_same,
  if◌then◌else◌,
}
use money_across_borders.Domain.Numbers.{Floats}
use money_across_borders.Infra.Seed.Run.{Run, ◌>>=◌, pure}
use money_across_borders.Infra.Seed.Arithmetic.{Arithmetic}
use money_across_borders.Infra.Seed.Rng.{uuid}
use money_across_borders.Infra.Seed.Ledger.{LegDraft}
use money_across_borders.Infra.Seed.Types.{SeedWalletRef, SeedLedgerEntryRow}

abbrev pub leg : String → String → ℕ → ℤ → LegDraft
leg id currency direction amount = record {
  wallet_id = id;
  currency = currency;
  direction = direction;
  amount_minor_units = amount;
}

unfoldable pub same_currency_drafts :
    SeedWalletRef → SeedWalletRef → SeedWalletRef → ℤ → ℤ → List LegDraft
same_currency_drafts source destination treasury amount fee =
    leg source.id source.currency 1 amount
    ∷ leg destination.id source.currency 2 amount
    ∷ leg source.id source.currency 1 fee
    ∷ leg treasury.id source.currency 2 fee
    ∷ []

unfoldable pub cross_currency_drafts :
    SeedWalletRef → SeedWalletRef → SeedWalletRef → SeedWalletRef → ℤ → ℤ → ℤ → List LegDraft
cross_currency_drafts source destination treasury_source treasury_destination amount fee converted =
    leg source.id source.currency 1 amount
    ∷ leg treasury_source.id source.currency 2 amount
    ∷ leg source.id source.currency 1 fee
    ∷ leg treasury_source.id source.currency 2 fee
    ∷ leg treasury_destination.id destination.currency 1 converted
    ∷ leg destination.id destination.currency 2 converted
    ∷ []

abbrev is_all : String → List LegDraft → Bool
is_all c [] = true
is_all c (l ∷ legs) = is_same c l.currency && is_all c legs

-- `new Set(legs.map((l) => l.currency)).size === 1`
abbrev is_single_currency : List LegDraft → Bool
is_single_currency [] = false
is_single_currency (l ∷ legs) = is_all l.currency legs

abbrev text_at : Option String → String
text_at none = ""
text_at (some s) = s

-- The description of the leg at an index.
unfoldable pub describe_leg : List LegDraft → ℕ → String
describe_leg legs index = text_at (
    get_elem?
      (if is_single_currency legs
        then "remittance principal debit" ∷ "remittance principal credit" ∷ "remittance fee debit"
          ∷ "remittance fee revenue" ∷ []
        else "remittance principal debit" ∷ "FX settlement (source leg)" ∷ "remittance fee debit"
          ∷ "remittance fee revenue" ∷ "FX settlement (destination leg)"
          ∷ "remittance principal credit" ∷ [])
      index)

abbrev pub ledger_row : LegDraft → String → String → String → ℤ → SeedLedgerEntryRow
ledger_row l id transaction_id description created_at = record {
  id = id;
  wallet_id = l.wallet_id;
  direction_id = l.direction;
  amount_minor_units = l.amount_minor_units;
  currency = l.currency;
  transaction_id = transaction_id;
  description = description;
  created_at = created_at;
}

module _ (F : Floats) (M : Arithmetic F) where
  -- The rows of the legs from an index on, in order.
  unfoldable pub to_ledger_rows :
      List LegDraft → String → ℤ → ℕ → List LegDraft → Run ℕ (List SeedLedgerEntryRow)
  unfolding uuid describe_leg
  to_ledger_rows all transaction_id created_at index [] = pure []
  to_ledger_rows all transaction_id created_at index (l ∷ legs) = do
    id ← uuid F M
    rest ← to_ledger_rows all transaction_id created_at (suc index) legs
    pure (ledger_row l id transaction_id (describe_leg all index) created_at ∷ rest)
