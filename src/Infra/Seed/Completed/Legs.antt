-- ===== src/Infra/Seed/Completed/Legs.antt =====
-- The ledger rows of a list of legs, and what they add up to.
use money_across_borders.Base.{
  ℕ, suc, String, ℤ, pos, ◌+ℤ◌, ◌-ℤ◌, ◌==◌, ◌&&◌, Bool, List, [], ◌∷◌, is_same, if◌then◌else◌, ◌≡◌,
  refl, ap,
}
use money_across_borders.Domain.Numbers.{Floats}
use money_across_borders.Infra.Seed.Run.{Run, ◌>>=◌, pure}
use money_across_borders.Infra.Seed.Arithmetic.{Arithmetic}
use money_across_borders.Infra.Seed.Rng.{uuid}
use money_across_borders.Infra.Seed.Types.{SeedLedgerEntryRow}
use money_across_borders.Infra.Seed.Ledger.{LegDraft}
use money_across_borders.Infra.Seed.Ledger.Posted.{credited, net}
use money_across_borders.Infra.Seed.Ledger.Traces.{Ends, then_Ends, Ends-any}
use money_across_borders.Infra.Seed.Drafts.{to_ledger_rows, ledger_row, describe_leg}

-- What a leg credits to a wallet.
abbrev pub leg_credit : String → LegDraft → ℤ
leg_credit id l =
    if is_same id l.wallet_id
    then (if l.direction == 2
        then l.amount_minor_units
        else (if l.direction == 1 then pos 0 -ℤ l.amount_minor_units else pos 0))
    else pos 0

abbrev pub legs_credit : String → List LegDraft → ℤ
legs_credit id [] = pos 0
legs_credit id (l ∷ legs) = leg_credit id l +ℤ legs_credit id legs

-- What a leg adds to the net of a currency, where its transaction is looked at.
abbrev pub leg_net : Bool → String → LegDraft → ℤ
leg_net b c l =
    if b && is_same l.currency c
    then (if l.direction == 1 then l.amount_minor_units else pos 0 -ℤ l.amount_minor_units)
    else pos 0

abbrev pub legs_net : Bool → String → List LegDraft → ℤ
legs_net b c [] = pos 0
legs_net b c (l ∷ legs) = leg_net b c l +ℤ legs_net b c legs

-- Rows that post the legs under a transaction.
pub record IsPosting (transaction_id : String) (legs : List LegDraft)
    (rows : List SeedLedgerEntryRow) : Type 0 where
  pub credits : (id : String) → credited id rows ≡ legs_credit id legs
  pub nets : (t c : String) → net t c rows ≡ legs_net (is_same transaction_id t) c legs

cons-IsPosting :
    (l : LegDraft) (id transaction_id description : String) (created_at : ℤ) (legs : List LegDraft)
    (rows : List SeedLedgerEntryRow)
    → IsPosting transaction_id legs rows
    → IsPosting transaction_id
        (l ∷ legs)
        (ledger_row l id transaction_id description created_at ∷ rows)
unfolding credited net
cons-IsPosting l id transaction_id description created_at legs rows h = record {
  credits = λ w. ap (λ n. leg_credit w l +ℤ n) (h.credits w);
  nets = λ t c. ap (λ n. leg_net (is_same transaction_id t) c l +ℤ n) (h.nets t c);
}

module _ (F : Floats) (M : Arithmetic F) (all : List LegDraft) (transaction_id : String)
    (created_at : ℤ) where
  pub to_ledger_rows-IsPosting :
      (index : ℕ) (legs : List LegDraft) (s : ℕ)
      → Ends
          (λ rows s'. IsPosting transaction_id legs rows)
          (to_ledger_rows F M all transaction_id created_at index legs s)
  unfolding to_ledger_rows Ends credited net
  to_ledger_rows-IsPosting index [] s = record { credits = λ id. refl; nets = λ t c. refl }
  to_ledger_rows-IsPosting index (l ∷ legs) s =
      let Goal : List SeedLedgerEntryRow → ℕ → Type 0 =
        λ rows t. IsPosting transaction_id (l ∷ legs) rows in
      let row : String → SeedLedgerEntryRow =
        λ id. ledger_row l id transaction_id (describe_leg all index) created_at in
      let rest_of : Run ℕ (List SeedLedgerEntryRow) =
        to_ledger_rows F M all transaction_id created_at (suc index) legs in
      then_Ends (λ id t. Unit) Goal (λ id. rest_of >>= λ rest. pure (row id ∷ rest)) (uuid F M s)
        (Ends-any (uuid F M s))
        (λ id t u.
          then_Ends (λ rest v. IsPosting transaction_id legs rest) Goal
            (λ rest. pure (row id ∷ rest)) (rest_of t) (to_ledger_rows-IsPosting (suc index) legs t)
            (λ rest v h.
              cons-IsPosting l id transaction_id (describe_leg all index) created_at legs rest h))
