-- ===== src/Application/LedgerService.antt =====
-- LedgerService.postBalancedEntries of src/domain/ledger/services/ledger-service.ts.
use money_across_borders.Base.{ℕ, String, List, [], ◌∷◌}
use money_across_borders.Domain.Entities.{LedgerEntry}
use money_across_borders.Domain.Ledger.{LedgerLegDraft, assert_balanced_per_currency}
use money_across_borders.Store.{
  Action, ◌>>=◌, ◌>>◌, pure, lift, saving, generate_id, now, Environment,
}
use money_across_borders.Store.Repositories.{save_entries}

-- One leg as an entry, under a new id.
abbrev pub entry_of : String → ℕ → LedgerLegDraft → String → LedgerEntry
entry_of transaction_id at leg id = record {
  id = id;
  wallet_id = leg.wallet_id;
  direction = leg.direction;
  money = leg.money;
  transaction_id = transaction_id;
  description = leg.description;
  created_at = at;
}

module _ (E : Environment) {Float : Type 0} where
  -- `legs.map((leg) => new LedgerEntry(LedgerEntryId.generate(), …))`
  unfoldable pub entries_of : String → ℕ → List LedgerLegDraft → Action Float (List LedgerEntry)
  entries_of transaction_id at [] = pure []
  entries_of transaction_id at (leg ∷ legs) = generate_id E >>= λ id.
      entries_of transaction_id at legs >>= λ entries.
      pure (entry_of transaction_id at leg id ∷ entries)

  unfoldable pub post_balanced_entries :
      List LedgerLegDraft → String → Action Float (List LedgerEntry)
  unfolding entries_of save_entries saving
  post_balanced_entries legs transaction_id = do
    lift (assert_balanced_per_currency legs)
    at ← now E
    entries ← entries_of transaction_id at legs
    saving E 0 (λ w. record w { ledger = save_entries entries w.ledger })
    pure entries
