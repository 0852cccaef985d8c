-- ===== src/Infra/Seed/Database/Written.antt =====
-- `writeSeedBatch` writes a whole batch or nothing.
use money_across_borders.Base.{
  ℕ, ◌<◌, String, Option, none, List, [], ◌∷◌, ◌++◌, map, ◌≡◌, refl, ◌⊎◌, inl, inr, arith,
}
use money_across_borders.Domain.Errors.{DomainError, Result, ok, err}
use money_across_borders.Infra.Seed.Types.{SeedWalletRef}
use money_across_borders.Infra.Seed.Demo.{DemoResponse}
use money_across_borders.Infra.Seed.Database.{SeedWalletRow, Tables, Session, in_transaction}
use money_across_borders.Infra.Seed.Database.Unnest.{unnest_idempotency_records}
use money_across_borders.Infra.Seed.Database.Writer.{
  SeedWriteBatch, add_absent, to_wallet_row, set_balance, default_batch_size, update_treasury,
  insert_all, write_seed_batch,
}
use money_across_borders.Infra.Seed.Database.Appended.{
  IsRefusal, Does, statement-Does, then_Does, nothing_done,
}
use money_across_borders.Infra.Seed.Database.Rows.{
  insert_users-Does, insert_accounts-Does, insert_kyc_profiles-Does, insert_wallets-Does,
  insert_ledger_entries-Does, insert_remittances-Does, insert_idempotency_records-Does,
}
use money_across_borders.Infra.Seed.Database.Committed.{Ended, in_transaction-Ended}

-- The balances of the treasury, set one after the other.
abbrev pub set_balances : List SeedWalletRef → List SeedWalletRow → List SeedWalletRow
set_balances [] rows = rows
set_balances (w ∷ ws) rows = set_balances ws (map (set_balance w) rows)

-- The tables with all rows of a batch.
abbrev pub with_batch :
    {Float : Type 0} → (DemoResponse → String) → SeedWriteBatch Float → Tables Float → Tables Float
with_batch stringify batch t = record {
  users = t.users ++ batch.users;
  accounts = t.accounts ++ batch.accounts;
  kyc_profiles = t.kyc_profiles ++ batch.kyc_profiles;
  wallets = set_balances batch.treasury_wallets (t.wallets ++ map to_wallet_row batch.wallets);
  ledger_entries = t.ledger_entries ++ batch.ledger_entries;
  remittances = t.remittances ++ batch.remittances;
  idempotency_records =
      add_absent (unnest_idempotency_records stringify batch.idempotency_records)
        t.idempotency_records;
}

module _ (Float : Type 0) (refuses : ℕ → Option DomainError) where
  update_treasury-Does :
      (ws : List SeedWalletRef)
      → Does {Float = Float} refuses
          (update_treasury refuses ws)
          (λ t. record t { wallets = set_balances ws t.wallets })
  unfolding update_treasury
  update_treasury-Does [] = nothing_done refuses _ (λ t. refl)
  update_treasury-Does (w ∷ ws) =
      then_Does refuses _ _ _ _
        (statement-Does refuses (λ t. record t { wallets = map (set_balance w) t.wallets }))
        (update_treasury-Does ws)

module _ {Float : Type 0} (refuses : ℕ → Option DomainError)
    (stringify : DemoResponse → String) where
  insert_all-Does :
      (batch : SeedWriteBatch Float)
      → Does refuses (insert_all refuses stringify batch) (with_batch stringify batch)
  unfolding insert_all
  insert_all-Does batch =
      let size = default_batch_size in
      let h : 0 < size = omega arith in
      then_Does refuses _ _ _ _ (insert_users-Does Float refuses batch.users size h) (
        then_Does refuses _ _ _ _ (insert_accounts-Does Float refuses batch.accounts size h) (
          then_Does refuses _ _ _ _
            (insert_kyc_profiles-Does Float refuses batch.kyc_profiles size h)
            (then_Does refuses _ _ _ _
              (insert_wallets-Does Float refuses (map to_wallet_row batch.wallets) size h)
              (then_Does refuses _ _ _ _ (update_treasury-Does Float refuses batch.treasury_wallets)
                (then_Does refuses _ _ _ _
                  (insert_ledger_entries-Does Float refuses batch.ledger_entries size h)
                  (then_Does refuses _ _ _ _
                    (insert_remittances-Does Float refuses batch.remittances size h)
                    (insert_idempotency_records-Does Float refuses stringify
                      batch.idempotency_records size h)))))))

  -- On a client with no open transaction, the writing of a batch returns, and then the tables
  -- are those before with every row of the batch added, the balances of the treasury set, and no
  -- transaction open, or it throws the error of a statement that was refused, and then no table
  -- has changed.
  pub write_seed_batch_atomic :
      (batch : SeedWriteBatch Float) (s : Session Float)
      → s.working ≡ none
      → let (r, s') = write_seed_batch refuses stringify batch s in
        ((r ≡ ok tt)
          × (s'.committed ≡ with_batch stringify batch s.committed)
          × (s'.working ≡ none))
        ⊎ ((e : DomainError) × (r ≡ err e) × (s'.committed ≡ s.committed) × IsRefusal refuses e)
  unfolding write_seed_batch
  write_seed_batch_atomic batch s idle =
      go (in_transaction refuses (insert_all refuses stringify batch) s) (
        in_transaction-Ended refuses (insert_all refuses stringify batch)
          (with_batch stringify batch) (insert_all-Does batch) s idle)
    where
      go :
          (p : Result (Unit {0}) × Session Float)
          → Ended refuses s.committed (with_batch stringify batch s.committed) p
          → ((p.0 ≡ ok tt)
              × (p.1.committed ≡ with_batch stringify batch s.committed)
              × (p.1.working ≡ none))
            ⊎ ((e : DomainError) × (p.0 ≡ err e)
                × (p.1.committed ≡ s.committed)
                × IsRefusal refuses e)
      go (ok u, s') q = inl (refl, q.0, q.1)
      go (err e, s') q = inr (e, refl, q.0, q.1)
