-- ===== src/Application/SendRemittance/Committed.antt =====
-- The world after `commit`, written out: the wallets saved, one entry for each leg, the remittance
-- and its event.
use money_across_borders.Base.{
  some, ◌⊎◌, inl, inr, ℕ, suc, ◌+◌, String, List, [], ◌∷◌, ◌++◌, ◌≡◌, if◌then◌else◌, arith, length,
}
use money_across_borders.Domain.Errors.{DomainError, ok, err}
use money_across_borders.Domain.Entities.{LedgerEntry, Remittance}
use money_across_borders.Domain.Wallet.{Wallet}
use money_across_borders.Domain.Ledger.{LedgerLegDraft, assert_balanced_per_currency}
use money_across_borders.Store.{World, Environment, saving, OutboxEventRecord, kafka}
use money_across_borders.Store.Repositories.{save_wallet, save_remittance}
use money_across_borders.Application.LedgerService.{entry_of, entries_of}
use money_across_borders.Application.SendRemittance.{Deal, Settlement, settle}
use money_across_borders.Application.SendRemittance.Execute.{
  remittance_of, completed_payload, commit,
}

module _ (E : Environment) where
  -- The entries of legs, whose ids are the generated ones from the `g`-th on.
  unfoldable pub entries_from : String → ℕ → ℕ → List LedgerLegDraft → List LedgerEntry
  entries_from transaction_id at g [] = []
  entries_from transaction_id at g (leg ∷ legs) =
      entry_of transaction_id at leg (E.uuid_v7 g) ∷ entries_from transaction_id at (suc g) legs

  entries_of-eq :
      {Float : Type 0} (t : String) (at : ℕ) (legs : List LedgerLegDraft) (w : World Float)
      → entries_of E t at legs w ≡ (
        ok (entries_from t at w.generated legs),
        record w { generated = w.generated + length legs },
      )
  unfolding entries_of entries_from
  entries_of-eq t at [] w = ground arith
  entries_of-eq t at (leg ∷ legs) w =
      ground (arith, entries_of-eq t at legs (record w { generated = suc w.generated }))

module _ {Float : Type 0} where
  unfoldable pub saved_wallets : Deal Float → Settlement → List Wallet → List Wallet
  saved_wallets d s wallets =
      let three =
        save_wallet s.updated_treasury_source_wallet (
          save_wallet s.updated_destination_wallet (save_wallet d.updated_source_wallet wallets)) in
      if d.is_same_currency then three else save_wallet s.updated_treasury_destination_wallet three

  unfoldable pub committed : Environment → Deal Float → Settlement → World Float → World Float
  committed E d s w =
      let id = E.uuid_v7 w.generated in
      let remittance = remittance_of d id (E.clock (suc w.clock_reads)) in
      let event : OutboxEventRecord Float = record {
        id = E.uuid_v7 (suc w.generated + length s.legs);
        topic = "remittance.completed";
        payload = completed_payload E remittance;
        broker = kafka;
        created_at = E.clock (suc (suc w.clock_reads));
      } in
      record w {
        wallets = saved_wallets d s w.wallets;
        ledger = w.ledger ++ entries_from E id (E.clock w.clock_reads) (suc w.generated) s.legs;
        remittances = save_remittance remittance w.remittances;
        outbox = w.outbox ++ event ∷ [];
        generated = suc (suc w.generated + length s.legs);
        clock_reads = suc (suc (suc w.clock_reads));
      }

  -- A commit that returns has had none of its saves refused.
  pub commit-eq :
      (E : Environment) (d : Deal Float) (s : Settlement) (w w' : World Float)
      (r : Remittance Float)
      → settle d ≡ ok s
      → assert_balanced_per_currency s.legs ≡ ok tt
      → commit E d w ≡ (ok r, w')
      → (r ≡ remittance_of d (E.uuid_v7 w.generated) (E.clock (suc w.clock_reads)))
        × (w' ≡ committed E d s w)
  unfolding saving commit committed saved_wallets
  commit-eq E d s w w' r hs hb h = ground (
    arith,
    entries_of-eq E (E.uuid_v7 w.generated) (E.clock w.clock_reads) s.legs
        (record w { generated = suc w.generated; clock_reads = suc w.clock_reads }),
  )

  -- A commit of legs that balance throws only what a refused save throws.
  pub commit_failed :
      (E : Environment) (d : Deal Float) (s : Settlement) (w w' : World Float) (e : DomainError)
      → settle d ≡ ok s
      → assert_balanced_per_currency s.legs ≡ ok tt
      → commit E d w ≡ (err e, w')
      → (n : ℕ) × (E.save_fails n ≡ some e)
  unfolding saving commit
  commit_failed E d s w w' e hs hb h =
      elim (refused_save (
        ground (
          arith,
          entries_of-eq E (E.uuid_v7 w.generated) (E.clock w.clock_reads) s.legs
              (record w { generated = suc w.generated; clock_reads = suc w.clock_reads }),
        ))) [
          | inl r ↦ (0, r)
          | inr (inl r) ↦ (1, r)
          | inr (inr (inl r)) ↦ (2, r)
          | inr (inr (inr (inl r))) ↦ (3, r)
          | inr (inr (inr (inr (inl r)))) ↦ (4, r)
          | inr (inr (inr (inr (inr (inl r))))) ↦ (5, r)
          | inr (inr (inr (inr (inr (inr r))))) ↦ (6, r)
        ]
    where
      Refused : Type 0
      Refused =
          (E.save_fails 0 ≡ some e)
          ⊎ ((E.save_fails 1 ≡ some e)
              ⊎ ((E.save_fails 2 ≡ some e)
                  ⊎ ((E.save_fails 3 ≡ some e)
                      ⊎ ((E.save_fails 4 ≡ some e)
                          ⊎ ((E.save_fails 5 ≡ some e) ⊎ (E.save_fails 6 ≡ some e))))))

      refused_save : Refused → Refused
      refused_save r = r
