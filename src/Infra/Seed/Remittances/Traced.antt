-- ===== src/Infra/Seed/Remittances/Traced.antt =====
-- The rows of all remittances tell every balance that they change.
use money_across_borders.Base.{
  ℕ, zero, suc, pos_part, String, ℤ, not, Option, none, some, List, [], ◌∷◌, ◌++◌, filter, ◌≡◌,
  refl,
}
use money_across_borders.Domain.Numbers.{Floats}
use money_across_borders.Infra.Seed.Arithmetic.{Arithmetic}
use money_across_borders.Infra.Seed.Run.{Run, ◌>>=◌, pure}
use money_across_borders.Infra.Seed.Rng.{next_int, pick, weighted_pick}
use money_across_borders.Infra.Seed.Customers.{has}
use money_across_borders.Infra.Seed.Types.{
  SeedCustomer, SeedWalletRef, SeedLedgerEntryRow, SeedConfig, RemittanceOutcome, completed,
  rejected_compliance, rejected_insufficient_funds, failed,
}
use money_across_borders.Infra.Seed.Ledger.{draw, wallets_of}
use money_across_borders.Infra.Seed.Ledger.Traces.{
  Traces, pure-Traces, draw-IsQuiet, read-IsQuiet, after_quiet, in_turn,
}
use money_across_borders.Infra.Seed.Completed.{BuiltRemittance}
use money_across_borders.Infra.Seed.Completed.Built.{rows_of, build_completed_remittance-Traces}
use money_across_borders.Infra.Seed.Remittances.{
  RemittanceGenerationResult, push_built, join_results, no_remittances, plausible_status,
  pick_recipient, pick_destination_wallet, build_synthetic_remittance, compliance_amount,
  insufficient_amount, failed_amount, synthetic_row, build_remittance, remit_between, remit_to,
  remit_once, remit_times, count_range, remit_counted, remit_sender, remit_senders,
  generate_remittances,
}

module _ (F : Floats) (M : Arithmetic F) (config : SeedConfig F.Float) (at : ℕ) (now : ℤ) where
  open F use {Float}

  abbrev entries_of : RemittanceGenerationResult Float → List SeedLedgerEntryRow
  entries_of r = r.ledger_entries

  abbrev built_rows : Option (BuiltRemittance Float) → List SeedLedgerEntryRow
  built_rows = rows_of

  synthetic_Traces :
      (draw_amount : Run ℕ ℤ) (status_id : ℕ) (sender : SeedCustomer) (source : SeedWalletRef)
      (recipient : SeedCustomer) (destination : SeedWalletRef)
      → Traces built_rows (
          build_synthetic_remittance F M config at now draw_amount status_id sender source recipient
            destination)
  synthetic_Traces draw_amount status_id sender source recipient destination =
      after_quiet built_rows _ _
        (draw-IsQuiet (
          synthetic_row F M config at now draw_amount status_id sender source recipient
            destination))
        (λ built. pure-Traces built_rows _ refl)

  build_remittance-Traces :
      (status : RemittanceOutcome) (sender : SeedCustomer) (source : SeedWalletRef)
      (recipient : SeedCustomer) (destination : SeedWalletRef)
      → Traces built_rows
          (build_remittance F M config at now status sender source recipient destination)
  unfolding build_remittance
  build_remittance-Traces completed sender source recipient destination =
      build_completed_remittance-Traces F M config at now sender source recipient destination
  build_remittance-Traces rejected_compliance sender source recipient destination =
      synthetic_Traces (compliance_amount F M config at now) 2 sender source recipient destination
  build_remittance-Traces rejected_insufficient_funds sender source recipient destination =
      synthetic_Traces (insufficient_amount F M config at now source.balance) 3 sender source
        recipient destination
  build_remittance-Traces failed sender source recipient destination =
      synthetic_Traces (failed_amount F M config at now source.balance) 4 sender source recipient
        destination

  remit_between-Traces :
      (sender recipient : SeedCustomer) (wallets : List SeedWalletRef)
      → Traces built_rows (remit_between F M config at now sender recipient wallets)
  unfolding remit_between
  remit_between-Traces sender recipient wallets =
      after_quiet built_rows _ _ (read-IsQuiet (wallets_of sender.account_id)) (λ own.
        after_quiet built_rows (draw (pick F M own)) _ (draw-IsQuiet (pick F M own)) (λ source.
          after_quiet built_rows _ _
            (draw-IsQuiet (pick_destination_wallet F M config at now wallets)) (λ o. go source o)))
    where
      go :
          (source : SeedWalletRef) (o : Option SeedWalletRef)
          → Traces built_rows (elim o [
            | none ↦ pure none
            | some d ↦ draw (weighted_pick F M config.remittance_status_distribution) >>= λ status.
                build_remittance F M config at now
                  (plausible_status sender.kyc_verified status)
                  sender
                  source
                  recipient
                  d
          ])
      go source none = pure-Traces built_rows none refl
      go source (some d) =
          after_quiet built_rows _ _
            (draw-IsQuiet (weighted_pick F M config.remittance_status_distribution))
            (λ status.
              build_remittance-Traces (plausible_status sender.kyc_verified status) sender source
                recipient d)

  remit_to-Traces :
      (sender recipient : SeedCustomer)
      → Traces built_rows (remit_to F M config at now sender recipient)
  unfolding remit_to
  remit_to-Traces sender recipient =
      after_quiet built_rows _ _ (read-IsQuiet (wallets_of recipient.account_id)) go
    where
      go :
          (ws : List SeedWalletRef)
          → Traces built_rows (elim ws [
            | [] ↦ pure none
            | w ∷ vs ↦ remit_between F M config at now sender recipient (w ∷ vs)
          ])
      go [] = pure-Traces built_rows none refl
      go (w ∷ ws) = remit_between-Traces sender recipient (w ∷ ws)

  remit_once-Traces :
      (customers : List SeedCustomer) (sender : SeedCustomer)
      → Traces built_rows (remit_once F M config at now customers sender)
  unfolding remit_once
  remit_once-Traces customers sender =
      after_quiet built_rows _ _ (draw-IsQuiet (pick_recipient F M customers sender.account_id 5))
        go
    where
      go :
          (o : Option SeedCustomer)
          → Traces built_rows
              (elim o [ none ↦ pure none | some r ↦ remit_to F M config at now sender r ])
      go none = pure-Traces built_rows none refl
      go (some r) = remit_to-Traces sender r

  remit_times-Traces :
      (customers : List SeedCustomer) (sender : SeedCustomer) (n : ℕ)
      → Traces entries_of (remit_times F M config at now customers sender n)
  unfolding remit_times
  remit_times-Traces customers sender zero = pure-Traces entries_of no_remittances refl
  remit_times-Traces customers sender (suc n) =
      in_turn built_rows entries_of entries_of push_built _ _ pushed
        (remit_once-Traces customers sender) (remit_times-Traces customers sender n)
    where
      pushed :
          (o : Option (BuiltRemittance Float)) (r : RemittanceGenerationResult Float)
          → entries_of (push_built o r) ≡ built_rows o ++ entries_of r
      pushed none r = refl
      pushed (some b) r = refl

  remit_sender-Traces :
      (customers : List SeedCustomer) (sender : SeedCustomer)
      → Traces entries_of (remit_sender F M config at now customers sender)
  unfolding remit_sender
  remit_sender-Traces customers sender =
      after_quiet entries_of _ _ (read-IsQuiet (wallets_of sender.account_id)) go
    where
      go :
          (ws : List SeedWalletRef)
          → Traces entries_of (elim ws [
            | [] ↦ pure no_remittances
            | w ∷ vs ↦ remit_counted F M config at now customers sender
          ])
      go [] = pure-Traces entries_of no_remittances refl
      go (w ∷ ws) =
          let counts = count_range F M config at now sender.activity_profile in
          after_quiet entries_of _ _ (draw-IsQuiet (next_int F M counts.min counts.max))
            (λ count. remit_times-Traces customers sender (pos_part count))

  remit_senders-Traces :
      (customers senders : List SeedCustomer)
      → Traces entries_of (remit_senders F M config at now customers senders)
  unfolding remit_senders
  remit_senders-Traces customers [] = pure-Traces entries_of no_remittances refl
  remit_senders-Traces customers (sender ∷ senders) =
      in_turn entries_of entries_of entries_of join_results _ _ (λ r rest. refl)
        (remit_sender-Traces customers sender) (remit_senders-Traces customers senders)

  pub generate_remittances-Traces :
      (customers : List SeedCustomer) (exclude_account_ids : List String)
      → Traces entries_of (generate_remittances F M config at now customers exclude_account_ids)
  unfolding generate_remittances
  generate_remittances-Traces customers exclude_account_ids =
      remit_senders-Traces customers
        (filter (λ c. not (has c.account_id exclude_account_ids)) customers)
