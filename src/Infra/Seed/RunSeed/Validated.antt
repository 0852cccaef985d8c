-- ===== src/Infra/Seed/RunSeed/Validated.antt =====
-- A seed run that gets through passes the checks of its books.
use money_across_borders.Base.{
  ℕ, Bool, true, Option, none, List, [], ◌∷◌, ◌++◌, map, ◌≡◌, ap, ◌∙◌, ◌⊎◌, inl, inr,
}
use money_across_borders.Domain.Errors.{DomainError, Result, ok, err}
use money_across_borders.Domain.Numbers.{Floats}
use money_across_borders.Infra.Seed.Arithmetic.{Arithmetic}
use money_across_borders.Infra.Seed.Types.{SeedConfig, SeedWalletRef}
use money_across_borders.Infra.Seed.Config.{SeedConfigOverrides, merge_config, resolve_seed_config}
use money_across_borders.Infra.Seed.Config.Valid.{resolve_seed_config_valid}
use money_across_borders.Infra.Seed.Ledger.Posted.{net, IsBalanced, post}
use money_across_borders.Infra.Seed.Dataset.{GeneratedDataset, clone_treasury, generate_dataset}
use money_across_borders.Infra.Seed.Dataset.Backed.{
  generate_dataset_reconciled, generate_dataset_balances,
}
use money_across_borders.Infra.Seed.Database.{Tables, Session}
use money_across_borders.Infra.Seed.Database.Writer.{write_seed_batch}
use money_across_borders.Infra.Seed.Database.Written.{with_batch, write_seed_batch_atomic}
use money_across_borders.Infra.Seed.Database.Setup.{
  load_treasury_wallets, treasury_rows, to_wallet_ref,
}
use money_across_borders.Infra.Seed.Checks.{
  debits_equal_credits, every_posting_balances, wallet_balances_match_ledger,
  run_referential_checks, run_financial_checks, run_checks, Check, referential_checks,
  financial_checks,
}
use money_across_borders.Infra.Seed.Checks.Rows.{Distinct, is_distinct, is_distinct-Distinct}
use money_across_borders.Infra.Seed.Checks.Passed.{
  debits_equal_credits_passed, every_posting_balances_passed, matched,
}
use money_across_borders.Infra.Seed.Database.Appended.{IsRefusal}
use money_across_borders.Infra.Seed.Database.Leads.{
  Ends, Leads, pure_Leads, send_Leads, then_Leads, given,
}
use money_across_borders.Infra.Seed.RunSeed.{
  Surroundings, batch_of, prepare, write_contention_requests, validate, write_dataset,
  write_generated, seed_from, load_and_seed, run_config, run,
}
use money_across_borders.Infra.Seed.RunSeed.Prepared.{
  IsFresh, IsReady, IsIdle, IsLoaded, prepare-Leads, load_treasury_wallets-Leads,
}

-- A query gets through, with an answer and a session.
abbrev pub Gives : {Float A : Type 0} → Result A × Session Float → A → Session Float → Type 0
Gives p a t = p ≡ (ok a, t)

module _ (F : Floats) (M : Arithmetic F) (E : Surroundings) (refuses : ℕ → Option DomainError) where
  open F use {Float}

  -- What the checks of the books find.
  abbrev pub IsChecked : Tables Float → Type 0
  IsChecked t =
      (debits_equal_credits t ≡ true)
      × (every_posting_balances t ≡ true)
      × (Distinct (λ w. w.id) t.wallets → wallet_balances_match_ledger t ≡ true)

  IsChecked-written :
      (config : SeedConfig Float) (treasury : List SeedWalletRef) (d : GeneratedDataset Float)
      (t : Tables Float)
      → generate_dataset F M E.set_hours E.password_hash config E.at E.now treasury ≡ ok d
      → IsFresh t
      → treasury ≡ clone_treasury [] (map to_wallet_ref (treasury_rows t))
      → IsChecked (with_batch E.stringify (batch_of F M E refuses d) t)
  unfolding wallet_balances_match_ledger IsBalanced
  IsChecked-written config treasury d t h fresh loaded =
      let (backed, posted) =
        generate_dataset_reconciled F M E.set_hours E.password_hash config E.at E.now treasury d
          h in
      let nets =
        generate_dataset_balances F M E.set_hours E.password_hash config E.at E.now treasury d h in
      let entries : t.ledger_entries ++ d.ledger_entries ≡ d.ledger_entries =
        ap (λ es. es ++ d.ledger_entries) fresh.unposted in
      let balanced : IsBalanced (t.ledger_entries ++ d.ledger_entries) =
        λ u c. ap (net u c) entries ∙ nets u c in
      let written = with_batch E.stringify (batch_of F M E refuses d) t in
      (
        debits_equal_credits_passed written balanced,
        every_posting_balances_passed written balanced,
        matched (t.ledger_entries ++ d.ledger_entries) d.ledger_entries d.treasury_by_currency
            t.wallets d.wallets entries
            (posted ∙ ap (λ l. map (post d.ledger_entries) (clone_treasury [] l)) loaded) fresh.own
            backed,
      )

  abbrev Books : Session Float → Type 0
  Books s = IsChecked s.committed

  abbrev Settled : {A : Type 0} → A → Session Float → Type 0
  Settled a s = IsChecked s.committed

  write_seed_batch-Leads :
      (config : SeedConfig Float) (treasury : List SeedWalletRef) (d : GeneratedDataset Float)
      → generate_dataset F M E.set_hours E.password_hash config E.at E.now treasury ≡ ok d
      → Leads
          (IsLoaded F M E refuses treasury)
          (write_seed_batch refuses E.stringify (batch_of F M E refuses d))
          Settled
  unfolding Leads
  write_seed_batch-Leads config treasury d h s loaded =
      go (write_seed_batch refuses E.stringify (batch_of F M E refuses d) s)
        (write_seed_batch_atomic refuses E.stringify (batch_of F M E refuses d) s loaded.0.idle)
    where
      go :
          (p : Result (Unit {0}) × Session Float)
          → ((p.0 ≡ ok tt)
              × (p.1.committed ≡ with_batch E.stringify (batch_of F M E refuses d) s.committed)
              × (p.1.working ≡ none))
            ⊎ ((e : DomainError) × (p.0 ≡ err e)
                × (p.1.committed ≡ s.committed)
                × IsRefusal refuses e)
          → Ends Settled p
      go (err e, s') q = tt
      go (ok u, s') (inl q) =
          rw q.1 (IsChecked-written config treasury d s.committed h loaded.0.fresh loaded.1)
      go (ok u, s') (inr q) = absurd (cc q.1)

  run_checks-Leads : (checks : List (Check Float)) → Leads Books (run_checks refuses checks) Settled
  unfolding run_checks
  run_checks-Leads [] = pure_Leads _ _ _ (λ s h. h)
  run_checks-Leads (c ∷ cs) =
      then_Leads _ _ _ Settled _ (send_Leads _ refuses _ _ _ (λ s h. h)) (λ found.
        then_Leads _ _ _ Settled _ (run_checks-Leads cs) (λ rest. pure_Leads _ _ _ (λ s h. h)))

  validate-Leads : Leads Books (validate F M E refuses) Settled
  unfolding validate run_referential_checks run_financial_checks
  validate-Leads = then_Leads _ _ _ Settled _ (run_checks-Leads referential_checks) (λ referential.
      then_Leads _ _ _ Settled _ (run_checks-Leads financial_checks)
        (λ financial. pure_Leads _ _ _ (λ s h. h)))

  seed_from-Leads :
      (config : SeedConfig Float) (treasury : List SeedWalletRef)
      → Leads (IsLoaded F M E refuses treasury) (seed_from F M E refuses config treasury) Settled
  unfolding seed_from write_generated write_dataset
  seed_from-Leads config treasury =
      given _ (generate_dataset F M E.set_hours E.password_hash config E.at E.now treasury)
        (write_generated F M E refuses config) _
        (λ d generated.
          given _ (write_contention_requests F M E refuses config d)
            (λ u. write_dataset F M E refuses d) _
            (λ u requested.
              then_Leads _ _ (λ w. validate F M E refuses) Settled _
                (write_seed_batch-Leads config treasury d generated) (λ w. validate-Leads)))

  run-Leads :
      (o : SeedConfigOverrides)
      → Leads (IsIdle (merge_config F M o).reset) (run F M E refuses o) Settled
  unfolding run run_config load_and_seed
  run-Leads o = given _ (resolve_seed_config F M o) (run_config F M E refuses) _ (λ config resolved.
      let same = (resolve_seed_config_valid F M o config resolved).0 in
      then_Leads _ (prepare F M E refuses config) (λ u. load_and_seed F M E refuses config)
        (λ u. IsReady) _
        (prepare-Leads F M E refuses config (merge_config F M o).reset (ap (λ c. c.reset) same))
        (λ u.
          then_Leads _ (load_treasury_wallets refuses) (seed_from F M E refuses config)
            (IsLoaded F M E refuses) _ (load_treasury_wallets-Leads F M E refuses)
            (seed_from-Leads config)))

  -- A seed run that gets through, with the reset, or on tables in which only the treasury has
  -- wallets and nothing is posted, and that leaves a table of wallets whose ids differ, leaves
  -- tables on which three checks pass: debits equal credits in every currency, the postings of
  -- every transaction balance in every currency, and the balance of every wallet that is not of
  -- the treasury is that of its ledger entries.
  pub run_checked :
      (o : SeedConfigOverrides) (s s' : Session Float) (passed : Bool)
      → s.working ≡ none
      → ((merge_config F M o).reset ≡ true) ⊎ IsFresh s.committed
      → Gives (run F M E refuses o s) passed s'
      → is_distinct (λ w. w.id) s'.committed.wallets ≡ true
      → (debits_equal_credits s'.committed ≡ true)
        × (every_posting_balances s'.committed ≡ true)
        × (wallet_balances_match_ledger s'.committed ≡ true)
  unfolding Leads
  run_checked o s s' passed idle ready h keyed =
      let (debits, postings, balances) =
        at_end (run F M E refuses o s) h (run-Leads o s (idle, ready)) in
      (debits, postings, balances (is_distinct-Distinct (λ w. w.id) s'.committed.wallets keyed))
    where
      at_end :
          (p : Result Bool × Session Float)
          → Gives p passed s'
          → Ends Settled p
          → IsChecked s'.committed
      at_end (err e, t) k q = absurd (cc k)
      at_end (ok b, t) k q = let same : t ≡ s' = ap (λ p. p.1) k in rw same at q
