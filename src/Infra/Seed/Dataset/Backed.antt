-- ===== src/Infra/Seed/Dataset/Backed.antt =====
-- The dataset's balances against its ledger entries.
use money_across_borders.Base.{
  ℕ, String, ℤ, pos, ◌+ℤ◌, List, [], ◌∷◌, ◌++◌, map, All, ◌≡◌, refl, ap, ◌∙◌, +ℤ_zero_left,
}
use money_across_borders.Domain.Errors.{Result, ok, err}
use money_across_borders.Domain.Numbers.{Floats}
use money_across_borders.Infra.Seed.Arithmetic.{Arithmetic}
use money_across_borders.Infra.Seed.Rng.{to_uint32}
use money_across_borders.Infra.Seed.Types.{
  SeedCustomer, SeedWalletRef, SeedLedgerEntryRow, SeedConfig, Seed,
}
use money_across_borders.Infra.Seed.Customers.{generate_customers}
use money_across_borders.Infra.Seed.Kyc.{generate_kyc_profiles}
use money_across_borders.Infra.Seed.Wallets.{generate_wallets}
use money_across_borders.Infra.Seed.Wallets.Empty.{IsEmpty, generate_wallets-IsEmpty}
use money_across_borders.Infra.Seed.Yields.{Yields, pure-Yields, then_Yields, always_Yields}
use money_across_borders.Infra.Seed.Ledger.Posted.{credited, net, IsBalanced, post, Posts}
use money_across_borders.Infra.Seed.Ledger.Traces.{
  Ends, Traces, pure-Traces, draw-IsQuiet, if_Traces, first, next_with, next_quiet,
  TracesAfter-pure,
}
use money_across_borders.Infra.Seed.Funding.Traced.{generate_funding-Traces}
use money_across_borders.Infra.Seed.Remittances.Traced.{generate_remittances-Traces}
use money_across_borders.Infra.Seed.Contention.Traced.{build_contention_pool-Traces}
use money_across_borders.Infra.Seed.Contention.{ContentionPoolResult}
use money_across_borders.Infra.Seed.Demo.{generate_idempotency_demo_records}
use money_across_borders.Infra.Seed.Dataset.{
  People, Postings, GeneratedDataset, clone_treasury, no_contention, generate_people, people_of,
  is_high_contention, postings_of, completed_of, generate_postings, assemble, before_postings,
  generate_dataset,
}

append_assoc : (es fs gs : List SeedLedgerEntryRow) → es ++ (fs ++ gs) ≡ (es ++ fs) ++ gs
append_assoc [] fs gs = refl
append_assoc (e ∷ es) fs gs = ap (λ hs. e ∷ hs) (append_assoc es fs gs)

module _ (F : Floats) (M : Arithmetic F) (set_hours : ℤ → ℤ → ℤ → ℤ → ℤ) (password_hash : String)
    (config : SeedConfig F.Float) (at : ℕ) (now : ℤ) where
  open F use {Float}

  abbrev top_ups : ContentionPoolResult → List SeedLedgerEntryRow
  top_ups pool = pool.top_up_ledger_entries

  abbrev entries_of : Postings Float → List SeedLedgerEntryRow
  entries_of p = p.ledger_entries

  generate_postings-Traces :
      (customers : List SeedCustomer)
      → Traces entries_of (generate_postings F M set_hours password_hash config at now customers)
  unfolding generate_postings
  generate_postings-Traces customers =
      first entries_of _ _ _ (generate_funding-Traces F M config) (λ funding.
        next_with entries_of funding _ _ _
          (generate_remittances-Traces F M config at now customers [])
          (λ remitted.
            let made = funding ++ remitted.ledger_entries in
            let completed = completed_of F M set_hours password_hash config at now remitted in
            next_with entries_of made top_ups _ _
              (if_Traces top_ups (is_high_contention config.scenario) _ _
                (build_contention_pool-Traces F M config now customers)
                (pure-Traces top_ups no_contention refl))
              (λ pool.
                next_quiet entries_of (made ++ pool.top_up_ledger_entries) _ _
                  (draw-IsQuiet (generate_idempotency_demo_records F M config completed))
                  (λ records.
                    TracesAfter-pure (made ++ pool.top_up_ledger_entries) entries_of
                      (postings_of F M set_hours password_hash config at now funding remitted pool
                        records)
                      (append_assoc funding remitted.ledger_entries pool.top_up_ledger_entries)))))

  abbrev OpenedEmpty : People → Type 0
  OpenedEmpty people = All IsEmpty people.opened

  generate_people-OpenedEmpty :
      Yields OpenedEmpty (generate_people F M set_hours password_hash config at now)
  unfolding generate_people
  generate_people-OpenedEmpty =
      always_Yields OpenedEmpty (generate_customers F M set_hours password_hash config now) _
        (λ generated.
          always_Yields OpenedEmpty (generate_kyc_profiles F M config now generated.customers) _
            (λ profiles.
              then_Yields (All IsEmpty) OpenedEmpty (generate_wallets F M config now profiles.0) _
                (generate_wallets-IsEmpty F M config now profiles.0)
                (λ wallets h.
                  pure-Yields OpenedEmpty
                    (people_of F M set_hours password_hash config at now generated profiles wallets)
                    h)))

  -- What holds of a dataset, over the treasury that it started from.
  abbrev IsBacked : List SeedWalletRef → GeneratedDataset Float → Type 0
  IsBacked treasury d =
      All (λ w. w.balance ≡ credited w.id d.ledger_entries) d.wallets
      × (d.treasury_by_currency ≡ map (post d.ledger_entries) (clone_treasury [] treasury))
      × IsBalanced d.ledger_entries

  posted_balances :
      (es : List SeedLedgerEntryRow) (ws : List SeedWalletRef)
      → All IsEmpty ws
      → All (λ w. w.balance ≡ credited w.id es) (map (post es) ws)
  unfolding post
  posted_balances es [] h = tt
  posted_balances es (w ∷ ws) h = (
    ap (λ n. n +ℤ credited w.id es) h.0 ∙ +ℤ_zero_left (credited w.id es),
    posted_balances es ws h.1,
  )

  assemble-IsBacked :
      (treasury : List SeedWalletRef) (rng : ℕ) (people : People) (p : Postings Float) (s : Seed)
      → OpenedEmpty people
      → Posts
          (before_postings F M set_hours password_hash config at now rng people treasury)
          p.ledger_entries
          s
      → IsBacked treasury (assemble F M set_hours password_hash config at now people p s)
  unfolding Posts
  assemble-IsBacked treasury rng people p s empty posts =
      (rw posts.0 (posted_balances p.ledger_entries people.opened empty), posts.1, posts.2)

  of_ok :
      (P : GeneratedDataset Float → Type 0) (c d : GeneratedDataset Float) → P c → ok c ≡ ok d → P d
  of_ok P c d h e = let same : c ≡ d = cc e in rw same at h

  generate_dataset-IsBacked :
      (treasury : List SeedWalletRef) (d : GeneratedDataset Float)
      → generate_dataset F M set_hours password_hash config at now treasury ≡ ok d
      → IsBacked treasury d
  unfolding generate_dataset Yields Traces Ends
  generate_dataset-IsBacked treasury d =
      opened (generate_people F M set_hours password_hash config at now (to_uint32 config.seed))
        (generate_people-OpenedEmpty (to_uint32 config.seed))
    where
      posted :
          (rng : ℕ) (people : People) (t : Result (Postings Float × Seed))
          → OpenedEmpty people
          → Ends
              (λ p s.
                Posts
                  (before_postings F M set_hours password_hash config at now rng people treasury)
                  p.ledger_entries
                  s)
              t
          → elim t [
            | err e ↦ err e
            | ok r ↦ ok (assemble F M set_hours password_hash config at now people r.0 r.1)
          ]
            ≡ ok d
          → IsBacked treasury d
      posted rng people (err e) empty posts h = absurd (cc h)
      posted rng people (ok r) empty posts h =
          of_ok (IsBacked treasury)
            (assemble F M set_hours password_hash config at now people r.0 r.1) d
            (assemble-IsBacked treasury rng people r.0 r.1 empty posts) h

      opened :
          (t : Result (People × ℕ))
          → Ends (λ p n. OpenedEmpty p) t
          → elim t [
            | err e ↦ err e
            | ok r ↦
                elim (generate_postings F M set_hours password_hash config at now r.0.customers
                  (before_postings F M set_hours password_hash config at now r.1 r.0 treasury)) [
                    | err e ↦ err e
                    | ok u ↦ ok (assemble F M set_hours password_hash config at now r.0 u.0 u.1)
                  ]
          ]
            ≡ ok d
          → IsBacked treasury d
      opened (err e) empty h = absurd (cc h)
      opened (ok r) empty h =
          let start = before_postings F M set_hours password_hash config at now r.1 r.0 treasury in
          posted r.1 r.0
            (generate_postings F M set_hours password_hash config at now r.0.customers start) empty
            (generate_postings-Traces r.0.customers start) h

  -- Where the pipeline generates a dataset: the balance of every wallet of a customer is the
  -- credits less the debits of the ledger entries of that wallet's id, and every wallet of the
  -- treasury has the balance it started with plus the credits less the debits of its id.
  pub generate_dataset_reconciled :
      (treasury : List SeedWalletRef) (d : GeneratedDataset Float)
      → generate_dataset F M set_hours password_hash config at now treasury ≡ ok d
      → All (λ w. w.balance ≡ credited w.id d.ledger_entries) d.wallets
        × (d.treasury_by_currency ≡ map (post d.ledger_entries) (clone_treasury [] treasury))
  generate_dataset_reconciled treasury d h =
      let backed = generate_dataset-IsBacked treasury d h in (backed.0, backed.1)

  -- Where the pipeline generates a dataset, the ledger entries of every transaction id net to
  -- zero in every currency code.
  pub generate_dataset_balances :
      (treasury : List SeedWalletRef) (d : GeneratedDataset Float)
      → generate_dataset F M set_hours password_hash config at now treasury ≡ ok d
      → (t c : String) → net t c d.ledger_entries ≡ pos 0
  unfolding IsBalanced
  generate_dataset_balances treasury d h = (generate_dataset-IsBacked treasury d h).2
