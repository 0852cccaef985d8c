-- ===== src/Infra/Seed/Database/Rows.antt =====
-- What the batches of one table add to it.
use money_across_borders.Base.{ℕ, String, ◌<◌, Option, List, [], ◌∷◌, ◌++◌, ◌≡◌, refl, sym, ap, ◌∙◌}
use money_across_borders.Domain.Errors.{DomainError}
use money_across_borders.Infra.Seed.Types.{
  SeedUserRow, SeedAccountRow, SeedKycProfileRow, SeedLedgerEntryRow, SeedRemittanceRow,
}
use money_across_borders.Infra.Seed.Demo.{DemoResponse, SeedIdempotencyRecordRow}
use money_across_borders.Infra.Seed.Batches.{chunk, flatten-chunk}
use money_across_borders.Infra.Seed.Database.{SeedWalletRow, IdempotencyRow, Tables}
use money_across_borders.Infra.Seed.Database.Unnest.{
  unnest_users, unnest_accounts, unnest_wallets, unnest_kyc_profiles, unnest_ledger_entries,
  unnest_remittances, unnest_users_lem, unnest_accounts_lem, unnest_wallets_lem,
  unnest_kyc_profiles_lem, unnest_ledger_entries_lem, unnest_remittances_lem,
  unnest_idempotency_records, unnest_idempotency_records-append,
}
use money_across_borders.Infra.Seed.Database.Writer.{
  insert_batches, add_absent, insert_users, insert_accounts, insert_wallets, insert_kyc_profiles,
  insert_ledger_entries, insert_remittances, insert_idempotency_records,
}
use money_across_borders.Infra.Seed.Database.Appended.{Does, Does-agree, insert_batches-Does}

module _ {A : Type 0} where
  append_nil : (xs : List A) → xs ++ [] ≡ xs
  append_nil [] = refl
  append_nil (x ∷ xs) = ap (λ ys. x ∷ ys) (append_nil xs)

  append_assoc : (xs ys zs : List A) → (xs ++ ys) ++ zs ≡ xs ++ (ys ++ zs)
  append_assoc [] ys zs = refl
  append_assoc (x ∷ xs) ys zs = ap (λ l. x ∷ l) (append_assoc xs ys zs)

pub add_absent-append :
    (b c table : List IdempotencyRow)
    → add_absent c (add_absent b table) ≡ add_absent (b ++ c) table
unfolding add_absent
add_absent-append [] c table = refl
add_absent-append (r ∷ b) c table = add_absent-append b c _

-- A table, by how it is read and written.
record Table (Float A : Type 0) : Type 0 where
  pub get : Tables Float → List A
  pub put : List A → Tables Float → Tables Float
  pub put_got : (t : Tables Float) → put (get t) t ≡ t
  pub got_put : (rows : List A) (t : Tables Float) → get (put rows t) ≡ rows
  pub put_twice : (rows more : List A) (t : Tables Float) → put more (put rows t) ≡ put more t

module _ {Float : Type 0} (refuses : ℕ → Option DomainError) where
  abbrev appended : {A : Type 0} → Table Float A → List A → Tables Float → Tables Float
  appended T rows t = T.put (T.get t ++ rows) t

  appended_twice :
      {A : Type 0} (T : Table Float A) (b c : List A) (t : Tables Float)
      → appended T c (appended T b t) ≡ appended T (b ++ c) t
  appended_twice T b c t =
      ap (λ rows. T.put (rows ++ c) (T.put (T.get t ++ b) t)) (T.got_put (T.get t ++ b) t)
      ∙ T.put_twice (T.get t ++ b) ((T.get t ++ b) ++ c) t
      ∙ ap (λ rows. T.put rows t) (append_assoc (T.get t) b c)

  -- An insert of all chunks appends all rows, for a batch size above zero.
  append_chunks :
      {A : Type 0} (T : Table Float A) (unnest : List A → List A)
      → ((batch : List A) → unnest batch ≡ batch)
      → (rows : List A) (size : ℕ) → 0 < size
      → Does refuses
          (insert_batches refuses (λ batch t. T.put (T.get t ++ unnest batch) t) (chunk rows size))
          (appended T rows)
  append_chunks T unnest same rows size h =
      Does-agree refuses _ _ _ (λ t. ap (λ l. appended T l t) (flatten-chunk rows size h).0)
        (insert_batches-Does refuses (λ batch t. T.put (T.get t ++ unnest batch) t) (appended T)
          (λ b t. ap (λ l. appended T l t) (same b))
          (λ t. ap (λ rows. T.put rows t) (append_nil (T.get t)) ∙ T.put_got t) (appended_twice T)
          (chunk rows size))

module _ (Float : Type 0) (refuses : ℕ → Option DomainError) where
  pub insert_users-Does :
      (rows : List SeedUserRow) (size : ℕ)
      → 0 < size
      → Does {Float = Float} refuses
          (insert_users refuses rows size)
          (λ t. record t { users = t.users ++ rows })
  unfolding insert_users
  insert_users-Does rows size h =
      append_chunks refuses
        (record {
          get = λ t. t.users;
          put = λ l t. record t { users = l };
          put_got = λ t. refl;
          got_put = λ l t. refl;
          put_twice = λ l m t. refl;
        })
        unnest_users unnest_users_lem rows size h

  pub insert_accounts-Does :
      (rows : List SeedAccountRow) (size : ℕ)
      → 0 < size
      → Does {Float = Float} refuses
          (insert_accounts refuses rows size)
          (λ t. record t { accounts = t.accounts ++ rows })
  unfolding insert_accounts
  insert_accounts-Does rows size h =
      append_chunks refuses
        (record {
          get = λ t. t.accounts;
          put = λ l t. record t { accounts = l };
          put_got = λ t. refl;
          got_put = λ l t. refl;
          put_twice = λ l m t. refl;
        })
        unnest_accounts unnest_accounts_lem rows size h

  pub insert_wallets-Does :
      (rows : List SeedWalletRow) (size : ℕ)
      → 0 < size
      → Does {Float = Float} refuses
          (insert_wallets refuses rows size)
          (λ t. record t { wallets = t.wallets ++ rows })
  unfolding insert_wallets
  insert_wallets-Does rows size h =
      append_chunks refuses
        (record {
          get = λ t. t.wallets;
          put = λ l t. record t { wallets = l };
          put_got = λ t. refl;
          got_put = λ l t. refl;
          put_twice = λ l m t. refl;
        })
        unnest_wallets unnest_wallets_lem rows size h

  pub insert_kyc_profiles-Does :
      (rows : List SeedKycProfileRow) (size : ℕ)
      → 0 < size
      → Does {Float = Float} refuses
          (insert_kyc_profiles refuses rows size)
          (λ t. record t { kyc_profiles = t.kyc_profiles ++ rows })
  unfolding insert_kyc_profiles
  insert_kyc_profiles-Does rows size h =
      append_chunks refuses
        (record {
          get = λ t. t.kyc_profiles;
          put = λ l t. record t { kyc_profiles = l };
          put_got = λ t. refl;
          got_put = λ l t. refl;
          put_twice = λ l m t. refl;
        })
        unnest_kyc_profiles unnest_kyc_profiles_lem rows size h

  pub insert_ledger_entries-Does :
      (rows : List SeedLedgerEntryRow) (size : ℕ)
      → 0 < size
      → Does {Float = Float} refuses
          (insert_ledger_entries refuses rows size)
          (λ t. record t { ledger_entries = t.ledger_entries ++ rows })
  unfolding insert_ledger_entries
  insert_ledger_entries-Does rows size h =
      append_chunks refuses
        (record {
          get = λ t. t.ledger_entries;
          put = λ l t. record t { ledger_entries = l };
          put_got = λ t. refl;
          got_put = λ l t. refl;
          put_twice = λ l m t. refl;
        })
        unnest_ledger_entries unnest_ledger_entries_lem rows size h

  pub insert_remittances-Does :
      (rows : List (SeedRemittanceRow Float)) (size : ℕ)
      → 0 < size
      → Does {Float = Float} refuses
          (insert_remittances refuses rows size)
          (λ t. record t { remittances = t.remittances ++ rows })
  unfolding insert_remittances
  insert_remittances-Does rows size h =
      append_chunks refuses
        (record {
          get = λ t. t.remittances;
          put = λ l t. record t { remittances = l };
          put_got = λ t. refl;
          got_put = λ l t. refl;
          put_twice = λ l m t. refl;
        })
        unnest_remittances unnest_remittances_lem rows size h

  pub insert_idempotency_records-Does :
      (stringify : DemoResponse → String) (rows : List SeedIdempotencyRecordRow) (size : ℕ)
      → 0 < size
      → Does {Float = Float} refuses (insert_idempotency_records refuses stringify rows size) (λ t.
        record t {
          idempotency_records =
              add_absent (unnest_idempotency_records stringify rows) t.idempotency_records;
        })
  unfolding insert_idempotency_records unnest_idempotency_records
  insert_idempotency_records-Does stringify rows size h =
      let row = unnest_idempotency_records stringify in
      let add : List SeedIdempotencyRecordRow → Tables Float → Tables Float =
        λ b t. record t { idempotency_records = add_absent (row b) t.idempotency_records } in
      Does-agree refuses _ _ _ (λ t. ap (λ l. add l t) (flatten-chunk rows size h).0)
        (insert_batches-Does refuses add add (λ b t. refl) (λ t. nothing_absent t)
          (λ b c t.
            ap (λ l. record t { idempotency_records = l })
              (add_absent-append (row b) (row c) t.idempotency_records
                ∙ ap (λ l. add_absent l t.idempotency_records)
                    (sym (unnest_idempotency_records-append stringify b c))))
          (chunk rows size))
    where
      nothing_absent :
          (t : Tables Float)
          → record t { idempotency_records = add_absent [] t.idempotency_records } ≡ t
      nothing_absent t = unfold add_absent in refl
