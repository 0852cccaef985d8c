-- ===== src/Infra/Seed/RunSeed/Prepared.antt =====
-- What a seed run starts from: fresh tables, and the wallets of the treasury.
use money_across_borders.Base.{
  ℕ, suc, String, ℤ, Bool, true, false, Option, none, List, [], ◌∷◌, map, length, ◌==◌, All, ◌≡◌,
  refl, ap, ◌∙◌, ◌⊎◌, inl, inr, if◌then◌else◌, String_discrete,
}
use money_across_borders.Domain.Errors.{DomainError, ok, err}
use money_across_borders.Domain.Numbers.{Floats}
use money_across_borders.Infra.Seed.Arithmetic.{Arithmetic}
use money_across_borders.Infra.Seed.Types.{SeedConfig, SeedWalletRef}
use money_across_borders.Infra.Seed.Dataset.{clone_treasury}
use money_across_borders.Infra.Seed.Database.{
  SeedWalletRow, Tables, Session, pure, lift, seen, changed,
}
use money_across_borders.Infra.Seed.Database.Setup.{
  assert_database_is_clean, reset_database, load_treasury_wallets, nothing_left, treasury_migration,
  treasury_rows, database_not_clean, refs_of, to_wallet_ref,
}
use money_across_borders.Infra.Seed.Checks.Passed.{IsTreasury}
use money_across_borders.Infra.Seed.Database.Leads.{
  Ends, Leads, pure_Leads, lift_Leads, send_Leads, then_Leads,
}
use money_across_borders.Infra.Seed.RunSeed.{Surroundings, prepare}

-- Only the treasury has wallets, and nothing is posted.
pub record IsFresh {Float : Type 0} (t : Tables Float) : Type 0 where
  pub unposted : t.ledger_entries ≡ []
  pub own : All IsTreasury t.wallets

-- No transaction is open, and the tables are fresh.
pub record IsReady {Float : Type 0} (s : Session Float) : Type 0 where
  pub idle : s.working ≡ none
  pub fresh : IsFresh s.committed

migrated-IsFresh :
    {Float : Type 0} (random_uuid : ℕ → String) (now : ℤ)
    → IsFresh (treasury_migration {Float = Float} random_uuid now nothing_left)
unfolding String_discrete
migrated-IsFresh random_uuid now = record {
  unposted = refl;
  own = (refl, (refl, (refl, (refl, tt))));
}

module _ {Float : Type 0} where
  -- No transaction is open, and the tables are fresh or about to be.
  abbrev pub IsIdle : Bool → Session Float → Type 0
  IsIdle reset s = (s.working ≡ none) × ((reset ≡ true) ⊎ IsFresh s.committed)

  abbrev Truncated : Session Float → Type 0
  Truncated s = (s.working ≡ none) × (s.committed ≡ nothing_left)

  migrated-IsReady :
      (random_uuid : ℕ → String) (now : ℤ) (s : Session Float)
      → Truncated s
      → IsReady (changed (treasury_migration random_uuid now) (record s { sent = suc s.sent }))
  migrated-IsReady random_uuid now s h =
      rw h.0 (record { idle = h.0; fresh = rw h.1 (migrated-IsFresh random_uuid now) })

  nothing_left-Truncated :
      (s : Session Float)
      → s.working ≡ none
      → Truncated (changed (λ t. nothing_left) (record s { sent = suc s.sent }))
  nothing_left-Truncated s idle = rw idle (refl, refl)

module _ (Float : Type 0) (refuses : ℕ → Option DomainError) where
  reset_database-Leads :
      (production : Bool) (random_uuid : ℕ → String) (now : ℤ)
      → Leads {Float = Float}
          (λ s. s.working ≡ none)
          (reset_database refuses production random_uuid now)
          (λ u s. IsReady s)
  unfolding reset_database
  reset_database-Leads true random_uuid now = lift_Leads _ _ _ (λ a h. absurd (cc h))
  reset_database-Leads false random_uuid now =
      then_Leads _ _ _ (λ u. Truncated) _ (send_Leads _ refuses _ _ _ nothing_left-Truncated)
        (λ u. send_Leads _ refuses _ _ _ (migrated-IsReady random_uuid now))

  assert_database_is_clean-Leads :
      Leads {Float = Float} IsReady (assert_database_is_clean refuses) (λ u s. IsReady s)
  unfolding assert_database_is_clean
  assert_database_is_clean-Leads =
      then_Leads _ _ _ (λ others. IsReady) _
        (send_Leads _ refuses _ _ _ (λ s h. record { idle = h.idle; fresh = h.fresh }))
        (λ others. clean (length others == 0))
    where
      clean :
          (b : Bool)
          → Leads {Float = Float} IsReady
              (if b then pure tt else lift (err database_not_clean))
              (λ u s. IsReady s)
      clean true = pure_Leads _ _ _ (λ s h. h)
      clean false = lift_Leads _ _ _ (λ a e. absurd (cc e))

module _ (F : Floats) (M : Arithmetic F) (E : Surroundings) (refuses : ℕ → Option DomainError) where
  open F use {Float}

  pub prepare-Leads :
      (config : SeedConfig Float) (reset : Bool)
      → config.reset ≡ reset
      → Leads (IsIdle reset) (prepare F M E refuses config) (λ u s. IsReady s)
  unfolding prepare Leads
  prepare-Leads config reset same s h = go config.reset same h.1
    where
      go :
          (b : Bool)
          → b ≡ reset
          → (reset ≡ true) ⊎ IsFresh s.committed
          → Ends
              (λ u t. IsReady t)
              ((if b
                  then reset_database refuses E.production E.random_uuid E.database_now
                  else assert_database_is_clean refuses)
                s)
      go true e k =
          reset_database-Leads Float refuses E.production E.random_uuid E.database_now s h.0
      go false e (inl r) = absurd (cc (e, r))
      go false e (inr fresh) =
          assert_database_is_clean-Leads Float refuses s (record { idle = h.0; fresh = fresh })

  -- Fresh tables, and their treasury as it was read.
  abbrev pub IsLoaded : List SeedWalletRef → Session Float → Type 0
  IsLoaded treasury s =
      IsReady s × (treasury ≡ clone_treasury [] (map to_wallet_ref (treasury_rows s.committed)))

  refs_lem :
      (rows : List SeedWalletRow) (treasury : List SeedWalletRef)
      → refs_of rows ≡ ok treasury
      → treasury ≡ clone_treasury [] (map to_wallet_ref rows)
  refs_lem [] treasury h = absurd (cc h)
  refs_lem (r ∷ rows) treasury h = cc h

  abbrev IsRead : List SeedWalletRow → Session Float → Type 0
  IsRead rows s = IsReady s × (rows ≡ treasury_rows s.committed)

  seen-IsRead :
      (s : Session Float)
      → IsReady s
      → IsRead (treasury_rows (seen s)) (record s { sent = suc s.sent })
  seen-IsRead s h = (record { idle = h.idle; fresh = h.fresh }, rw h.idle refl)

  pub load_treasury_wallets-Leads : Leads IsReady (load_treasury_wallets refuses) IsLoaded
  unfolding load_treasury_wallets
  load_treasury_wallets-Leads =
      then_Leads _ _ _ IsRead _ (send_Leads _ refuses _ _ _ seen-IsRead) (λ rows.
        lift_Leads _ _ _ (λ treasury e s h.
          (h.0, refs_lem rows treasury e ∙ ap (λ l. clone_treasury [] (map to_wallet_ref l)) h.1)))
