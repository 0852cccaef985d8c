-- ===== src/Infra/TreasurySeed/Seeded.antt =====
-- The treasury has a wallet in every supported currency, once it is seeded.
use money_across_borders.Base.{
  ℕ, suc, ◌≤◌, ◌<◌, String, pos, false, none, some, Option-cases, inl, inr, List, [], ◌∷◌, All,
  is_same, String_discrete, ◌≡◌, refl, ◌∙◌, ap, arith,
}
use money_across_borders.Domain.Errors.{ok, err}
use money_across_borders.Domain.Currency.{Currency, supported_codes}
use money_across_borders.Domain.Currency
use money_across_borders.Domain.Statuses.{active_wallet}
use money_across_borders.Domain.Wallet.{Wallet}
use money_across_borders.Store.{World, Environment, Action, ◌>>=◌, ◌>>◌, lift}
use money_across_borders.Store.Repositories.{
  save_wallet, find_by_account_id_and_currency, find_wallet_by_id,
}
use money_across_borders.Application.SendRemittance.{treasury_account_id}
use money_across_borders.Application.OpenWallet.Unique.{find-save_new, find-saved_new}
use money_across_borders.Infra.TreasurySeed.{
  add_treasury, seed_currency, seed_codes, seed_treasury_wallets,
}

-- The treasury has a wallet in a currency.
abbrev pub HasTreasury : {Float : Type 0} → World Float → Currency → Type 0
HasTreasury w c =
    (x : Wallet) × (find_by_account_id_and_currency treasury_account_id c w.wallets ≡ some x)

-- No wallet has an id that is still to be drawn.
abbrev pub IsFresh : {Float : Type 0} → Environment → World Float → Type 0
IsFresh E w = (n : ℕ) → w.generated ≤ n → find_wallet_by_id (E.uuid_v7 n) w.wallets ≡ none

find_wallet_by_id-save :
    (a : Wallet) (k : String) (ws : List Wallet)
    → is_same a.id k ≡ false
    → find_wallet_by_id k ws ≡ none
    → find_wallet_by_id k (save_wallet a ws) ≡ none
unfolding find_wallet_by_id save_wallet
find_wallet_by_id-save a k [] d h = ground arith
find_wallet_by_id-save a k (x ∷ ws) d h = ground (arith, find_wallet_by_id-save a k ws)

abbrev IsSupported : String → Type 0
IsSupported code = (c : Currency) × (Currency.from code ≡ ok c)

supported_codes-IsSupported : All IsSupported supported_codes
unfolding supported_codes Currency.from String_discrete
supported_codes-IsSupported = ((_, refl), ((_, refl), ((_, refl), ((_, refl), tt))))

module _ (E : Environment)
    (distinct : (n m : ℕ) → n < m → is_same (E.uuid_v7 n) (E.uuid_v7 m) ≡ false)
    {Float : Type 0} where
  abbrev wallet_for : World Float → Currency → Wallet
  wallet_for w c = record {
    id = E.uuid_v7 w.generated;
    account_id = treasury_account_id;
    currency = c;
    balance = record { amount_minor_units = pos 1000000000; currency = c };
    status = active_wallet;
    created_at = E.clock w.clock_reads;
  }

  abbrev with_treasury : World Float → Currency → World Float
  with_treasury w c = record w {
    generated = suc w.generated;
    clock_reads = suc w.clock_reads;
    wallets = save_wallet (wallet_for w c) w.wallets;
  }

  add_treasury-eq :
      (c : Currency) (w : World Float) → add_treasury E c w ≡ (ok tt, with_treasury w c)
  unfolding add_treasury
  add_treasury-eq c w = refl

  with_treasury-IsFresh :
      (w : World Float) (c : Currency) → IsFresh E w → IsFresh E (with_treasury w c)
  with_treasury-IsFresh w c fresh n h =
      find_wallet_by_id-save (wallet_for w c) (E.uuid_v7 n) w.wallets
        (distinct w.generated n (omega (arith, h))) (fresh n (omega (arith, h)))

  with_treasury-HasTreasury :
      (w : World Float) (c d : Currency)
      → IsFresh E w
      → HasTreasury w d
      → HasTreasury (with_treasury w c) d
  with_treasury-HasTreasury w c d fresh (x, found) = (
    x,
    find-save_new (wallet_for w c) treasury_account_id d w.wallets (fresh w.generated (omega arith))
        ∙ rw found refl,
  )

  -- What seeding one currency, or several, does.
  record IsSeeding (w : World Float) (codes : List String) (w' : World Float) : Type 0 where
    fresh : IsFresh E w'
    kept : (d : Currency) → HasTreasury w d → HasTreasury w' d
    added : All (λ code. (c : Currency) × (Currency.from code ≡ ok c) × HasTreasury w' c) codes

  seed_currency_done :
      (c : Currency) (w : World Float)
      → IsFresh E w
      → (w' : World Float) × (seed_currency E c w ≡ (ok tt, w'))
        × IsFresh E w'
        × ((d : Currency) → HasTreasury w d → HasTreasury w' d)
        × HasTreasury w' c
  unfolding seed_currency
  seed_currency_done c w fresh =
      elim (Option-cases (find_by_account_id_and_currency treasury_account_id c w.wallets)) [
        | inl missing ↦ (
          with_treasury w c,
          rw (missing, seed_currency) (add_treasury-eq c w),
          with_treasury-IsFresh w c fresh,
          (λ d h. with_treasury-HasTreasury w c d fresh h),
          (
            wallet_for w c,
            find-saved_new (wallet_for w c) w.wallets (fresh w.generated (omega arith)) missing,
          ),
        )
        | inr (x, found) ↦ (w, rw (found, seed_currency) refl, fresh, (λ d h. h), (x, found))
      ]

  chained :
      {A B : Type 0} {a : A} {w' : World Float} (m : Action Float A) (f : A → Action Float B)
      (w : World Float)
      → m w ≡ (ok a, w')
      → (m >>= f) w ≡ f a w'
  chained m f w e = ap (λ r. elim r.0 [ ok x ↦ f x r.1 | err x ↦ (err x, r.1) ]) e

  seed_codes-eq :
      (code : String) (codes : List String) (c : Currency) (w w' : World Float)
      → Currency.from code ≡ ok c
      → seed_currency E c w ≡ (ok tt, w')
      → seed_codes E (code ∷ codes) w ≡ seed_codes E codes w'
  unfolding seed_codes
  seed_codes-eq code codes c w w' from_code first =
      chained (lift (Currency.from code)) (λ d. seed_currency E d >> seed_codes E codes) w
        (ap (λ r. (r, w)) from_code)
      ∙ chained (seed_currency E c) (λ _. seed_codes E codes) w first

  seed_codes_done :
      (codes : List String) (w : World Float)
      → All IsSupported codes
      → IsFresh E w
      → (w' : World Float) × (seed_codes E codes w ≡ (ok tt, w')) × IsSeeding w codes w'
  unfolding seed_codes
  seed_codes_done [] w supported fresh =
      (w, refl, record { fresh = fresh; kept = λ d h. h; added = tt })
  seed_codes_done (code ∷ codes) w supported fresh =
      let (c, from_code) = supported.0 in
      let (w1, first, fresh1, kept1, has) = seed_currency_done c w fresh in
      let (w2, rest, seeding) = seed_codes_done codes w1 supported.1 fresh1 in
      (
        w2,
        seed_codes-eq code codes c w w1 from_code first ∙ rest,
        record {
          fresh = seeding.fresh;
          kept = λ d h. seeding.kept d (kept1 d h);
          added = ((c, from_code, seeding.kept c has), seeding.added);
        },
      )

  -- Where every currency has its wallet, nothing is left to do.
  seed_codes_again :
      (codes : List String) (w : World Float)
      → All (λ code. (c : Currency) × (Currency.from code ≡ ok c) × HasTreasury w c) codes
      → seed_codes E codes w ≡ (ok tt, w)
  unfolding seed_codes seed_currency
  seed_codes_again [] w h = refl
  seed_codes_again (code ∷ codes) w ((c, from_code, (x, found)), h) =
      seed_codes-eq code codes c w w from_code (rw (found, seed_currency) refl)
      ∙ seed_codes_again codes w h

  -- Where the ids to be drawn differ from each other and from the id of every wallet in the
  -- tables, the seeding of the treasury returns, leaves the treasury a wallet in every supported
  -- currency, and when it is run again it changes nothing.
  pub seed_treasury_wallets_covers :
      (w : World Float)
      → IsFresh E w
      → (w' : World Float) × (seed_treasury_wallets E w ≡ (ok tt, w'))
        × All
            (λ code. (c : Currency) × (Currency.from code ≡ ok c) × HasTreasury w' c)
            supported_codes
        × (seed_treasury_wallets E w' ≡ (ok tt, w'))
  unfolding seed_treasury_wallets
  seed_treasury_wallets_covers w fresh =
      let (w', done, seeding) =
        seed_codes_done supported_codes w supported_codes-IsSupported fresh in
      (w', done, seeding.added, seed_codes_again supported_codes w' seeding.added)
