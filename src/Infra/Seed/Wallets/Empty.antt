-- ===== src/Infra/Seed/Wallets/Empty.antt =====
-- The wallets of the pipeline start empty.
use money_across_borders.Base.{
  String, ℤ, pos, pos_part, ◌+ℤ◌, List, [], ◌∷◌, ◌++◌, length, All, ◌≡◌, refl,
}
use money_across_borders.Domain.Errors.{invalid}
use money_across_borders.Domain.Numbers.{Floats}
use money_across_borders.Infra.Seed.Run.{throw}
use money_across_borders.Infra.Seed.Arithmetic.{Arithmetic}
use money_across_borders.Infra.Seed.Yields.{
  Yields, pure-Yields, throw-Yields, then_Yields, always_Yields,
}
use money_across_borders.Infra.Seed.Types.{SeedWalletRef, SeedCustomer, SeedConfig}
use money_across_borders.Infra.Seed.Rng.{Weighted, next_int, uuid}
use money_across_borders.Infra.Seed.Dates.{random_timestamp_between}
use money_across_borders.Infra.Seed.Wallets.{
  min_ℤ, new_wallet, active_currencies, pick_distinct_weighted, open_wallets, wallets_from,
  generate_wallets,
}

abbrev pub IsEmpty : SeedWalletRef → Type 0
IsEmpty w = w.balance ≡ pos 0

All-append : (xs ys : List SeedWalletRef) → All IsEmpty xs → All IsEmpty ys → All IsEmpty (xs ++ ys)
All-append [] ys hx hy = hy
All-append (x ∷ xs) ys hx hy = (hx.0, All-append xs ys hx.1 hy)

module _ (F : Floats) (M : Arithmetic F) (config : SeedConfig F.Float) (now : ℤ) where
  open_wallets-IsEmpty :
      (customer : SeedCustomer) (currencies : List String)
      → Yields (All IsEmpty) (open_wallets F M config now customer currencies)
  unfolding open_wallets
  open_wallets-IsEmpty customer [] = pure-Yields (All IsEmpty) [] tt
  open_wallets-IsEmpty customer (currency ∷ currencies) =
      always_Yields (All IsEmpty) (uuid F M) _ (λ id.
        always_Yields (All IsEmpty)
          (random_timestamp_between F M customer.created_at
            (min_ℤ (customer.created_at +ℤ pos 172800000) now))
          _
          (λ created_at.
            then_Yields (All IsEmpty) (All IsEmpty)
              (open_wallets F M config now customer currencies) _
              (open_wallets-IsEmpty customer currencies)
              (λ rest h.
                pure-Yields (All IsEmpty) (new_wallet id customer currency created_at ∷ rest)
                  (refl, h))))

  wallets_from-IsEmpty :
      (customers : List SeedCustomer) → Yields (All IsEmpty) (wallets_from F M config now customers)
  unfolding wallets_from
  wallets_from-IsEmpty [] = pure-Yields (All IsEmpty) [] tt
  wallets_from-IsEmpty (customer ∷ customers) =
      let active = active_currencies F M config in
      let most = min_ℤ config.wallets_per_customer.max (pos (length active)) in
      always_Yields (All IsEmpty) (next_int F M (min_ℤ config.wallets_per_customer.min most) most) _
        (λ count.
          always_Yields (All IsEmpty) (pick_distinct_weighted F M (pos_part count) active) _
            (λ currencies.
              then_Yields (All IsEmpty) (All IsEmpty)
                (open_wallets F M config now customer currencies) _
                (open_wallets-IsEmpty customer currencies)
                (λ opened h.
                  then_Yields (All IsEmpty) (All IsEmpty) (wallets_from F M config now customers) _
                    (wallets_from-IsEmpty customers)
                    (λ rest hs.
                      pure-Yields (All IsEmpty) (opened ++ rest) (All-append opened rest h hs)))))

  pub generate_wallets-IsEmpty :
      (customers : List SeedCustomer)
      → Yields (All IsEmpty) (generate_wallets F M config now customers)
  unfolding generate_wallets
  generate_wallets-IsEmpty customers = go (active_currencies F M config)
    where
      go :
          (active : List (Weighted F.Float String))
          → Yields (All IsEmpty) (elim active [
            | [] ↦ throw (invalid "currencyDistribution has no currency with weight > 0")
            | e ∷ es ↦ wallets_from F M config now customers
          ])
      go [] = throw-Yields (All IsEmpty) _
      go (e ∷ es) = wallets_from-IsEmpty customers
