-- ===== src/Infra/Seed/Wallets.antt =====
-- src/infra/seed/generators/wallet-generator.ts
pub mod Empty
use money_across_borders.Base.{
  ℕ, zero, suc, ◌+◌, String, ℤ, pos, pos_part, ◌+ℤ◌, ltb_ℤ, not, List, [], ◌∷◌, ◌++◌, length,
  get_elem?, filter, if◌then◌else◌,
}
use money_across_borders.Domain.Errors.{invalid}
use money_across_borders.Domain.Numbers.{Floats}
use money_across_borders.Infra.Seed.Run.{Run, ◌>>=◌, ◌>>◌, pure, throw, lift}
use money_across_borders.Infra.Seed.Arithmetic.{Arithmetic}
use money_across_borders.Infra.Seed.Rng.{Weighted, at_index, next_int, weighted_pick, uuid}
use money_across_borders.Infra.Seed.Dates.{random_timestamp_between}
use money_across_borders.Infra.Seed.Types.{SeedWalletRef, SeedCustomer, SeedConfig}

-- `Math.min`
abbrev pub min_ℤ : ℤ → ℤ → ℤ
min_ℤ a b = if ltb_ℤ b a then b else a

abbrev pub max_ℤ : ℤ → ℤ → ℤ
max_ℤ a b = if ltb_ℤ a b then b else a

-- `pool.splice(index, 1)`
unfoldable pub remove_at : {A : Type 0} → ℕ → List A → List A
remove_at i [] = []
remove_at zero (x ∷ xs) = xs
remove_at (suc i) (x ∷ xs) = x ∷ remove_at i xs

-- `pool.map((entry, idx) => ({ value: idx, weight: entry.weight }))`, from an index.
abbrev indexed : {Float : Type 0} → ℕ → List (Weighted Float String) → List (Weighted Float ℕ)
indexed i [] = []
indexed i (e ∷ pool) = (record { value = i; weight = e.weight }) ∷ indexed (i + 1) pool

module _ (F : Floats) (M : Arithmetic F) where
  open F use {Float, of_ℤ}
  open M use {is_at_most}

  -- The turns that are left, which an empty pool ends.
  unfoldable pub pick_distinct_weighted : ℕ → List (Weighted Float String) → Run ℕ (List String)
  unfolding weighted_pick remove_at
  pick_distinct_weighted zero pool = pure []
  pick_distinct_weighted (suc n) [] = pure []
  pick_distinct_weighted (suc n) (e ∷ pool) = do
    index ← weighted_pick F M (indexed 0 (e ∷ pool))
    chosen ← lift (at_index (get_elem? (e ∷ pool) index))
    rest ← pick_distinct_weighted n (remove_at index (e ∷ pool))
    pure (chosen.value ∷ rest)

  -- The currencies of a positive weight.
  unfoldable pub active_currencies : SeedConfig Float → List (Weighted Float String)
  active_currencies config =
      filter (λ e. not (is_at_most e.weight (of_ℤ (pos 0)))) config.currency_distribution

abbrev pub new_wallet : String → SeedCustomer → String → ℤ → SeedWalletRef
new_wallet id customer currency created_at = record {
  id = id;
  account_id = customer.account_id;
  currency = currency;
  balance = pos 0;
  created_at = created_at;
}

module _ (F : Floats) (M : Arithmetic F) (config : SeedConfig F.Float) (now : ℤ) where
  -- A wallet is opened at most two days after its account.
  unfoldable pub open_wallets : SeedCustomer → List String → Run ℕ (List SeedWalletRef)
  unfolding uuid random_timestamp_between
  open_wallets customer [] = pure []
  open_wallets customer (currency ∷ currencies) = do
    let window_end = min_ℤ (customer.created_at +ℤ pos 172800000) now
    id ← uuid F M
    created_at ← random_timestamp_between F M customer.created_at window_end
    rest ← open_wallets customer currencies
    pure (new_wallet id customer currency created_at ∷ rest)

  unfoldable pub wallets_from : List SeedCustomer → Run ℕ (List SeedWalletRef)
  unfolding active_currencies next_int pick_distinct_weighted open_wallets
  wallets_from [] = pure []
  wallets_from (customer ∷ customers) = do
    let active = active_currencies F M config
    let max_wallets = min_ℤ config.wallets_per_customer.max (pos (length active))
    let min_wallets = min_ℤ config.wallets_per_customer.min max_wallets
    count ← next_int F M min_wallets max_wallets
    currencies ← pick_distinct_weighted F M (pos_part count) active
    opened ← open_wallets customer currencies
    rest ← wallets_from customers
    pure (opened ++ rest)

  unfoldable pub generate_wallets : List SeedCustomer → Run ℕ (List SeedWalletRef)
  unfolding active_currencies wallets_from
  generate_wallets customers = elim (active_currencies F M config) [
    | [] ↦ throw (invalid "currencyDistribution has no currency with weight > 0")
    | e ∷ active ↦ wallets_from customers
  ]
