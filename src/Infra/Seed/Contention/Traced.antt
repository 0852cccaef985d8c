-- ===== src/Infra/Seed/Contention/Traced.antt =====
-- The top-ups' rows tell every balance that they change.
use money_across_borders.Base.{
  String, ℤ, pos, leb_ℤ, Option, none, some, List, [], ◌∷◌, ◌++◌, take, refl, if◌then◌else◌,
}
use money_across_borders.Domain.Numbers.{Floats}
use money_across_borders.Infra.Seed.Arithmetic.{Arithmetic}
use money_across_borders.Infra.Seed.Run.{pure}
use money_across_borders.Infra.Seed.Rng.{uuid}
use money_across_borders.Infra.Seed.Types.{
  SeedCustomer, SeedWalletRef, SeedLedgerEntryRow, SeedConfig,
}
use money_across_borders.Infra.Seed.Ledger.{draw, treasury_of, wallets_of}
use money_across_borders.Infra.Seed.Ledger.Traces.{
  Traces, pure-Traces, draw-IsQuiet, read-IsQuiet, if_Traces, after_quiet, in_turn, first,
  next_quiet, TracesAfter-pure,
}
use money_across_borders.Infra.Seed.Ledger.TopUp.{top_up_Traces}
use money_across_borders.Infra.Seed.Contention.{
  ContentionPoolResult, pool_description, top_up_amount, post_top_up, top_up_wallet, top_up_wallets,
  top_up_customers, contention_intents, pool_of, build_contention_pool,
}

module _ (F : Floats) (M : Arithmetic F) (config : SeedConfig F.Float) (now : ℤ) where
  abbrev all : List SeedLedgerEntryRow → List SeedLedgerEntryRow
  all rows = rows

  post_top_up-Traces :
      (treasury_id : String) (w : SeedWalletRef) (n : ℤ)
      → Traces all (post_top_up F M config now treasury_id w n)
  unfolding post_top_up
  post_top_up-Traces treasury_id w n =
      after_quiet all (draw (uuid F M)) _ (draw-IsQuiet (uuid F M)) (λ t.
        after_quiet all (draw (uuid F M)) _ (draw-IsQuiet (uuid F M)) (λ d.
          after_quiet all (draw (uuid F M)) _ (draw-IsQuiet (uuid F M))
            (λ c. top_up_Traces d c treasury_id w n t pool_description now)))

  top_up_wallet-Traces : (w : SeedWalletRef) → Traces all (top_up_wallet F M config now w)
  unfolding top_up_wallet
  top_up_wallet-Traces w = after_quiet all _ _ (read-IsQuiet (treasury_of w.currency)) go
    where
      go :
          (o : Option SeedWalletRef)
          → Traces all (elim o [
            | none ↦ pure []
            | some t ↦
                if leb_ℤ (top_up_amount F M config now t.balance) (pos 0)
                then pure []
                else post_top_up F M config now t.id w (top_up_amount F M config now t.balance)
          ])
      go none = pure-Traces all [] refl
      go (some t) =
          let amount = top_up_amount F M config now t.balance in
          if_Traces all (leb_ℤ amount (pos 0)) _ _ (pure-Traces all [] refl)
            (post_top_up-Traces t.id w amount)

  top_up_wallets-Traces : (ws : List SeedWalletRef) → Traces all (top_up_wallets F M config now ws)
  unfolding top_up_wallets
  top_up_wallets-Traces [] = pure-Traces all [] refl
  top_up_wallets-Traces (w ∷ ws) =
      in_turn all all all (λ es fs. es ++ fs) _ _ (λ es fs. refl) (top_up_wallet-Traces w)
        (top_up_wallets-Traces ws)

  top_up_customers-Traces :
      (cs : List SeedCustomer) → Traces all (top_up_customers F M config now cs)
  unfolding top_up_customers
  top_up_customers-Traces [] = pure-Traces all [] refl
  top_up_customers-Traces (c ∷ cs) =
      after_quiet all _ _ (read-IsQuiet (wallets_of c.account_id)) (λ ws.
        in_turn all all all (λ es fs. es ++ fs) _ _ (λ es fs. refl) (top_up_wallets-Traces ws)
          (top_up_customers-Traces cs))

  abbrev top_ups : ContentionPoolResult → List SeedLedgerEntryRow
  top_ups pool = pool.top_up_ledger_entries

  pub build_contention_pool-Traces :
      (customers : List SeedCustomer)
      → Traces top_ups (build_contention_pool F M config now customers)
  unfolding build_contention_pool
  build_contention_pool-Traces customers =
      let shared = take config.contention_shared_accounts customers in
      first top_ups all _ _ (top_up_customers-Traces shared) (λ entries.
        next_quiet top_ups entries _ _ (read-IsQuiet (λ s. s)) (λ s.
          next_quiet top_ups entries _ _
            (draw-IsQuiet (contention_intents F M config now s shared config.contention_intents))
            (λ intents.
              TracesAfter-pure entries top_ups (pool_of F M config now shared entries intents)
                refl)))
