-- ===== src/Infra/Seed/Funding/Traced.antt =====
-- The funding's entries tell every balance that it changes.
use money_across_borders.Base.{String, ℤ, pos, leb_ℤ, List, [], ◌∷◌, ◌++◌, refl}
use money_across_borders.Domain.Numbers.{Floats}
use money_across_borders.Infra.Seed.Arithmetic.{Arithmetic}
use money_across_borders.Infra.Seed.Rng.{uuid}
use money_across_borders.Infra.Seed.Types.{SeedWalletRef, SeedLedgerEntryRow, SeedConfig}
use money_across_borders.Infra.Seed.Ledger.{top_up_legs}
use money_across_borders.Infra.Seed.Ledger.Traces.{
  Traces, pure-Traces, require_balanced-IsQuiet, draw-IsQuiet, require_treasury-IsQuiet, if_Traces,
  after_quiet, in_turn,
}
use money_across_borders.Infra.Seed.Ledger.TopUp.{top_up_Traces}
use money_across_borders.Infra.Seed.Funding.{
  Groups, group_by_currency, sample_requests, fund_wallet, fund_requests, fund_groups,
  generate_funding, funding_description,
}

module _ (F : Floats) (M : Arithmetic F) (config : SeedConfig F.Float) where
  open F use {Float, of_ℤ, mul}
  open M use {floor}

  abbrev all : List SeedLedgerEntryRow → List SeedLedgerEntryRow
  all rows = rows

  fund_wallet-Traces :
      (treasury_id : String) (w : SeedWalletRef) (n : ℤ)
      → Traces all (fund_wallet F M config treasury_id w n)
  unfolding fund_wallet
  fund_wallet-Traces treasury_id w n = after_quiet all _ _ (draw-IsQuiet (uuid F M)) (λ t.
      after_quiet all _ _ (require_balanced-IsQuiet (top_up_legs treasury_id w n)) (λ u.
        after_quiet all _ _ (draw-IsQuiet (uuid F M)) (λ d.
          after_quiet all _ _ (draw-IsQuiet (uuid F M))
            (λ c. top_up_Traces d c treasury_id w n t funding_description w.created_at))))

  fund_requests-Traces :
      (treasury_id : String) (scale : Float) (requests : List (SeedWalletRef × ℤ))
      → Traces all (fund_requests F M config treasury_id scale requests)
  unfolding fund_requests
  fund_requests-Traces treasury_id scale [] = pure-Traces all [] refl
  fund_requests-Traces treasury_id scale ((w, amount) ∷ requests) =
      let n = floor (mul (of_ℤ amount) scale) in
      in_turn all all all (λ es fs. es ++ fs) _ _ (λ es fs. refl)
        (if_Traces all (leb_ℤ n (pos 0)) _ _ (pure-Traces all [] refl)
          (fund_wallet-Traces treasury_id w n))
        (fund_requests-Traces treasury_id scale requests)

  fund_groups-Traces : (groups : Groups) → Traces all (fund_groups F M config groups)
  unfolding fund_groups
  fund_groups-Traces [] = pure-Traces all [] refl
  fund_groups-Traces ((currency, wallets) ∷ groups) =
      after_quiet all _ _ (require_treasury-IsQuiet currency) (λ treasury.
        after_quiet all _ _ (draw-IsQuiet (sample_requests F M config wallets)) (λ requests.
          in_turn all all all (λ es fs. es ++ fs) _ _ (λ es fs. refl)
            (fund_requests-Traces treasury.id _ requests) (fund_groups-Traces groups)))

  pub generate_funding-Traces : Traces all (generate_funding F M config)
  unfolding generate_funding Traces
  generate_funding-Traces s = fund_groups-Traces (group_by_currency [] s.wallets) s
