-- ===== src/Infra/Seed/Completed/Built.antt =====
-- Building a completed remittance, whether it ends with one or with none.
use money_across_borders.Base.{
  ℕ, String, ℤ, pos, ◌-ℤ◌, ltb_ℤ, Bool, true, false, Option, none, some, List, [], is_same, ◌≡◌,
  refl, if◌then◌else◌,
}
use money_across_borders.Domain.Numbers.{Floats, integer}
use money_across_borders.Domain.Currency.{Currency}
use money_across_borders.Domain.Currency
use money_across_borders.Domain.Money
use money_across_borders.Infra.Pricing.{calculate}
use money_across_borders.Infra.FxRates.{get_rate}
use money_across_borders.Infra.Seed.Arithmetic.{Arithmetic}
use money_across_borders.Infra.Seed.Run.{Run, ◌>>◌, pure}
use money_across_borders.Infra.Seed.Rng.{uuid, range}
use money_across_borders.Infra.Seed.Dates.{random_timestamp_between}
use money_across_borders.Infra.Seed.Types.{
  SeedCustomer, SeedWalletRef, SeedLedgerEntryRow, SeedConfig, Seed,
}
use money_across_borders.Infra.Seed.Ledger.{draw}
use money_across_borders.Infra.Seed.Ledger.Traces.{
  Traces, pure-Traces, lift-IsQuiet, draw-IsQuiet, draw-Knows, require_balanced-IsQuiet,
  require_treasury-IsQuiet, after_quiet, if_Traces, after_known, then_pure, Knows, pure-Knows,
  quiet_then_Knows,
}
use money_across_borders.Infra.Seed.Wallets.{max_ℤ}
use money_across_borders.Infra.Seed.Drafts.{to_ledger_rows}
use money_across_borders.Infra.Seed.Completed.{
  cross_settlement, sampled_amount, jittered_rate, scale_to_treasury, Settlement, BuiltRemittance,
  in_same_currency, apply_balances, completed_row, post_remittance, settle_cross_currency,
  settle_remittance, charge_remittance, build_completed_remittance,
}
use money_across_borders.Infra.Seed.Completed.Legs.{IsPosting, to_ledger_rows-IsPosting}
use money_across_borders.Infra.Seed.Completed.Traced.{
  IsApplied, same_currency-IsApplied, cross_currency-IsApplied,
}

-- The ledger rows that come with a remittance, if there is one.
abbrev pub rows_of : {Float : Type 0} → Option (BuiltRemittance Float) → List SeedLedgerEntryRow
rows_of none = []
rows_of (some b) = b.leg_rows

module _ (F : Floats) (M : Arithmetic F) (config : SeedConfig F.Float) (at : ℕ) (now : ℤ)
    (sender : SeedCustomer) (source : SeedWalletRef) (recipient : SeedCustomer)
    (destination : SeedWalletRef) where
  open F use {Float, of_ℤ}

  abbrev finish :
      SeedWalletRef
      → ℤ
      → Settlement Float
      → ℤ
      → String
      → List SeedLedgerEntryRow
      → Run Seed (Option (BuiltRemittance Float))
  finish treasury_source fee t created_at id rows =
      apply_balances F M config at now source destination treasury_source fee t
      >> pure (
          some (record {
            remittance_row =
                completed_row F M config at now sender source recipient destination fee t id
                  created_at;
            leg_rows = rows;
          }))

  post_remittance-Traces :
      (treasury_source : SeedWalletRef) (fee : ℤ) (t : Settlement Float)
      → IsApplied F M config at now source destination treasury_source fee t
      → Traces rows_of (
          post_remittance F M config at now sender source recipient destination treasury_source fee
            t)
  unfolding post_remittance IsApplied
  post_remittance-Traces treasury_source fee t applied =
      after_quiet rows_of _ _ (require_balanced-IsQuiet t.legs) (λ u.
        after_quiet rows_of _ _
          (draw-IsQuiet
            (random_timestamp_between F M (max_ℤ source.created_at destination.created_at) now))
          (λ created_at. after_quiet rows_of (draw (uuid F M)) _ (draw-IsQuiet (uuid F M)) (λ id.
            let all_rows = to_ledger_rows F M t.legs id created_at 0 t.legs in
            after_known (IsPosting id t.legs) rows_of (draw all_rows)
              (finish treasury_source fee t created_at id)
              (draw-Knows (IsPosting id t.legs) all_rows
                (to_ledger_rows-IsPosting F M t.legs id created_at 0 t.legs))
              (λ rows p. then_pure (λ u. rows) rows_of _ _ (λ u. refl) (applied id rows p)))))

  -- A settlement that the code makes, if it makes one.
  abbrev IsSettled : SeedWalletRef → ℤ → Option (Settlement Float) → Type 0
  IsSettled treasury_source fee none = Unit
  IsSettled treasury_source fee (some t) =
      IsApplied F M config at now source destination treasury_source fee t

  cross_settlement-IsSettled :
      (treasury_source treasury_destination : SeedWalletRef) (fee : ℤ) (rate : Float)
      (o : Option (ℤ × ℤ))
      → is_same source.currency destination.currency ≡ false
      → IsSettled treasury_source fee (
          cross_settlement F M config at now source destination treasury_source treasury_destination
            fee rate o)
  cross_settlement-IsSettled treasury_source treasury_destination fee rate none different = tt
  cross_settlement-IsSettled treasury_source treasury_destination fee rate (some r) different =
      cross_currency-IsApplied F M config at now source destination treasury_source fee
        treasury_destination r.0 r.1 rate different

  settle_cross_currency-Knows :
      (treasury_source : SeedWalletRef) (source_currency : Currency) (amount fee : ℤ)
      → is_same source.currency destination.currency ≡ false
      → Knows (IsSettled treasury_source fee) (
          settle_cross_currency F M config at now source destination treasury_source source_currency
            amount fee)
  unfolding settle_cross_currency
  settle_cross_currency-Knows treasury_source source_currency amount fee different =
      let P = IsSettled treasury_source fee in
      quiet_then_Knows P _ _ (require_treasury-IsQuiet destination.currency) (λ treasury.
        quiet_then_Knows P _ _ (lift-IsQuiet (Currency.from destination.currency)) (λ currency.
          quiet_then_Knows P _ _ (lift-IsQuiet (get_rate F at source_currency currency)) (λ quote.
            quiet_then_Knows P _ _
              (draw-IsQuiet (range F M (M.sub (of_ℤ (pos 0)) config.fx_jitter) config.fx_jitter))
              (λ jitter.
                let rate = jittered_rate F M config at now quote.rate jitter in
                let amounts =
                  scale_to_treasury F M config at now treasury.balance rate
                    (pos currency.minor_unit_exponent -ℤ pos source_currency.minor_unit_exponent)
                    amount in
                pure-Knows P
                  (cross_settlement F M config at now source destination treasury_source treasury
                    fee rate amounts)
                  (cross_settlement-IsSettled treasury_source treasury fee rate amounts
                    different)))))

  settle_remittance-Traces :
      (source_currency : Currency) (amount fee : ℤ)
      → Traces rows_of (
          settle_remittance F M config at now sender source recipient destination source_currency
            amount fee)
  unfolding settle_remittance
  settle_remittance-Traces source_currency amount fee =
      after_quiet rows_of _ _ (require_treasury-IsQuiet source.currency) (λ treasury_source.
        after_known (IsSettled treasury_source fee) rows_of _ _
          (settlement treasury_source (is_same source.currency destination.currency) refl)
          (finished treasury_source))
    where
      settlement :
          (treasury_source : SeedWalletRef) (b : Bool)
          → is_same source.currency destination.currency ≡ b
          → Knows (IsSettled treasury_source fee) (
              if b
              then pure (
                  some (
                    in_same_currency F M config at now source destination treasury_source amount
                      fee))
              else settle_cross_currency F M config at now source destination treasury_source
                  source_currency amount fee)
      settlement treasury_source true e = pure-Knows (IsSettled treasury_source fee) _ (
          same_currency-IsApplied F M config at now source destination treasury_source fee amount e)
      settlement treasury_source false e =
          settle_cross_currency-Knows treasury_source source_currency amount fee e

      finished :
          (treasury_source : SeedWalletRef) (o : Option (Settlement Float))
          → IsSettled treasury_source fee o
          → Traces (rows_of {Float = Float}) (elim o [
            | none ↦ pure none
            | some t ↦
                post_remittance F M config at now sender source recipient destination
                  treasury_source fee t
          ])
      finished treasury_source none h = pure-Traces rows_of none refl
      finished treasury_source (some t) h = post_remittance-Traces treasury_source fee t h

  charge_remittance-Traces :
      (amount : ℤ)
      → Traces rows_of
          (charge_remittance F M config at now sender source recipient destination amount)
  unfolding charge_remittance
  charge_remittance-Traces amount =
      after_quiet rows_of _ _ (lift-IsQuiet (Currency.from source.currency)) (λ currency.
        after_quiet rows_of _ _ (lift-IsQuiet (Money.from_minor_units (integer amount) currency))
          (λ money.
            if_Traces rows_of _ _ _ (pure-Traces rows_of none refl)
              (settle_remittance-Traces currency amount (calculate F money).amount_minor_units)))

  pub build_completed_remittance-Traces :
      Traces rows_of
        (build_completed_remittance F M config at now sender source recipient destination)
  unfolding build_completed_remittance
  build_completed_remittance-Traces =
      after_quiet rows_of _ _ (draw-IsQuiet (range F M (F.decimal 1 2) (F.decimal 35 2))) (λ share.
        let amount = sampled_amount F M config at now sender.kyc_verified source.balance share in
        if_Traces rows_of (ltb_ℤ amount (pos 100)) _ _ (pure-Traces rows_of none refl)
          (charge_remittance-Traces amount))
