-- ===== src/Infra/Seed/Completed/Traced.antt =====
-- The rows of a completed remittance tell every balance that it changes.
use money_across_borders.Base.{
  ℕ, String, ℤ, pos, ◌+ℤ◌, ◌-ℤ◌, Bool, true, false, List, is_same, ◌≡◌, refl, ap, sym, ◌∙◌,
  if◌then◌else◌,
}
use money_across_borders.Domain.Numbers.{Floats}
use money_across_borders.Infra.Seed.Arithmetic.{Arithmetic}
use money_across_borders.Infra.Seed.Types.{SeedWalletRef, SeedLedgerEntryRow, SeedConfig, Seed}
use money_across_borders.Infra.Seed.Ledger.{debit, credit}
use money_across_borders.Infra.Seed.Ledger.Posted.{IsBalanced}
use money_across_borders.Infra.Seed.Ledger.Moves.{
  gain, Moves, credited_state, credit_Moves, Moves-then, Moves-Posts,
}
use money_across_borders.Infra.Seed.Ledger.Traces.{Ends, Traces}
use money_across_borders.Infra.Seed.Completed.{
  Settlement, in_same_currency, in_cross_currency, apply_balances,
}
use money_across_borders.Infra.Seed.Completed.Legs.{IsPosting, legs_net}
use money_across_borders.Infra.Seed.Completed.Sums.{
  same_currency-credits, same_currency-nets, cross_currency-credits, cross_currency-nets,
}

module _ (F : Floats) (M : Arithmetic F) (config : SeedConfig F.Float) (at : ℕ) (now : ℤ)
    (source destination treasury_source : SeedWalletRef) (fee : ℤ) where
  open F use {Float, of_ℤ}

  -- The balances move as rows that post the legs say.
  unfoldable pub IsApplied : Settlement Float → Type 0
  unfolding Traces
  IsApplied t =
      (transaction_id : String) (rows : List SeedLedgerEntryRow)
      → IsPosting transaction_id t.legs rows
      → Traces (λ u. rows)
          (apply_balances F M config at now source destination treasury_source fee t)

  posting-IsBalanced :
      (t : Settlement Float) (transaction_id : String) (rows : List SeedLedgerEntryRow)
      → ((b : Bool) (c : String) → legs_net b c t.legs ≡ pos 0)
      → IsPosting transaction_id t.legs rows
      → IsBalanced rows
  unfolding IsBalanced
  posting-IsBalanced t transaction_id rows h p x c = p.nets x c ∙ h (is_same transaction_id x) c

  -- What the treasury's wallet of the source currency is paid.
  abbrev paid : ℤ → ℤ
  paid amount = if is_same source.currency destination.currency then fee else amount +ℤ fee

  paid_same : (amount : ℤ) (b : Bool) → b ≡ true → (if b then fee else amount +ℤ fee) ≡ fee
  paid_same amount b h = rw h refl

  paid_cross :
      (amount : ℤ) (b : Bool) → b ≡ false → (if b then fee else amount +ℤ fee) ≡ amount +ℤ fee
  paid_cross amount b h = rw h refl

  three_Moves :
      (amount converted n : ℤ) (s : Seed)
      → Moves s
          (λ j.
            gain source.id (pos 0 -ℤ (amount +ℤ fee)) j
            +ℤ gain destination.id converted j
            +ℤ gain treasury_source.id n j)
          (credited_state treasury_source.id n (
            credited_state destination.id converted
              (credited_state source.id (pos 0 -ℤ (amount +ℤ fee)) s)))
  three_Moves amount converted n s =
      let s1 = credited_state source.id (pos 0 -ℤ (amount +ℤ fee)) s in
      let s2 = credited_state destination.id converted s1 in
      let s3 = credited_state treasury_source.id n s2 in
      let d1 = gain source.id (pos 0 -ℤ (amount +ℤ fee)) in
      let d2 = gain destination.id converted in
      Moves-then s s2 s3 (λ j. d1 j +ℤ d2 j) (gain treasury_source.id n)
        (Moves-then s s1 s2 d1 d2 (credit_Moves source.id (pos 0 -ℤ (amount +ℤ fee)) s)
          (credit_Moves destination.id converted s1))
        (credit_Moves treasury_source.id n s2)

  pub same_currency-IsApplied :
      (amount : ℤ)
      → is_same source.currency destination.currency ≡ true
      → IsApplied (in_same_currency F M config at now source destination treasury_source amount fee)
  unfolding IsApplied Traces Ends apply_balances credit debit
  same_currency-IsApplied amount same transaction_id rows p s =
      Moves-Posts s _ _ rows (three_Moves amount amount (paid amount) s)
        (λ id.
          ap
            (λ n.
              gain source.id (pos 0 -ℤ (amount +ℤ fee)) id
              +ℤ gain destination.id amount id
              +ℤ gain treasury_source.id n id)
            (paid_same amount _ same)
          ∙ same_currency-credits source destination treasury_source amount fee id
          ∙ sym (p.credits id))
        (posting-IsBalanced
          (in_same_currency F M config at now source destination treasury_source amount fee)
          transaction_id rows (same_currency-nets source destination treasury_source amount fee) p)

  pub cross_currency-IsApplied :
      (treasury_destination : SeedWalletRef) (amount converted : ℤ) (rate : Float)
      → is_same source.currency destination.currency ≡ false
      → IsApplied (
          in_cross_currency F M config at now source destination treasury_source
            treasury_destination fee amount converted rate)
  unfolding IsApplied Traces Ends apply_balances credit debit
  cross_currency-IsApplied treasury_destination amount converted rate different transaction_id rows
        p s =
      let d = λ (j : String).
        gain source.id (pos 0 -ℤ (amount +ℤ fee)) j
        +ℤ gain destination.id converted j
        +ℤ gain treasury_source.id (paid amount) j in
      let last = gain treasury_destination.id (pos 0 -ℤ converted) in
      Moves-Posts s _ (λ j. d j +ℤ last j) rows
        (Moves-then s _ _ d last (three_Moves amount converted (paid amount) s)
          (credit_Moves treasury_destination.id (pos 0 -ℤ converted) _))
        (λ id.
          ap
            (λ n.
              gain source.id (pos 0 -ℤ (amount +ℤ fee)) id
              +ℤ gain destination.id converted id
              +ℤ gain treasury_source.id n id
              +ℤ last id)
            (paid_cross amount _ different)
          ∙ cross_currency-credits source destination treasury_source treasury_destination amount
              fee converted id
          ∙ sym (p.credits id))
        (posting-IsBalanced
          (in_cross_currency F M config at now source destination treasury_source
            treasury_destination fee amount converted rate)
          transaction_id rows
          (cross_currency-nets source destination treasury_source treasury_destination amount fee
            converted)
          p)
