-- ===== src/Infra/Seed/Completed/Sums.antt =====
-- The legs of a completed remittance: what they give each wallet, and that they balance.
use money_across_borders.Base.{
  String, ℤ, pos, ◌+ℤ◌, ◌-ℤ◌, ◌&&◌, Bool, true, false, is_same, if◌then◌else◌, ◌≡◌, refl, ap, ◌∙◌,
  int_laws,
}
use money_across_borders.Infra.Seed.Types.{SeedWalletRef}
use money_across_borders.Infra.Seed.Ledger.Moves.{gain}
use money_across_borders.Infra.Seed.Drafts.{same_currency_drafts, cross_currency_drafts}
use money_across_borders.Infra.Seed.Completed.Legs.{legs_credit, legs_net}

cancel :
    (b : Bool) (a n : ℤ) → (if b then a else pos 0) +ℤ ((if b then pos 0 -ℤ a else pos 0) +ℤ n) ≡ n
cancel true a n = omega int_laws
cancel false a n = omega int_laws

split :
    (b : Bool) (x y : ℤ)
    → (if b then pos 0 -ℤ (x +ℤ y) else pos 0)
      ≡ (if b then pos 0 -ℤ x else pos 0) +ℤ (if b then pos 0 -ℤ y else pos 0)
split true x y = omega int_laws
split false x y = omega int_laws

split_gain :
    (b : Bool) (x y : ℤ)
    → (if b then x +ℤ y else pos 0) ≡ (if b then x else pos 0) +ℤ (if b then y else pos 0)
split_gain true x y = refl
split_gain false x y = omega int_laws

same_total : (p q r t : ℤ) → (p +ℤ q) +ℤ r +ℤ t ≡ p +ℤ (r +ℤ (q +ℤ (t +ℤ pos 0)))
same_total p q r t = omega int_laws

cross_total :
    (p q r t u v : ℤ)
    → ((p +ℤ q) +ℤ v) +ℤ (r +ℤ t) +ℤ u ≡ p +ℤ (r +ℤ (q +ℤ (t +ℤ (u +ℤ (v +ℤ pos 0)))))
cross_total p q r t u v = omega int_laws

module _ (source destination treasury : SeedWalletRef) (amount fee : ℤ) where
  pub same_currency-credits :
      (id : String)
      → gain source.id (pos 0 -ℤ (amount +ℤ fee)) id
          +ℤ gain destination.id amount id
          +ℤ gain treasury.id fee id
        ≡ legs_credit id (same_currency_drafts source destination treasury amount fee)
  unfolding same_currency_drafts
  same_currency-credits id =
      let d = gain destination.id amount id in
      let t = gain treasury.id fee id in
      ap (λ n. n +ℤ d +ℤ t) (split (is_same id source.id) amount fee)
      ∙ same_total (gain source.id (pos 0 -ℤ amount) id) (gain source.id (pos 0 -ℤ fee) id) d t

  pub same_currency-nets :
      (b : Bool) (c : String)
      → legs_net b c (same_currency_drafts source destination treasury amount fee) ≡ pos 0
  unfolding same_currency_drafts
  same_currency-nets b c =
      let k = b && is_same source.currency c in cancel k amount _ ∙ cancel k fee _

module _ (source destination treasury_source treasury_destination : SeedWalletRef)
    (amount fee converted : ℤ) where
  pub cross_currency-credits :
      (id : String)
      → gain source.id (pos 0 -ℤ (amount +ℤ fee)) id
          +ℤ gain destination.id converted id
          +ℤ gain treasury_source.id (amount +ℤ fee) id
          +ℤ gain treasury_destination.id (pos 0 -ℤ converted) id
        ≡ legs_credit id (
            cross_currency_drafts source destination treasury_source treasury_destination amount fee
              converted)
  unfolding cross_currency_drafts
  cross_currency-credits id =
      let d = gain destination.id converted id in
      let u = gain treasury_destination.id (pos 0 -ℤ converted) id in
      let paid = gain treasury_source.id (amount +ℤ fee) id in
      ap (λ n. n +ℤ d +ℤ paid +ℤ u) (split (is_same id source.id) amount fee)
      ∙ ap
          (λ n.
            gain source.id (pos 0 -ℤ amount) id +ℤ gain source.id (pos 0 -ℤ fee) id +ℤ d +ℤ n +ℤ u)
          (split_gain (is_same id treasury_source.id) amount fee)
      ∙ cross_total (gain source.id (pos 0 -ℤ amount) id) (gain source.id (pos 0 -ℤ fee) id)
          (gain treasury_source.id amount id) (gain treasury_source.id fee id) u d

  pub cross_currency-nets :
      (b : Bool) (c : String)
      → legs_net b c (
          cross_currency_drafts source destination treasury_source treasury_destination amount fee
            converted)
        ≡ pos 0
  unfolding cross_currency_drafts
  cross_currency-nets b c =
      let k = b && is_same source.currency c in
      cancel k amount _ ∙ cancel k fee _ ∙ cancel (b && is_same destination.currency c) converted _
