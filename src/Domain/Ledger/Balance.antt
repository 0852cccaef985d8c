-- ===== src/Domain/Ledger/Balance.antt =====
-- The check of a posting against the sums that it stands for: debits less credits, currency by
-- currency.
use money_across_borders.Base.{
  String, ℤ, pos, ◌+ℤ◌, ◌-ℤ◌, is_zero, Bool, true, false, ◌∙◌, List, [], ◌∷◌, ◌≡◌, refl, ◌≢◌,
  is_same, if◌then◌else◌, arith, int_laws, Bool-cases, inl, inr, ◌⊎◌,
}
use money_across_borders.Domain.Errors.{ok, err, unbalanced_ledger}
use money_across_borders.Domain.Statuses.{is_debit}
use money_across_borders.Domain.Ledger.{
  LedgerLegDraft, Nets, get_net, set_net, signed, add_legs, refuse_nonzero,
  assert_balanced_per_currency,
}

-- What one leg adds to the net of a currency code.
unfoldable pub leg_net : String → LedgerLegDraft → ℤ
unfolding is_debit
leg_net k leg =
    if is_same leg.money.currency.code k
    then (if is_debit leg.direction
        then leg.money.amount_minor_units
        else pos 0 -ℤ leg.money.amount_minor_units)
    else pos 0

-- Debits less credits of a currency code, over all legs.
unfoldable pub net : String → List LedgerLegDraft → ℤ
net k [] = pos 0
net k (leg ∷ legs) = leg_net k leg +ℤ net k legs

get_net-set_net :
    (k j : String) (n : ℤ) (m : Nets)
    → get_net k (set_net j n m) ≡ (if is_same j k then n else get_net k m)
get_net-set_net k j n [] = refl
get_net-set_net k j n (e ∷ m) = ground (arith, get_net-set_net k j n m)

get_net-add_legs :
    (k : String) (m : Nets) (legs : List LedgerLegDraft)
    → get_net k (add_legs m legs) ≡ get_net k m +ℤ net k legs
unfolding add_legs net leg_net signed
get_net-add_legs k m [] = omega int_laws
get_net-add_legs k m (leg ∷ legs) =
    let code = leg.money.currency.code in
    let n = get_net code m +ℤ signed leg in
    grind (int_laws, get_net-add_legs k (set_net code n m) legs, get_net-set_net k code n m)

-- Each code stands at most once in the map.
abbrev has : String → Nets → Bool
has k [] = false
has k ((j, n) ∷ m) = if is_same j k then true else has k m

abbrev IsDistinct : Nets → Type 0
IsDistinct [] = Unit
IsDistinct ((j, n) ∷ m) = (has j m ≡ false) × IsDistinct m

has-set_net :
    (k j : String) (n : ℤ) (m : Nets)
    → has k (set_net j n m) ≡ (if is_same j k then true else has k m)
has-set_net k j n [] = refl
has-set_net k j n (e ∷ m) = ground (arith, has-set_net k j n m)

set_net-IsDistinct : (j : String) (n : ℤ) (m : Nets) → IsDistinct m → IsDistinct (set_net j n m)
set_net-IsDistinct j n [] d = (refl, tt)
set_net-IsDistinct j n (e ∷ m) d =
    ground (arith, set_net-IsDistinct j n m d.1, has-set_net e.0 j n m)

add_legs-IsDistinct :
    (m : Nets) (legs : List LedgerLegDraft) → IsDistinct m → IsDistinct (add_legs m legs)
unfolding add_legs
add_legs-IsDistinct m [] d = d
add_legs-IsDistinct m (leg ∷ legs) d =
    let code = leg.money.currency.code in
    let n = get_net code m +ℤ signed leg in
    add_legs-IsDistinct (set_net code n m) legs (set_net-IsDistinct code n m d)

get_net_absent : (k : String) (m : Nets) → has k m ≡ false → get_net k m ≡ pos 0
get_net_absent k [] h = refl
get_net_absent k (e ∷ m) h = ground (arith, get_net_absent k m)

-- The verdict of the check on a map: every entry is zero, or the first that is not is reported.
refuse_nonzero_verdict :
    (m : Nets)
    → IsDistinct m
    → ((refuse_nonzero m ≡ ok tt) × ((k : String) → get_net k m ≡ pos 0))
      ⊎ ((k : String) × (refuse_nonzero m ≡ err (unbalanced_ledger k (get_net k m)))
          × (get_net k m ≢ pos 0))
unfolding refuse_nonzero
refuse_nonzero_verdict [] d = inl (refl, λ k. refl)
refuse_nonzero_verdict ((j, n) ∷ m) d = elim (Bool-cases (is_zero n)) [
  | inr bad ↦ inr (j, ground arith, ground arith)
  | inl good ↦ elim (refuse_nonzero_verdict m d.1) [
    | inl (e, all) ↦ inl (ground arith, λ k. ground (arith, all k))
    | inr (k, e, ne) ↦
        inr (k, ground (arith, get_net_absent j m), ground (arith, get_net_absent j m))
  ]
]

zero-+ℤ : (n : ℤ) → pos 0 +ℤ n ≡ n
zero-+ℤ n = omega int_laws

-- The check of the ledger service passes, and then every currency code nets to zero over the
-- legs, or it throws the unbalanced-ledger error for some code with the net of that code over
-- the legs, which is not zero.
pub assert_balanced_per_currency_verdict :
    (legs : List LedgerLegDraft)
    → ((assert_balanced_per_currency legs ≡ ok tt) × ((k : String) → net k legs ≡ pos 0))
      ⊎ ((k : String) × (assert_balanced_per_currency legs ≡ err (unbalanced_ledger k (net k legs)))
          × (net k legs ≢ pos 0))
unfolding assert_balanced_per_currency
assert_balanced_per_currency_verdict legs =
    elim (refuse_nonzero_verdict (add_legs [] legs) (add_legs-IsDistinct [] legs tt)) [
      | inl (e, all) ↦
          inl (e, λ k. ground (arith, all k, get_net-add_legs k [] legs, zero-+ℤ (net k legs)))
      | inr (k, e, ne) ↦
          let eq = get_net-add_legs k [] legs ∙ zero-+ℤ (net k legs) in
          inr (k, rw eq at e, rw eq at ne)
    ]

-- Legs that net to zero in every currency code pass.
pub balanced_passes :
    (legs : List LedgerLegDraft)
    → ((k : String) → net k legs ≡ pos 0)
    → assert_balanced_per_currency legs ≡ ok tt
balanced_passes legs h = elim (assert_balanced_per_currency_verdict legs) [
  | inl (e, _) ↦ e
  | inr (k, _, ne) ↦ absurd (ne (h k))
]
