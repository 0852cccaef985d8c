-- ===== src/Infra/Seed/Checks/Global.antt =====
-- Balanced postings make balanced books.
use money_across_borders.Base.{
  ℕ, zero, suc, ◌≤◌, String, ℤ, pos, ◌+ℤ◌, Bool, true, false, not, ◌&&◌, List, [], ◌∷◌, length,
  filter, ◌≡◌, refl, sym, ap, ◌∙◌, arith, is_same, if◌then◌else◌, int_laws, +ℤ_zero_left, +ℤ_assoc,
  Bool-cases, inl, inr, eq_of_is_same, is_same_refl,
}
use money_across_borders.Infra.Seed.Types.{SeedLedgerEntryRow}
use money_across_borders.Infra.Seed.Ledger.Posted.{signed_debit, row_net, net, IsBalanced}
use money_across_borders.Infra.Seed.Checks.{row_global, global_net}

-- The entries of the other transactions.
abbrev without : String → List SeedLedgerEntryRow → List SeedLedgerEntryRow
without t es = filter (λ e. not (is_same e.transaction_id t)) es

length-without : (t : String) (es : List SeedLedgerEntryRow) → length (without t es) ≤ length es
length-without t [] = omega arith
length-without t (e ∷ es) = ground (arith, length-without t es)

taken : (x g n w : ℤ) → g ≡ n +ℤ w → x +ℤ g ≡ (x +ℤ n) +ℤ w
taken x g n w h = ap (λ m. x +ℤ m) h ∙ sym (+ℤ_assoc x n w)

moved : (x n w : ℤ) → x +ℤ (n +ℤ w) ≡ (pos 0 +ℤ n) +ℤ (x +ℤ w)
moved x n w = omega int_laws

left : (x g n w : ℤ) → g ≡ n +ℤ w → x +ℤ g ≡ (pos 0 +ℤ n) +ℤ (x +ℤ w)
left x g n w h = ap (λ m. x +ℤ m) h ∙ moved x n w

-- A currency nets to what one transaction nets to and the others.
global_net_split :
    (t c : String) (es : List SeedLedgerEntryRow)
    → global_net c es ≡ net t c es +ℤ global_net c (without t es)
unfolding global_net net
global_net_split t c [] = sym (+ℤ_zero_left (pos 0))
global_net_split t c (e ∷ es) = go (is_same e.transaction_id t) (global_net_split t c es)
  where
    go :
        (b : Bool)
        → global_net c es ≡ net t c es +ℤ global_net c (without t es)
        → row_global c e +ℤ global_net c es
          ≡ ((if b && is_same e.currency c then signed_debit e else pos 0) +ℤ net t c es)
            +ℤ global_net c (if not b then e ∷ without t es else without t es)
    go true ih = taken (row_global c e) (global_net c es) (net t c es) _ ih
    go false ih = left (row_global c e) (global_net c es) (net t c es) _ ih

-- Nothing of the transaction is left, and all of the others.
net-without_self : (t c : String) (es : List SeedLedgerEntryRow) → net t c (without t es) ≡ pos 0
unfolding net
net-without_self t c [] = refl
net-without_self t c (e ∷ es) = go (is_same e.transaction_id t) refl (net-without_self t c es)
  where
    go :
        (b : Bool)
        → is_same e.transaction_id t ≡ b
        → net t c (without t es) ≡ pos 0
        → net t c (if not b then e ∷ without t es else without t es) ≡ pos 0
    go true h ih = ih
    go false h ih = rw (h, ih) (+ℤ_zero_left (pos 0))

net-without_other :
    (t u c : String) (es : List SeedLedgerEntryRow)
    → is_same t u ≡ false
    → net u c (without t es) ≡ net u c es
unfolding net
net-without_other t u c [] h = refl
net-without_other t u c (e ∷ es) h =
    go (is_same e.transaction_id t) refl (net-without_other t u c es h)
  where
    go :
        (b : Bool)
        → is_same e.transaction_id t ≡ b
        → net u c (without t es) ≡ net u c es
        → net u c (if not b then e ∷ without t es else without t es) ≡ row_net u c e +ℤ net u c es
    go true k ih = rw (eq_of_is_same e.transaction_id t k, h) (ih ∙ sym (+ℤ_zero_left (net u c es)))
    go false k ih = ap (λ n. row_net u c e +ℤ n) ih

without-IsBalanced :
    (t : String) (es : List SeedLedgerEntryRow) → IsBalanced es → IsBalanced (without t es)
unfolding IsBalanced
without-IsBalanced t es h u c = elim (Bool-cases (is_same t u)) [
  | inl same ↦ rw (eq_of_is_same t u same) (net-without_self u c es)
  | inr other ↦ net-without_other t u c es other ∙ h u c
]

balanced_from :
    (n : ℕ) (c : String) (es : List SeedLedgerEntryRow)
    → length es ≤ n
    → IsBalanced es
    → global_net c es ≡ pos 0
unfolding global_net IsBalanced
balanced_from zero c [] l h = refl
balanced_from zero c (e ∷ es) l h = absurd (omega (arith, l))
balanced_from (suc n) c [] l h = refl
balanced_from (suc n) c (e ∷ es) l h =
    let t = e.transaction_id in
    let others = without t es in
    let removed : without t (e ∷ es) ≡ others = rw (is_same_refl t) refl in
    let rest =
      balanced_from n c others (omega (arith, l, length-without t es))
        (rw removed at (without-IsBalanced t (e ∷ es) h)) in
    global_net_split t c (e ∷ es)
    ∙ ap (λ n. n +ℤ global_net c (without t (e ∷ es))) (h t c)
    ∙ +ℤ_zero_left (global_net c (without t (e ∷ es)))
    ∙ ap (global_net c) removed
    ∙ rest

-- Where the entries of every transaction net to zero in every currency code, all entries do.
pub global_net-IsBalanced :
    (c : String) (es : List SeedLedgerEntryRow) → IsBalanced es → global_net c es ≡ pos 0
global_net-IsBalanced c es h = balanced_from (length es) c es (omega arith) h
