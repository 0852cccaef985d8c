-- ===== src/Infra/Seed/Checks/Passed.antt =====
-- The checks pass on tables that a balanced dataset was written to.
use money_across_borders.Base.{
  String, ℤ, pos, is_zero, Bool, true, false, ◌||◌, List, [], ◌∷◌, ◌++◌, map, filter, All, ◌≡◌,
  refl, sym, ap, ◌∙◌, arith, is_same, eq_of_is_same, Bool-cases, inl, inr,
}
use money_across_borders.Application.SendRemittance.{treasury_account_id}
use money_across_borders.Infra.Seed.Types.{SeedWalletRef, SeedLedgerEntryRow}
use money_across_borders.Infra.Seed.Ledger.Posted.{
  credited, net, IsBalanced, post, map-compose, map-identity,
}
use money_across_borders.Infra.Seed.Dataset.{clone_treasury, set_treasury}
use money_across_borders.Infra.Seed.Database.{SeedWalletRow, Tables}
use money_across_borders.Infra.Seed.Database.Writer.{to_wallet_row, set_balance}
use money_across_borders.Infra.Seed.Database.Written.{set_balances}
use money_across_borders.Infra.Seed.Database.Setup.{to_wallet_ref}
use money_across_borders.Infra.Seed.Checks.{
  every, is_equal, global_net, debits_equal_credits, every_posting_balances,
}
use money_across_borders.Infra.Seed.Checks.Rows.{
  every_if_all, every-All, All-append, All-filter, All-map, All-agree, Distinct, Distinct-map,
  apart,
}
use money_across_borders.Infra.Seed.Checks.Global.{global_net-IsBalanced}

zero_of_eq : (a : ℤ) → a ≡ pos 0 → is_zero a ≡ true
zero_of_eq a h = rw h refl

is_equal_of_eq : (a b : ℤ) → a ≡ b → is_equal a b ≡ true
is_equal_of_eq a b h = ground arith

module _ {Float : Type 0} (t : Tables Float) (balanced : IsBalanced t.ledger_entries) where
  pub debits_equal_credits_passed : debits_equal_credits t ≡ true
  unfolding debits_equal_credits
  debits_equal_credits_passed =
      every_if_all (λ e. is_zero (global_net e.currency t.ledger_entries))
        (λ e. zero_of_eq _ (global_net-IsBalanced e.currency t.ledger_entries balanced))
        t.ledger_entries

  pub every_posting_balances_passed : every_posting_balances t ≡ true
  unfolding every_posting_balances IsBalanced
  every_posting_balances_passed =
      every_if_all (λ e. is_zero (net e.transaction_id e.currency t.ledger_entries))
        (λ e. zero_of_eq _ (balanced e.transaction_id e.currency)) t.ledger_entries

-- The updates of the treasury, as one row sees them.
abbrev updated : List SeedWalletRef → SeedWalletRow → SeedWalletRow
updated [] row = row
updated (w ∷ ws) row = updated ws (set_balance w row)

set_balances_lem :
    (ws : List SeedWalletRef) (rows : List SeedWalletRow)
    → set_balances ws rows ≡ map (updated ws) rows
set_balances_lem [] rows = sym (map-identity (λ r. r) (λ r. refl) rows)
set_balances_lem (w ∷ ws) rows =
    set_balances_lem ws (map (set_balance w) rows)
    ∙ map-compose (set_balance w) (updated ws) (updated (w ∷ ws)) (λ r. refl) rows

updated_account :
    (ws : List SeedWalletRef) (row : SeedWalletRow) → (updated ws row).account_id ≡ row.account_id
updated_account [] row = refl
updated_account (w ∷ ws) row = updated_account ws (set_balance w row)

updated_id : (ws : List SeedWalletRef) (row : SeedWalletRow) → (updated ws row).id ≡ row.id
updated_id [] row = refl
updated_id (w ∷ ws) row = updated_id ws (set_balance w row)

-- A row whose id no wallet of the treasury has is left.
updated_other :
    (ws : List SeedWalletRef) (row : SeedWalletRow)
    → All (λ w. ¬ (w.id ≡ row.id)) ws
    → updated ws row ≡ row
updated_other [] row h = refl
updated_other (w ∷ ws) row h = elim (Bool-cases (is_same row.id w.id)) [
  | inl same ↦ absurd (h.0 (sym (eq_of_is_same row.id w.id same)))
  | inr other ↦ rw other (updated_other ws row h.1)
]

set_treasury-All :
    (P : SeedWalletRef → Type 0) (w : SeedWalletRef) (m : List SeedWalletRef)
    → P w
    → All P m
    → All P (set_treasury w m)
set_treasury-All P w [] h k = (h, tt)
set_treasury-All P w (v ∷ m) h k = ground (arith, set_treasury-All P w m h k.1)

clone_treasury-All :
    (P : SeedWalletRef → Type 0) (m ws : List SeedWalletRef)
    → All P m
    → All P ws
    → All P (clone_treasury m ws)
unfolding clone_treasury
clone_treasury-All P m [] h k = h
clone_treasury-All P m (w ∷ ws) h k =
    clone_treasury-All P (set_treasury w m) ws (set_treasury-All P w m k.0 h) k.1

abbrev pub matches : List SeedLedgerEntryRow → SeedWalletRow → Bool
matches es w =
    is_same w.account_id treasury_account_id || is_equal w.balance_minor_units (credited w.id es)

abbrev pub IsTreasury : SeedWalletRow → Type 0
IsTreasury w = is_same w.account_id treasury_account_id ≡ true

treasury_matches :
    (es : List SeedLedgerEntryRow) (ws : List SeedWalletRef) (row : SeedWalletRow)
    → IsTreasury row
    → matches es (updated ws row) ≡ true
treasury_matches es ws row h = rw (updated_account ws row, h) refl

or_true : (b c : Bool) → c ≡ true → (b || c) ≡ true
or_true true c h = refl
or_true false c h = h

abbrev pub IsBackedBy : List SeedLedgerEntryRow → SeedWalletRef → Type 0
IsBackedBy es w = w.balance ≡ credited w.id es

customers_match :
    (es : List SeedLedgerEntryRow) (treasury : List SeedWalletRef) (ws : List SeedWalletRef)
    → All (IsBackedBy es) ws
    → All (λ row. All (λ w. ¬ (w.id ≡ row.id)) treasury) (map to_wallet_row ws)
    → All (λ row. matches es (updated treasury row) ≡ true) (map to_wallet_row ws)
customers_match es treasury [] h k = tt
customers_match es treasury (w ∷ ws) h k = (
  ap (matches es) (updated_other treasury (to_wallet_row w) k.0)
      ∙ or_true (is_same w.account_id treasury_account_id) _
          (is_equal_of_eq w.balance (credited w.id es) h.0),
  customers_match es treasury ws h.1 k.1,
)

-- The treasury after a run that found `rows`: what was loaded is cloned once more.
abbrev pub settled_treasury : List SeedLedgerEntryRow → List SeedWalletRow → List SeedWalletRef
settled_treasury es rows =
    map (post es) (clone_treasury [] (clone_treasury [] (map to_wallet_ref rows)))

treasury_ids :
    (es : List SeedLedgerEntryRow) (rows : List SeedWalletRow) (id : String)
    → All (λ r. ¬ (r.id ≡ id)) rows
    → All (λ w. ¬ (w.id ≡ id)) (settled_treasury es rows)
unfolding post
treasury_ids es rows id h =
    let cloned = clone_treasury [] (map to_wallet_ref rows) in
    let Other = λ (w : SeedWalletRef). ¬ (w.id ≡ id) in
    All-map Other (post es) (clone_treasury [] cloned) (
      clone_treasury-All Other [] cloned tt (
        clone_treasury-All Other [] (map to_wallet_ref rows) tt
          (All-map Other to_wallet_ref rows h)))

wallet_balances_match_ledger_passed :
    (es : List SeedLedgerEntryRow) (rows : List SeedWalletRow) (ws : List SeedWalletRef)
    → All IsTreasury rows
    → All (IsBackedBy es) ws
    → let treasury =
        settled_treasury es (filter (λ w. is_same w.account_id treasury_account_id) rows) in
      let written = set_balances treasury (rows ++ map to_wallet_row ws) in
      Distinct (λ w. w.id) written → every (matches es) written ≡ true
wallet_balances_match_ledger_passed es rows ws h k distinct =
    rw (set_balances_lem treasury (rows ++ map to_wallet_row ws)) (
      every-All (matches es) (map (updated treasury) (rows ++ map to_wallet_row ws)) (
        All-map (λ w. matches es w ≡ true) (updated treasury) (rows ++ map to_wallet_row ws)
          (All-append (λ row. matches es (updated treasury row) ≡ true) rows (map to_wallet_row ws)
            (All-agree IsTreasury _ (treasury_matches es treasury) rows h)
            (customers_match es treasury ws k others))))
  where
    own : List SeedWalletRow
    own = filter (λ w. is_same w.account_id treasury_account_id) rows

    treasury : List SeedWalletRef
    treasury = settled_treasury es own

    raw : Distinct (λ w. w.id) (rows ++ map to_wallet_row ws)
    raw =
        Distinct-map (λ w. w.id) (updated treasury) (updated_id treasury)
          (rows ++ map to_wallet_row ws)
          (rw (set_balances_lem treasury (rows ++ map to_wallet_row ws)) at distinct)

    others : All (λ row. All (λ w. ¬ (w.id ≡ row.id)) treasury) (map to_wallet_row ws)
    others =
        All-agree _ _
          (λ row a. treasury_ids es own row.id (
            All-filter (λ r. ¬ (r.id ≡ row.id)) (λ w. is_same w.account_id treasury_account_id) rows
              a))
          (map to_wallet_row ws) (apart (λ w. w.id) rows (map to_wallet_row ws) raw)

pub matched :
    (es fs : List SeedLedgerEntryRow) (treasury : List SeedWalletRef) (rows : List SeedWalletRow)
    (ws : List SeedWalletRef)
    → es ≡ fs
    → treasury ≡ settled_treasury fs (filter (λ w. is_same w.account_id treasury_account_id) rows)
    → All IsTreasury rows
    → All (IsBackedBy fs) ws
    → Distinct (λ w. w.id) (set_balances treasury (rows ++ map to_wallet_row ws))
    → every (matches es) (set_balances treasury (rows ++ map to_wallet_row ws)) ≡ true
matched es fs treasury rows ws e f h k distinct =
    rw (e, f) (wallet_balances_match_ledger_passed fs rows ws h k (rw f at distinct))
