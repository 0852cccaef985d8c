-- ===== src/Infra/Seed/Ledger/Posted.antt =====
-- What a run of the pipeline does to the balances, as its ledger entries tell it: the checks of
-- src/infra/seed/validation/financial-invariants.ts, over lists of rows.
use money_across_borders.Base.{
  String, ℤ, pos, ◌+ℤ◌, ◌-ℤ◌, ◌==◌, ◌&&◌, List, [], ◌∷◌, ◌++◌, map, is_same, if◌then◌else◌, ◌≡◌,
  refl, ap, sym, ◌∙◌, +ℤ_assoc, +ℤ_zero_left, +ℤ_zero_right,
}
use money_across_borders.Infra.Seed.Types.{SeedWalletRef, SeedLedgerEntryRow, Seed}

-- `CASE WHEN direction_id = 2 THEN amount WHEN direction_id = 1 THEN -amount ELSE 0 END`
abbrev signed_credit : SeedLedgerEntryRow → ℤ
signed_credit e =
    if e.direction_id == 2
    then e.amount_minor_units
    else (if e.direction_id == 1 then pos 0 -ℤ e.amount_minor_units else pos 0)

abbrev row_credit : String → SeedLedgerEntryRow → ℤ
row_credit id e = if is_same id e.wallet_id then signed_credit e else pos 0

-- The sum over the entries of a wallet, as `checkWalletBalancesMatchLedger` takes it.
unfoldable pub credited : String → List SeedLedgerEntryRow → ℤ
credited id [] = pos 0
credited id (e ∷ es) = row_credit id e +ℤ credited id es

-- `CASE WHEN direction_id = 1 THEN amount ELSE -amount END`
abbrev pub signed_debit : SeedLedgerEntryRow → ℤ
signed_debit e = if e.direction_id == 1 then e.amount_minor_units else pos 0 -ℤ e.amount_minor_units

abbrev pub row_net : String → String → SeedLedgerEntryRow → ℤ
row_net t c e = if is_same e.transaction_id t && is_same e.currency c then signed_debit e else pos 0

-- Debits less credits of a transaction in a currency, as `checkEveryPostingBalances` takes it.
unfoldable pub net : String → String → List SeedLedgerEntryRow → ℤ
net t c [] = pos 0
net t c (e ∷ es) = row_net t c e +ℤ net t c es

unfoldable pub IsBalanced : List SeedLedgerEntryRow → Type 0
unfolding net
IsBalanced es = (t c : String) → net t c es ≡ pos 0

unfoldable pub post : List SeedLedgerEntryRow → SeedWalletRef → SeedWalletRef
unfolding credited
post es w = record w { balance = w.balance +ℤ credited w.id es }

-- From one state to the next, every balance moves by the entries, which balance.
unfoldable pub Posts : Seed → List SeedLedgerEntryRow → Seed → Type 0
unfolding post IsBalanced
Posts s es s' =
    (s'.wallets ≡ map (post es) s.wallets)
    × (s'.treasury ≡ map (post es) s.treasury)
    × IsBalanced es

pub credited-append :
    (id : String) (es fs : List SeedLedgerEntryRow)
    → credited id (es ++ fs) ≡ credited id es +ℤ credited id fs
unfolding credited
credited-append id [] fs = sym (+ℤ_zero_left (credited id fs))
credited-append id (e ∷ es) fs =
    ap (λ n. row_credit id e +ℤ n) (credited-append id es fs)
    ∙ sym (+ℤ_assoc (row_credit id e) (credited id es) (credited id fs))

pub net-append :
    (t c : String) (es fs : List SeedLedgerEntryRow) → net t c (es ++ fs) ≡ net t c es +ℤ net t c fs
unfolding net
net-append t c [] fs = sym (+ℤ_zero_left (net t c fs))
net-append t c (e ∷ es) fs =
    ap (λ n. row_net t c e +ℤ n) (net-append t c es fs)
    ∙ sym (+ℤ_assoc (row_net t c e) (net t c es) (net t c fs))

pub append-IsBalanced :
    (es fs : List SeedLedgerEntryRow) → IsBalanced es → IsBalanced fs → IsBalanced (es ++ fs)
unfolding IsBalanced
append-IsBalanced es fs he hf t c =
    net-append t c es fs ∙ ap (λ n. n +ℤ net t c fs) (he t c) ∙ +ℤ_zero_left (net t c fs) ∙ hf t c

pub post_nil : (w : SeedWalletRef) → post [] w ≡ w
unfolding post credited
post_nil w = ap (λ n. record w { balance = n }) (+ℤ_zero_right w.balance)

pub post_append :
    (es fs : List SeedLedgerEntryRow) (w : SeedWalletRef) → post (es ++ fs) w ≡ post fs (post es w)
unfolding post
post_append es fs w =
    ap (λ n. record w { balance = n })
      (ap (λ n. w.balance +ℤ n) (credited-append w.id es fs)
        ∙ sym (+ℤ_assoc w.balance (credited w.id es) (credited w.id fs)))

pub map-agree :
    {A B : Type 0} (f g : A → B) → ((x : A) → f x ≡ g x) → (xs : List A) → map f xs ≡ map g xs
map-agree f g h [] = refl
map-agree f g h (x ∷ xs) = cc (h x, map-agree f g h xs)

pub map-compose :
    {A B C : Type 0} (f : A → B) (g : B → C) (h : A → C)
    → ((x : A) → g (f x) ≡ h x)
    → (xs : List A) → map g (map f xs) ≡ map h xs
map-compose f g h e [] = refl
map-compose f g h e (x ∷ xs) = cc (e x, map-compose f g h e xs)

pub map-identity : {A : Type 0} (f : A → A) → ((x : A) → f x ≡ x) → (xs : List A) → map f xs ≡ xs
map-identity f h [] = refl
map-identity f h (x ∷ xs) = cc (h x, map-identity f h xs)

pub Posts-nil : (s s' : Seed) → s'.wallets ≡ s.wallets → s'.treasury ≡ s.treasury → Posts s [] s'
unfolding Posts IsBalanced net
Posts-nil s s' w t = (
  w ∙ sym (map-identity (post []) post_nil s.wallets),
  t ∙ sym (map-identity (post []) post_nil s.treasury),
  λ t c. refl,
)

pub Posts-append :
    (s s' s'' : Seed) (es fs : List SeedLedgerEntryRow)
    → Posts s es s'
    → Posts s' fs s''
    → Posts s (es ++ fs) s''
unfolding Posts
Posts-append s s' s'' es fs h k =
    let both = map-compose (post es) (post fs) (post (es ++ fs)) (λ w. sym (post_append es fs w)) in
    (
      k.0 ∙ ap (map (post fs)) h.0 ∙ both s.wallets,
      k.1 ∙ ap (map (post fs)) h.1 ∙ both s.treasury,
      append-IsBalanced es fs h.2 k.2,
    )
