-- ===== src/Infra/Seed/Ledger/Moves.antt =====
-- Changes of balances, as a function from the ids of wallets.
use money_across_borders.Base.{
  String, ℤ, pos, ◌+ℤ◌, Bool, true, false, List, map, is_same, if◌then◌else◌, ◌≡◌, refl, ap, sym,
  ◌∙◌, +ℤ_assoc, +ℤ_zero_right,
}
use money_across_borders.Infra.Seed.Types.{SeedWalletRef, SeedLedgerEntryRow, Seed}
use money_across_borders.Infra.Seed.Ledger.{add_balance}
use money_across_borders.Infra.Seed.Ledger.Posted.{
  credited, IsBalanced, post, Posts, map-agree, map-compose,
}

abbrev shift : (String → ℤ) → SeedWalletRef → SeedWalletRef
shift d w = record w { balance = w.balance +ℤ d w.id }

unfoldable pub Moves : Seed → (String → ℤ) → Seed → Type 0
Moves s d s' = (s'.wallets ≡ map (shift d) s.wallets) × (s'.treasury ≡ map (shift d) s.treasury)

-- What one wallet gains.
abbrev pub gain : String → ℤ → String → ℤ
gain id amount j = if is_same j id then amount else pos 0

add_if : (b : Bool) (n a : ℤ) → (if b then n +ℤ a else n) ≡ n +ℤ (if b then a else pos 0)
add_if true n a = refl
add_if false n a = sym (+ℤ_zero_right n)

add_balance-shift :
    (id : String) (a : ℤ) (w : SeedWalletRef) → add_balance id a w ≡ shift (gain id a) w
add_balance-shift id a w = ap (λ n. record w { balance = n }) (add_if (is_same w.id id) w.balance a)

-- The state after a credit.
abbrev pub credited_state : String → ℤ → Seed → Seed
credited_state id a s = record s {
  wallets = map (add_balance id a) s.wallets;
  treasury = map (add_balance id a) s.treasury;
}

pub credit_Moves : (id : String) (a : ℤ) (s : Seed) → Moves s (gain id a) (credited_state id a s)
unfolding Moves
credit_Moves id a s =
    let step = map-agree (add_balance id a) (shift (gain id a)) (add_balance-shift id a) in
    (step s.wallets, step s.treasury)

pub Moves-then :
    (s s' s'' : Seed) (d e : String → ℤ)
    → Moves s d s'
    → Moves s' e s''
    → Moves s (λ j. d j +ℤ e j) s''
unfolding Moves
Moves-then s s' s'' d e h k =
    let both =
      map-compose (shift d) (shift e) (shift (λ j. d j +ℤ e j))
        (λ w. ap (λ n. record w { balance = n }) (+ℤ_assoc w.balance (d w.id) (e w.id))) in
    (k.0 ∙ ap (map (shift e)) h.0 ∙ both s.wallets, k.1 ∙ ap (map (shift e)) h.1 ∙ both s.treasury)

-- Moves that balanced entries tell.
pub Moves-Posts :
    (s s' : Seed) (d : String → ℤ) (es : List SeedLedgerEntryRow)
    → Moves s d s'
    → ((id : String) → d id ≡ credited id es)
    → IsBalanced es
    → Posts s es s'
unfolding Moves Posts post
Moves-Posts s s' d es h e b =
    let same =
      map-agree (shift d) (post es)
        (λ w. ap (λ n. record w { balance = w.balance +ℤ n }) (e w.id)) in
    (h.0 ∙ same s.wallets, h.1 ∙ same s.treasury, b)
