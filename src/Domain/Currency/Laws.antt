-- ===== src/Domain/Currency/Laws.antt =====
-- Which texts are currencies.
use mathlib.Core.Path.{subst}
use money_across_borders.Base.{ℕ, String, none, some, ◌≡◌, arith, Option-cases, inl, inr}
use money_across_borders.Domain.Errors.{ok}
use money_across_borders.Domain.Currency.{
  Currency, from, supported_currencies, lookup, to_upper_case,
}

-- The exponent is that of the code in the table.
pub from-lookup :
    (raw : String) (c : Currency)
    → from raw ≡ ok c
    → lookup c.code supported_currencies ≡ some c.minor_unit_exponent
unfolding from
from-lookup raw c h = elim (Option-cases (lookup (to_upper_case raw) supported_currencies)) [
  | inl none_found ↦ absurd (refused none_found)
  | inr (n, found) ↦ accepted n found
]
  where
    refused : lookup (to_upper_case raw) supported_currencies ≡ none → ⊥
    refused e = cc (rw (e, from) at h)

    accepted :
        (n : ℕ)
        → lookup (to_upper_case raw) supported_currencies ≡ some n
        → lookup c.code supported_currencies ≡ some c.minor_unit_exponent
    accepted n e =
        let k : ok (record { code = to_upper_case raw; minor_unit_exponent = n }) ≡ ok c =
          rw (e, from) at h in
        let p : ◌≡◌ {A = Currency} (record { code = to_upper_case raw; minor_unit_exponent = n })
            c =
          cc in
        subst (λ (x : Currency). lookup x.code supported_currencies ≡ some x.minor_unit_exponent) p
          e

-- A currency is determined by its code.
pub from_code_unique :
    (a b : String) (c d : Currency) → from a ≡ ok c → from b ≡ ok d → c.code ≡ d.code → c ≡ d
from_code_unique a b c d ha hb e = ground (arith, from-lookup a c ha, from-lookup b d hb)
