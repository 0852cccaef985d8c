-- ===== src/Domain/Currency.antt =====
-- src/domain/shared/value-objects/currency-value-object.ts
pub mod Laws
use Prim.Native.Char.{Char, code}
use money_across_borders.Base.{
  ℕ, String, Bool, Option, none, some, List, [], ◌∷◌, map, ◌==◌, if◌then◌else◌, is_same,
}
use money_across_borders.Domain.Errors.{Result, ok, err, unsupported_currency}

-- Both texts walk together: the character that stands in `to` where `c` stands in `from`.
abbrev pub translate : String → String → Char → Char
translate String.[] to c = c
translate (String.◌∷◌ f from) String.[] c = c
translate (String.◌∷◌ f from) (String.◌∷◌ t to) c =
    if code c == code f then t else translate from to c

-- `toUpperCase`, at the characters whose upper case is one ASCII letter. Every other character
-- stays: its upper case has a character or a pair of letters that no supported code has.
abbrev pub to_upper_case : String → String
to_upper_case String.[] = String.[]
to_upper_case (String.◌∷◌ c s) =
    String.◌∷◌ (translate "abcdefghijklmnopqrstuvwxyzſı" "ABCDEFGHIJKLMNOPQRSTUVWXYZSI" c)
      (to_upper_case s)

-- The exponent of each supported code, in the order of the object's keys.
abbrev pub supported_currencies : List (String × ℕ)
supported_currencies = ("USD", 2) ∷ ("BRL", 2) ∷ ("EUR", 2) ∷ ("GBP", 2) ∷ []

abbrev pub lookup : String → List (String × ℕ) → Option ℕ
lookup k [] = none
lookup k ((j, v) ∷ m) = if is_same j k then some v else lookup k m

pub record Currency : Type 0 where
  pub code : String
  pub minor_unit_exponent : ℕ

unfoldable pub supported_codes : List String
supported_codes = map (λ e. e.0) supported_currencies

unfoldable pub from : String → Result Currency
from raw =
    let normalized = to_upper_case raw in
    elim (lookup normalized supported_currencies) [
      | none ↦ err (unsupported_currency raw)
      | some exponent ↦ ok (record { code = normalized; minor_unit_exponent = exponent })
    ]

unfoldable pub equals : Currency → Currency → Bool
equals a b = is_same a.code b.code
