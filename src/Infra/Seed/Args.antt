-- ===== src/Infra/Seed/Args.antt =====
-- src/infra/seed/cli/parse-args.ts
pub mod Positive
pub mod Accepted
use Prim.Native.Char.{code}
use Prim.Native.String.{◌++◌ as append}
use Prim.Native.String
use money_across_borders.Base.{
  ℕ, ◌+◌, ◌-◌, ◌*◌, String, ℤ, pos, ◌-ℤ◌, leb, leb_ℤ, ◌==◌, Bool, true, false, ◌&&◌, ◌||◌, Option,
  none, some, List, [], ◌∷◌, is_same, if◌then◌else◌,
}
use money_across_borders.Domain.Errors.{
  DomainError, Result, ok, err, ◌>>=◌, ◌>>◌, throw_if, invalid,
}
use money_across_borders.Domain.Numbers.{Number, integer, fractional}
use money_across_borders.Infra.Seed.Types.{plain, high_contention}
use money_across_borders.Infra.Seed.Config.{SeedConfigOverrides}

abbrev pub codes : String → List ℕ
codes String.[] = []
codes (String.◌∷◌ c s) = code c ∷ codes s

abbrev between : ℕ → ℕ → ℕ → Bool
between a b c = leb a c && leb c b

-- White space and ends of lines of JavaScript.
abbrev is_space : ℕ → Bool
is_space c =
    between 9 13 c
    || c == 32
    || c == 160
    || c == 5760
    || between 8192 8202 c
    || between 8232 8233 c
    || c == 8239
    || c == 8287
    || c == 12288
    || c == 65279

abbrev is_digit : ℕ → Bool
is_digit c = between 48 57 c

unfoldable pub skip_spaces : List ℕ → List ℕ
skip_spaces [] = []
skip_spaces (c ∷ cs) = if is_space c then skip_spaces cs else c ∷ cs

-- The digits at the front, after those read.
unfoldable pub read_digits : ℕ → List ℕ → ℕ
read_digits n [] = n
read_digits n (c ∷ cs) = elim (is_digit c) [ true ↦ read_digits (n * 10 + (c - 48)) cs | false ↦ n ]

unfoldable pub read_number : List ℕ → Option ℕ
unfolding read_digits
read_number [] = none
read_number (c ∷ cs) = if is_digit c then some (read_digits 0 (c ∷ cs)) else none

-- What `parseInt` gives but NaN: a number, or an infinity, negative or not.
pub data Parsed : Type 0 where
  finite : ℤ → Parsed
  infinite : Bool → Parsed

-- The sign of a numeral, at the double that is nearest to it, `none` where that is Infinity.
abbrev signed : Bool → Option ℕ → Parsed
signed negative none = infinite negative
signed true (some n) = finite (pos 0 -ℤ pos n)
signed false (some n) = finite (pos n)

abbrev pub to_number : Parsed → Number
to_number (finite n) = integer n
to_number (infinite negative) = fractional

-- `value <= 0`
abbrev pub is_below_one : Parsed → Bool
is_below_one (finite n) = leb_ℤ n (pos 0)
is_below_one (infinite negative) = negative

abbrev or_throw : String → Option Parsed → Result Parsed
or_throw message none = err (invalid message)
or_throw message (some n) = ok n

abbrev is_blank : List ℕ → Bool
is_blank [] = true
is_blank (c ∷ cs) = false

-- `rounded` is the double nearest to a numeral, as the engine finds it.
module _ (rounded : ℕ → Option ℕ) where
  abbrev read_sign : Bool → Option ℕ → Option Parsed
  read_sign negative none = none
  read_sign negative (some n) = some (signed negative (rounded n))

  -- `Number.parseInt(raw, 10)` past the spaces, `none` for NaN.
  unfoldable pub read_signed : List ℕ → Option Parsed
  unfolding read_number
  read_signed [] = none
  read_signed (c ∷ cs) =
      if c == 45
      then read_sign true (read_number cs)
      else (if c == 43
          then read_sign false (read_number cs)
          else read_sign false (read_number (c ∷ cs)))

  -- `raw` is undefined where no argument is left. The message goes on with it.
  unfoldable pub parse_int10 : String → Option String → Result Parsed
  unfolding skip_spaces read_signed
  parse_int10 flag none = err (invalid (append flag " requires a numeric value"))
  parse_int10 flag (some raw) = do
    let left = skip_spaces (codes raw)
    throw_if (is_blank left) (invalid (append flag " requires a numeric value"))
    or_throw (append flag " requires a numeric value, got") (read_signed left)

  unfoldable pub parse_positive_int : String → Option String → Result Parsed
  unfolding parse_int10
  parse_positive_int flag raw = do
    value ← parse_int10 flag raw
    throw_if (is_below_one value) (invalid (append flag " must be a positive integer"))
    ok value

-- An argument as the `switch` tells it.
pub data OptionKind : Type 0 where
  help_flag reset_flag customers_flag wallets_flag remittances_flag seed_flag days_flag : OptionKind
  scenario_flag unknown_flag : OptionKind

unfoldable pub kind : String → OptionKind
kind arg =
    if is_same arg "--help" || is_same arg "-h"
    then help_flag
    else (if is_same arg "--reset"
        then reset_flag
        else (if is_same arg "--customers"
            then customers_flag
            else (if is_same arg "--wallets"
                then wallets_flag
                else (if is_same arg "--remittances"
                    then remittances_flag
                    else (if is_same arg "--seed"
                        then seed_flag
                        else (if is_same arg "--date-range-days"
                            then days_flag
                            else (if is_same arg "--scenario"
                                then scenario_flag
                                else unknown_flag)))))))

-- The flags whose value is the next argument.
pub data Valued : Type 0 where
  customers wallets remittances seed date_range_days scenario : Valued

abbrev pub refused_scenario : Result SeedConfigOverrides
refused_scenario = err (invalid "--scenario must be one of: normal, high-contention")

abbrev pub take_scenario : Option String → SeedConfigOverrides → Result SeedConfigOverrides
take_scenario none o = refused_scenario
take_scenario (some value) o =
    if is_same value "normal"
    then ok (record o { scenario = some plain })
    else (if is_same value "high-contention"
        then ok (record o { scenario = some high_contention })
        else refused_scenario)

module _ (rounded : ℕ → Option ℕ) where
  unfoldable pub take_value :
      Valued → Option String → SeedConfigOverrides → Result SeedConfigOverrides
  unfolding parse_int10 parse_positive_int
  take_value customers raw o = do
    n ← parse_positive_int rounded "--customers" raw
    ok (record o { customers = some (to_number n) })
  take_value wallets raw o = do
    n ← parse_positive_int rounded "--wallets" raw
    ok (record o { wallets_target = some (to_number n) })
  take_value remittances raw o = do
    n ← parse_positive_int rounded "--remittances" raw
    ok (record o { remittances_target = some (to_number n) })
  take_value seed raw o = do
    n ← parse_int10 rounded "--seed" raw
    ok (record o { seed = some (to_number n) })
  take_value date_range_days raw o = do
    n ← parse_positive_int rounded "--date-range-days" raw
    ok (record o { date_range_days = some (to_number n) })
  take_value scenario raw o = take_scenario raw o

-- The overrides, or `none` where the help was printed and the process ended with 0.
abbrev pub ParsedArgs : Type 0
ParsedArgs = Result (Option SeedConfigOverrides)

-- The message goes on with advice.
abbrev pub unknown_option : String → DomainError
unknown_option arg = invalid (append "Unknown option " arg)

abbrev pub no_overrides : SeedConfigOverrides
no_overrides = record {
  seed = none;
  customers = none;
  date_range_days = none;
  reset = none;
  scenario = none;
  wallets_target = none;
  remittances_target = none;
}

module _ (rounded : ℕ → Option ℕ) where
  -- The loop over `argv[i:]`. A flag stands there while its value is awaited.
  unfoldable pub parse_loop : List String → Option Valued → SeedConfigOverrides → ParsedArgs
  unfolding kind take_value
  parse_loop [] none o = ok (some o)
  parse_loop [] (some flag) o = do o' ← take_value rounded flag none o; ok (some o')
  parse_loop (value ∷ rest) (some flag) o = do
    o' ← take_value rounded flag (some value) o
    parse_loop rest none o'
  parse_loop (arg ∷ rest) none o = elim (kind arg) [
    | help_flag ↦ ok none
    | reset_flag ↦ parse_loop rest none (record o { reset = some true })
    | customers_flag ↦ parse_loop rest (some customers) o
    | wallets_flag ↦ parse_loop rest (some wallets) o
    | remittances_flag ↦ parse_loop rest (some remittances) o
    | seed_flag ↦ parse_loop rest (some seed) o
    | days_flag ↦ parse_loop rest (some date_range_days) o
    | scenario_flag ↦ parse_loop rest (some scenario) o
    | unknown_flag ↦ err (unknown_option arg)
  ]

  unfoldable pub parse_seed_args : List String → ParsedArgs
  unfolding parse_loop
  parse_seed_args argv = parse_loop argv none no_overrides
