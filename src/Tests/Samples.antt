-- ===== src/Tests/Samples.antt =====
-- A concrete environment: fixed-point numbers with 32 binary places, ids in unary, a clock that counts,
-- and a table of five wallets.
use Prim.Native.String.{◌++◌ as append}
use money_across_borders.Base.{
  none, ℕ, zero, suc, ◌+◌, ◌*◌, ◌/◌, ◌^◌, String, ℤ, pos, negsuc, ◌≤ℤ◌, Bool, true, false, ◌≡◌,
  refl, [], ◌∷◌, arith,
}
use money_across_borders.Domain.Numbers.{Floats, integer, IsLiteral}
use money_across_borders.Domain.Currency.{Currency}
use money_across_borders.Domain.Wallet.{Wallet}
use money_across_borders.Domain.Statuses.{active_wallet}
use money_across_borders.Store.{World, Environment}
use money_across_borders.Application.SendRemittance.{
  SendRemittanceInput, Ports, treasury_account_id,
}
use money_across_borders.Infra.Pricing.{calculate}
use money_across_borders.Infra.Compliance.{check}
use money_across_borders.Infra.FxRates.{get_rate}

abbrev pub unit : ℕ
unit = 4294967296

abbrev pub times : ℤ → ℤ → ℤ
times (pos a) (pos b) = pos (a * b / unit)
times (pos a) (negsuc b) = pos 0
times (negsuc a) b = pos 0

-- At least one place, so that a quotient of positive numbers is positive.
abbrev pub at_least_one : ℕ → ℕ
at_least_one zero = 1
at_least_one (suc n) = suc n

abbrev pub over : ℤ → ℤ → ℤ
over (pos a) (pos b) = pos (at_least_one (a * unit / b))
over (pos a) (negsuc b) = pos 1
over (negsuc a) b = pos 1

abbrev shift : ℤ → ℤ
shift (pos k) = pos (unit * 10 ^ k)
shift (negsuc k) = pos (unit / 10 ^ (k + 1))

abbrev nearest : ℤ → ℤ
nearest (pos a) = pos ((a + 2147483648) / unit)
nearest (negsuc a) = pos 0

abbrev pub scaled : ℤ → ℤ
scaled (pos a) = pos (a * unit)
scaled (negsuc a) = negsuc (a * unit)

abbrev is_above_zero : ℤ → Bool
is_above_zero (pos zero) = false
is_above_zero (pos (suc a)) = true
is_above_zero (negsuc a) = false

abbrev pub literal : ℕ → ℕ → ℤ
literal zero k = pos 0
literal (suc n) zero = pos (suc (n * unit + 4294967295))
literal (suc n) (suc k) = pos (suc (suc n * unit / 10 ^ suc k))

pub literal-positive : (n k : ℕ) → IsLiteral n k → is_above_zero (literal n k) ≡ true
literal-positive zero k h = absurd (omega (arith, h.0))
literal-positive (suc n) zero h = refl
literal-positive (suc n) (suc k) h = refl

pub nearest-times :
    (n f : ℤ) → pos 0 ≤ℤ n → is_above_zero f ≡ true → pos 0 ≤ℤ nearest (times (scaled n) f)
nearest-times (pos n) (pos f) h p = omega arith
nearest-times (pos n) (negsuc f) h p = omega arith
nearest-times (negsuc n) f h p = omega arith

at_least_one-positive : (n : ℕ) → is_above_zero (pos (at_least_one n)) ≡ true
at_least_one-positive zero = refl
at_least_one-positive (suc n) = refl

pub over-positive :
    (n k m l : ℕ)
    → IsLiteral n k
    → IsLiteral m l
    → is_above_zero (over (literal n k) (literal m l)) ≡ true
over-positive n k m l h p = go (literal n k) (literal m l)
  where
    go : (f g : ℤ) → is_above_zero (over f g) ≡ true
    go (pos a) (pos b) = at_least_one-positive (a * unit / b)
    go (pos a) (negsuc b) = refl
    go (negsuc a) g = refl

abbrev pub fixed_point : Floats
fixed_point = record {
  Float = ℤ;
  of_ℤ = scaled;
  decimal = literal;
  mul = times;
  div = over;
  pow10 = shift;
  round = nearest;
  is_positive = is_above_zero;
  decimal-positive = literal-positive;
  round-mul-nonneg = nearest-times;
  div-positive = over-positive;
}

abbrev unary_id : ℕ → String
unary_id zero = "id-"
unary_id (suc n) = append (unary_id n) "i"

abbrev pub environment : Environment
environment = record {
  uuid_v7 = unary_id;
  uuid_validate = λ _. true;
  clock = λ n. 1000 + n;
  save_fails = λ _. none;
  to_iso_string = λ _. "2024-01-01T00:00:00.000Z";
}

abbrev pub ports : Ports ℤ
ports = record {
  calculate = calculate fixed_point;
  get_rate = get_rate fixed_point 0;
  check = check;
}

abbrev pub usd : Currency
usd = record { code = "USD"; minor_unit_exponent = 2 }

abbrev pub brl : Currency
brl = record { code = "BRL"; minor_unit_exponent = 2 }

abbrev pub wallet : String → String → Currency → ℕ → Wallet
wallet id account_id currency amount = record {
  id = id;
  account_id = account_id;
  currency = currency;
  balance = record { amount_minor_units = pos amount; currency = currency };
  status = active_wallet;
  created_at = 0;
}

abbrev pub empty_world : World ℤ
empty_world = record {
  users = [];
  accounts = [];
  wallets = [];
  ledger = [];
  remittances = [];
  profiles = [];
  dossiers = [];
  outbox = [];
  published = [];
  generated = 0;
  clock_reads = 0;
}

-- Ana holds dollars and reais, Bia reais; the treasury holds both.
abbrev pub world : World ℤ
world = record empty_world {
  wallets =
      wallet "w-ana-usd" "ana" usd 50000
      ∷ wallet "w-bia-brl" "bia" brl 100
      ∷ wallet "w-ana-brl" "ana" brl 0
      ∷ wallet "w-treasury-usd" treasury_account_id usd 1000000
      ∷ wallet "w-treasury-brl" treasury_account_id brl 1000000
      ∷ [];
}

-- Ana sends Bia 100 dollars in reais.
abbrev pub remittance_input : SendRemittanceInput
remittance_input = record {
  sender_account_id = "ana";
  recipient_account_id = "bia";
  source_currency = "usd";
  destination_currency = "BRL";
  amount_minor_units = integer (pos 10000);
}

-- Ana sends herself 100 dollars in dollars.
abbrev pub self_input : SendRemittanceInput
self_input = record remittance_input { recipient_account_id = "ana"; destination_currency = "USD" }
