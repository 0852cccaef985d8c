-- ===== src/Infra/Seed/Args/Positive.antt =====
-- The numbers that the parser of the arguments stores.
use money_across_borders.Base.{
  ℕ, Bool, false, String, ℤ, pos, ◌≤ℤ◌, leb_ℤ, true, Option, none, some, List, [], ◌∷◌, ◌≡◌, refl,
  arith,
}
use mathlib.Core.Path.{subst}
use money_across_borders.Domain.Errors.{DomainError, Result, ok, err, ◌>>=◌, ◌>>◌, throw_if}
use money_across_borders.Domain.Numbers.{Number, integer, fractional}
use money_across_borders.Infra.Seed.Config.{SeedConfigOverrides}
use money_across_borders.Infra.Seed.Args.{
  Parsed, finite, infinite, to_number, is_below_one, Valued, customers, wallets, remittances, seed,
  date_range_days, scenario, OptionKind, help_flag, reset_flag, customers_flag, wallets_flag,
  remittances_flag, seed_flag, days_flag, scenario_flag, unknown_flag, kind, parse_int10,
  parse_positive_int, take_value, take_scenario, parse_loop, no_overrides, unknown_option,
  parse_seed_args,
}

-- Where there is an integer, it is positive.
abbrev pub IsPositive : Option Number → Type 0
IsPositive none = Unit
IsPositive (some (integer n)) = pos 1 ≤ℤ n
IsPositive (some fractional) = Unit

-- The numbers that have to be positive are.
pub record ArePositive (o : SeedConfigOverrides) : Type 0 where
  pub customers : IsPositive o.customers
  pub wallets : IsPositive o.wallets_target
  pub remittances : IsPositive o.remittances_target
  pub days : IsPositive o.date_range_days

at_least : (m : ℤ) → leb_ℤ m (pos 0) ≡ false → pos 1 ≤ℤ m
at_least m h = ground arith

above_zero :
    (n m : Parsed) (e : DomainError)
    → (throw_if (is_below_one m) e >> ok m) ≡ ok n
    → IsPositive (some (to_number n))
above_zero n (finite m) e h = at (leb_ℤ m (pos 0)) refl h
  where
    at :
        (b : Bool)
        → leb_ℤ m (pos 0) ≡ b
        → (throw_if b e >> ok (finite m)) ≡ ok n
        → IsPositive (some (to_number n))
    at true hb k = absurd (cc k)
    at false hb k =
        let same : finite m ≡ n = cc k in
        subst (λ x. IsPositive (some (to_number x))) same (at_least m hb)
above_zero n (infinite true) e h = absurd (cc h)
above_zero n (infinite false) e h =
    let same : infinite false ≡ n = cc h in subst (λ x. IsPositive (some (to_number x))) same tt

-- A bind that succeeds has a value that its rest succeeds at.
bound {ℓ κ} :
    {A : Type ℓ} {B : Type κ} (r : Result A) (f : A → Result B) (b : B)
    → (r >>= f) ≡ ok b
    → (a : A) × (r ≡ ok a) × (f a ≡ ok b)
bound (err e) f b h = absurd (cc h)
bound (ok a) f b h = (a, refl, h)

take_scenario-ArePositive :
    (raw : Option String) (o p : SeedConfigOverrides)
    → ArePositive o
    → take_scenario raw o ≡ ok p
    → ArePositive p
take_scenario-ArePositive none o p v h = absurd (cc h)
take_scenario-ArePositive (some value) o p v h = ground arith

module _ (rounded : ℕ → Option ℕ) where
  parse_positive_int_lem :
      (flag : String) (raw : Option String) (n : Parsed)
      → parse_positive_int rounded flag raw ≡ ok n
      → IsPositive (some (to_number n))
  unfolding parse_positive_int
  parse_positive_int_lem flag raw n h =
      let (m, parsed, rest) = bound (parse_int10 rounded flag raw) _ n h in above_zero n m _ rest

  stored :
      (flag : String) (raw : Option String) (f : Parsed → SeedConfigOverrides)
      (o : SeedConfigOverrides)
      → ((n : Parsed) → IsPositive (some (to_number n)) → ArePositive (f n))
      → (parse_positive_int rounded flag raw >>= λ n. ok (f n)) ≡ ok o
      → ArePositive o
  stored flag raw f o keeps h =
      let (n, parsed, rest) = bound (parse_positive_int rounded flag raw) _ o h in
      let same : f n ≡ o = cc rest in
      rw same at (keeps n (parse_positive_int_lem flag raw n parsed))

  take_value-ArePositive :
      (flag : Valued) (raw : Option String) (o p : SeedConfigOverrides)
      → ArePositive o
      → take_value rounded flag raw o ≡ ok p
      → ArePositive p
  unfolding take_value
  take_value-ArePositive customers raw o p v h =
      stored "--customers" raw (λ n. record o { customers = some (to_number n) }) p
        (λ n k. record {
          customers = k;
          wallets = v.wallets;
          remittances = v.remittances;
          days = v.days;
        })
        h
  take_value-ArePositive wallets raw o p v h =
      stored "--wallets" raw (λ n. record o { wallets_target = some (to_number n) }) p
        (λ n k. record {
          customers = v.customers;
          wallets = k;
          remittances = v.remittances;
          days = v.days;
        })
        h
  take_value-ArePositive remittances raw o p v h =
      stored "--remittances" raw (λ n. record o { remittances_target = some (to_number n) }) p
        (λ n k. record {
          customers = v.customers;
          wallets = v.wallets;
          remittances = k;
          days = v.days;
        })
        h
  take_value-ArePositive seed raw o p v h =
      let (n, parsed, rest) = bound (parse_int10 rounded "--seed" raw) _ p h in
      let same : record o { seed = some (to_number n) } ≡ p = cc rest in
      rw same at (positive_with n)
    where
      positive_with : (n : Parsed) → ArePositive (record o { seed = some (to_number n) })
      positive_with n = record {
        customers = v.customers;
        wallets = v.wallets;
        remittances = v.remittances;
        days = v.days;
      }
  take_value-ArePositive date_range_days raw o p v h =
      stored "--date-range-days" raw (λ n. record o { date_range_days = some (to_number n) }) p
        (λ n k. record {
          customers = v.customers;
          wallets = v.wallets;
          remittances = v.remittances;
          days = k;
        })
        h
  take_value-ArePositive scenario raw o p v h = take_scenario-ArePositive raw o p v h

  parse_loop-ArePositive :
      (argv : List String) (waits : Option Valued) (o p : SeedConfigOverrides)
      → ArePositive o
      → parse_loop rounded argv waits o ≡ ok (some p)
      → ArePositive p
  unfolding parse_loop
  parse_loop-ArePositive [] none o p v h = let same : o ≡ p = cc h in rw same at v
  parse_loop-ArePositive [] (some flag) o p v h =
      let (q, taken, rest) = bound (take_value rounded flag none o) _ (some p) h in
      let same : q ≡ p = cc rest in rw same at (take_value-ArePositive flag none o q v taken)
  parse_loop-ArePositive (value ∷ argv) (some flag) o p v h =
      let (q, taken, rest) = bound (take_value rounded flag (some value) o) _ (some p) h in
      parse_loop-ArePositive argv none q p (take_value-ArePositive flag (some value) o q v taken)
        rest
  parse_loop-ArePositive (arg ∷ argv) none o p v h = go (kind arg) (parse_loop-ArePositive argv) h
    where
      go :
          (k : OptionKind)
          → ((waits : Option Valued) (q r : SeedConfigOverrides)
              → ArePositive q
              → parse_loop rounded argv waits q ≡ ok (some r)
              → ArePositive r)
          → elim k [
            | help_flag ↦ ok none
            | reset_flag ↦ parse_loop rounded argv none (record o { reset = some true })
            | customers_flag ↦ parse_loop rounded argv (some customers) o
            | wallets_flag ↦ parse_loop rounded argv (some wallets) o
            | remittances_flag ↦ parse_loop rounded argv (some remittances) o
            | seed_flag ↦ parse_loop rounded argv (some seed) o
            | days_flag ↦ parse_loop rounded argv (some date_range_days) o
            | scenario_flag ↦ parse_loop rounded argv (some scenario) o
            | unknown_flag ↦ err (unknown_option arg)
          ]
            ≡ ok (some p)
          → ArePositive p
      go help_flag rest e = absurd (cc e)
      go reset_flag rest e =
          rest none (record o { reset = some true }) p
            (record {
              customers = v.customers;
              wallets = v.wallets;
              remittances = v.remittances;
              days = v.days;
            })
            e
      go customers_flag rest e = rest (some customers) o p v e
      go wallets_flag rest e = rest (some wallets) o p v e
      go remittances_flag rest e = rest (some remittances) o p v e
      go seed_flag rest e = rest (some seed) o p v e
      go days_flag rest e = rest (some date_range_days) o p v e
      go scenario_flag rest e = rest (some scenario) o p v e
      go unknown_flag rest e = absurd (cc e)

  -- Where the parser accepts the arguments, the numbers that have to be positive are.
  pub parse_seed_args-ArePositive :
      (argv : List String) (o : SeedConfigOverrides)
      → parse_seed_args rounded argv ≡ ok (some o)
      → ArePositive o
  unfolding parse_seed_args
  parse_seed_args-ArePositive argv o h =
      parse_loop-ArePositive argv none no_overrides o
        (record { customers = tt; wallets = tt; remittances = tt; days = tt }) h
