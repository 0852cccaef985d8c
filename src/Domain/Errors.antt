-- ===== src/Domain/Errors.antt =====
-- The errors of src/domain/shared/errors.ts, with the values from which each message is built,
-- and the result of code that throws them.
use money_across_borders.Base.{ℤ, String, Bool, true, false, ◌≡◌, refl, ◌⊎◌, inl, inr}

-- `invalid` is a plain `Error`, by its message.
pub data DomainError : Type 0 where
  currency_mismatch : String → String → DomainError
  insufficient_funds : String → DomainError
  unbalanced_ledger : String → ℤ → DomainError
  unsupported_currency : String → DomainError
  wallet_not_found : String → DomainError
  wallet_already_exists : String → String → DomainError
  recipient_wallet_not_found : String → String → DomainError
  compliance_rejected : String → DomainError
  exchange_rate_not_available : String → String → DomainError
  invalid_credentials : DomainError
  email_already_exists : String → DomainError
  idempotency_key_in_flight : String → DomainError
  validation_error : String → DomainError
  invalid : String → DomainError

-- What a call throws or returns.
pub data Result {ℓ} (A : Type ℓ) : Type ℓ where
  err : DomainError → Result A
  ok : A → Result A

-- A throw ends a chain of calls.
infixl 5 ◌>>◌ ◌>>=◌
abbrev pub ◌>>=◌ {κ ℓ} : {Y : Type ℓ} {X : Type κ} → Result X → (X → Result Y) → Result Y
err thrown >>= next = err thrown
ok x >>= next = next x

abbrev pub ◌>>◌ {ℓ} : {Y : Type ℓ} → Result (Unit {0}) → Result Y → Result Y
first >> next = first >>= λ _. next

-- `if (c) throw e`
abbrev pub throw_if : Bool → DomainError → Result (Unit {0})
throw_if true e = err e
throw_if false e = ok tt

pub Result-cases {ℓ} :
    {A : Type ℓ} (r : Result A) → ((a : A) × (r ≡ ok a)) ⊎ ((e : DomainError) × (r ≡ err e))
Result-cases (ok a) = inl (a, refl)
Result-cases (err e) = inr (e, refl)
