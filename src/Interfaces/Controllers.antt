-- ===== src/Interfaces/Controllers.antt =====
-- The controllers of src/interfaces/http/controllers: the body is parsed, the use case runs behind
-- the idempotent decorator, and an error becomes an answer. A message is given by its error.
pub mod Replayed
use Prim.Native.String.{◌++◌ as append}
use money_across_borders.Base.{ℕ, String, Bool, true, false, Option, none, some, if◌then◌else◌}
use money_across_borders.Domain.Errors.{
  DomainError, Result, ok, err, currency_mismatch, insufficient_funds, unbalanced_ledger,
  unsupported_currency, wallet_not_found, wallet_already_exists, recipient_wallet_not_found,
  compliance_rejected, exchange_rate_not_available, invalid_credentials, email_already_exists,
  idempotency_key_in_flight, validation_error, invalid,
}
use money_across_borders.Application.Idempotency.{IdempotencyRepository, execute}

-- What an answer carries: an output, the message of an error, or a text.
pub data Body (O : Type 0) : Type 0 where
  output : O → Body O
  message_of : DomainError → Body O
  plain : String → Body O

-- `{ statusCode, result }`
pub record Response (O : Type 0) : Type 0 where
  pub status_code : ℕ
  pub result : Body O

module _ {O : Type 0} where
  abbrev pub refused : ℕ → DomainError → Response O
  refused n e = record { status_code = n; result = message_of e }

  abbrev pub internal_error_response : Response O
  internal_error_response = record { status_code = 500; result = plain "Internal server error" }

  abbrev conflict : String → Response O
  conflict m = record { status_code = 409; result = plain m }

  -- The `catch` of each controller.
  unfoldable pub send_remittance_answer : DomainError → Response O
  send_remittance_answer (validation_error m) = refused 400 (validation_error m)
  send_remittance_answer (compliance_rejected m) = refused 403 (compliance_rejected m)
  send_remittance_answer (insufficient_funds w) = refused 422 (insufficient_funds w)
  send_remittance_answer (wallet_not_found w) = refused 404 (wallet_not_found w)
  send_remittance_answer (recipient_wallet_not_found a c) =
      refused 404 (recipient_wallet_not_found a c)
  send_remittance_answer (unsupported_currency c) = refused 422 (unsupported_currency c)
  send_remittance_answer (exchange_rate_not_available b q) =
      refused 422 (exchange_rate_not_available b q)
  send_remittance_answer (idempotency_key_in_flight k) = refused 409 (idempotency_key_in_flight k)
  send_remittance_answer _ = internal_error_response

  -- `error.code === '23505'` is a test on errors of the pg package; the account and the currency are
  -- those of the body.
  unfoldable pub open_wallet_answer :
      (DomainError → Bool) → String → String → DomainError → Response O
  open_wallet_answer is_unique a c (validation_error m) = refused 400 (validation_error m)
  open_wallet_answer is_unique a c (wallet_already_exists b d) =
      refused 409 (wallet_already_exists b d)
  open_wallet_answer is_unique a c (unsupported_currency d) = refused 422 (unsupported_currency d)
  open_wallet_answer is_unique a c (idempotency_key_in_flight k) =
      refused 409 (idempotency_key_in_flight k)
  open_wallet_answer is_unique a c e =
      if is_unique e
      then conflict (append "Account " (append a (append " already has a wallet in " c)))
      else internal_error_response

  unfoldable pub create_account_answer : (DomainError → Bool) → DomainError → Response O
  create_account_answer is_unique (validation_error m) = refused 400 (validation_error m)
  create_account_answer is_unique (email_already_exists m) = refused 409 (email_already_exists m)
  create_account_answer is_unique (idempotency_key_in_flight k) =
      refused 409 (idempotency_key_in_flight k)
  create_account_answer is_unique e =
      if is_unique e
      then conflict "An account with this email already exists"
      else internal_error_response

  unfoldable pub submit_kyc_answer : DomainError → Response O
  submit_kyc_answer (validation_error m) = refused 400 (validation_error m)
  submit_kyc_answer (idempotency_key_in_flight k) = refused 409 (idempotency_key_in_flight k)
  submit_kyc_answer _ = internal_error_response

  unfoldable pub login_answer : DomainError → Response O
  login_answer (validation_error m) = refused 400 (validation_error m)
  login_answer invalid_credentials = refused 401 invalid_credentials
  login_answer _ = internal_error_response

  -- A result, by the status of success and the answers to errors.
  unfoldable pub respond : ℕ → (DomainError → Response O) → Result O → Response O
  respond success answer (ok o) = record { status_code = success; result = output o }
  respond success answer (err e) = answer e

-- `req.header('Idempotency-Key') ?? req.body.idempotencyKey ?? uuidv4()`
unfoldable pub idempotency_key : Option String → Option String → String → String
idempotency_key (some key) body fresh = key
idempotency_key none (some key) fresh = key
idempotency_key none none fresh = fresh

module _ {S O I W : Type 0} (R : IdempotencyRepository S O) (use_case : I → W → Result O × W)
    (answer : DomainError → Response O) where
  -- `handle` of the controllers that stand before a decorated use case, at the header, the key in
  -- the body, the text that uuidv4() draws, and what `from` of the input class makes of the body.
  unfoldable pub handle :
      Option String → Option String → String → Result I → S → W → Response O × S × W
  unfolding respond idempotency_key
  handle header body fresh (err e) s w = (respond 201 answer (err e), s, w)
  handle header body fresh (ok input) s w =
      let (r, s', w') = execute R use_case (idempotency_key header body fresh) input s w in
      (respond 201 answer r, s', w')
