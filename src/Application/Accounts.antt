-- ===== src/Application/Accounts.antt =====
-- Signup and login: CreateAccountUseCase and LoginUseCase of src/application.
pub mod Joined
pub mod Owned
use money_across_borders.Base.{String, Bool, true, false, Option, none, some, if◌then◌else◌}
use money_across_borders.Domain.Errors.{
  Result, ok, err, email_already_exists, invalid_credentials, invalid,
}
use money_across_borders.Domain.Entities.{User, Account}
use money_across_borders.Domain.Statuses.{active_user, is_active}
use money_across_borders.Store.{
  World, Environment, Action, ◌>>=◌, ◌>>◌, pure, lift, reads, modify, generate_id, now,
  run_in_transaction, account_created, rabbitmq, outbox_add,
}
use money_across_borders.Store.Repositories.{
  save_user, save_account, find_user_by_email, find_account_by_user_id,
}

-- The ports for passwords and tokens. Hashing draws a salt: a function stands for one choice of
-- salts. A token generator may throw, as JWTService does without a secret.
pub record Security : Type 0 where
  pub hash : String → String
  pub compare : String → String → Bool
  pub generate_token : String → String → Result String

pub record Credentials : Type 0 where
  pub email : String
  pub password : String

-- `{ account, user }`
pub record Signup : Type 0 where
  pub account : Account
  pub user : User

pub record LoginOutput : Type 0 where
  pub token : String
  pub user_id : String
  pub account_id : String
  pub email : String

abbrev refuse_existing : String → Option User → Result (Unit {0})
refuse_existing email none = ok tt
refuse_existing email (some user) = err (email_already_exists email)

module _ (E : Environment) (S : Security) {Float : Type 0} where
  -- `doExecute` of CreateAccountUseCase.
  unfoldable pub provision : Credentials → Action Float Signup
  unfolding find_user_by_email save_user save_account outbox_add
  provision input = do
    reads (λ w. refuse_existing input.email (find_user_by_email input.email w.users))
    created_at ← now E
    user_id ← generate_id E
    let user : User = record {
      id = user_id;
      email = input.email;
      password_hash = S.hash input.password;
      status = active_user;
      created_at = created_at;
    }
    modify (λ w. record w { users = save_user user w.users })
    account_id ← generate_id E
    let account : Account = record {
      id = account_id;
      user_id = some user_id;
      status = record { id = 1 };
      created_at = created_at;
    }
    modify (λ w. record w { accounts = save_account account w.accounts })
    outbox_add E "account.created"
        (account_created account_id user_id input.email (E.to_iso_string created_at)) rabbitmq
    pure (record { account = account; user = user })

  -- `execute` of CreateAccountUseCase.
  unfoldable pub create_account : Credentials → Action Float Signup
  create_account input = run_in_transaction (provision input)

abbrev authenticate : Security → String → Option User → Result User
authenticate S password none = err invalid_credentials
authenticate S password (some user) =
    if S.compare password user.password_hash
    then (if is_active user.status then ok user else err invalid_credentials)
    else err invalid_credentials

abbrev account_of : String → Option Account → Result Account
account_of user_id none = err (invalid "No account found for user")
account_of user_id (some account) = ok account

module _ (S : Security) {Float : Type 0} where
  -- `execute` of LoginUseCase.
  unfoldable pub login : Credentials → Action Float LoginOutput
  unfolding find_user_by_email find_account_by_user_id
  login input = do
    user ← reads (λ w. authenticate S input.password (find_user_by_email input.email w.users))
    account ← reads (λ w. account_of user.id (find_account_by_user_id user.id w.accounts))
    token ← lift (S.generate_token user.id account.id)
    pure (record { token = token; user_id = user.id; account_id = account.id; email = user.email })
