-- ===== src/Application/Accounts/Joined.antt =====
-- What a signup gives, and the login that follows it.
use money_across_borders.Base.{
  String, Bool, true, none, some, List, [], ◌∷◌, ◌++◌, ◌≡◌, refl, is_same, is_same_refl, find, sym,
  arith,
}
use mathlib.Core.Path.{subst}
use money_across_borders.Domain.Errors.{ok}
use money_across_borders.Domain.Entities.{User, Account}
use money_across_borders.Domain.Statuses.{is_active}
use money_across_borders.Store.{World, Environment, run_in_transaction}
use money_across_borders.Store.Repositories.{
  find_user_by_email, find_account_by_user_id, is_owned_by, save_user, save_account,
}
use money_across_borders.Application.Accounts.{
  Security, Credentials, Signup, provision, create_account, login,
}

find-append_new :
    {A : Type 0} (p : A → Bool) (xs : List A) (x : A)
    → find p xs ≡ none
    → find p (xs ++ x ∷ []) ≡ find p (x ∷ [])
find-append_new p [] x h = refl
find-append_new p (y ∷ xs) x h = ground (arith, find-append_new p xs x)

-- What a signup that returns has written.
pub created :
    (E : Environment) (S : Security) {Float : Type 0} (input : Credentials) (w : World Float)
    (r : Signup)
    → (create_account E S input w).0 ≡ ok r
    → let after = (create_account E S input w).1 in
      (after.users ≡ save_user r.user w.users)
      × (after.accounts ≡ save_account r.account w.accounts)
      × (find_user_by_email input.email w.users ≡ none)
      × (r.user.id ≡ E.uuid_v7 w.generated)
      × (r.account.user_id ≡ some r.user.id)
      × (r.user.email ≡ input.email)
      × (r.user.password_hash ≡ S.hash input.password)
      × (is_active r.user.status ≡ true)
unfolding create_account provision run_in_transaction is_active
created E S input w r e = ground arith

-- The user who signed up is found by the email, the account by the user.
found_user :
    (email : String) (user : User) (users : List User)
    → find_user_by_email email users ≡ none
    → user.email ≡ email
    → find_user_by_email email (save_user user users) ≡ some user
unfolding find_user_by_email save_user
found_user email user users h e =
    ground
      (arith, find-append_new (λ (u : User). is_same u.email email) users user, is_same_refl email)

found_account :
    (user_id : String) (account : Account) (accounts : List Account)
    → find_account_by_user_id user_id accounts ≡ none
    → account.user_id ≡ some user_id
    → find_account_by_user_id user_id (save_account account accounts) ≡ some account
unfolding find_account_by_user_id save_account
found_account user_id account accounts h e = ground (
  arith,
  find-append_new (λ (a : Account). is_owned_by user_id a.user_id) accounts account,
  is_same_refl user_id,
)

login_found :
    (S : Security) {Float : Type 0} (input : Credentials) (w : World Float) (user : User)
    (account : Account) (token : String)
    → S.generate_token user.id account.id ≡ ok token
    → find_user_by_email input.email w.users ≡ some user
    → S.compare input.password user.password_hash ≡ true
    → is_active user.status ≡ true
    → find_account_by_user_id user.id w.accounts ≡ some account
    → (login S input w).0
      ≡ ok
          (record { token = token; user_id = user.id; account_id = account.id; email = user.email })
unfolding login
login_found S input w user account token t f c a g = ground arith

-- Where the hasher accepts the hash of a password for that password, and the id drawn for the
-- user owns no account yet, a login with the credentials of a signup that succeeded, on the
-- tables it left, succeeds with the token that the generator issues for the new user and the new
-- account, where it issues one.
pub login_after_create_account :
    (E : Environment) (S : Security) {Float : Type 0} (input : Credentials) (w : World Float)
    (r : Signup) (token : String)
    → ((p : String) → S.compare p (S.hash p) ≡ true)
    → find_account_by_user_id (E.uuid_v7 w.generated) w.accounts ≡ none
    → (create_account E S input w).0 ≡ ok r
    → S.generate_token r.user.id r.account.id ≡ ok token
    → (login S input (create_account E S input w).1).0
      ≡ ok (record {
        token = token;
        user_id = r.user.id;
        account_id = r.account.id;
        email = input.email;
      })
login_after_create_account E S input w r token law unowned e issued =
    let (users, accounts, fresh, named, owned, mailed, hashed, active) = created E S input w r e in
    let user = found_user input.email r.user w.users fresh mailed in
    let unused = subst (λ i. find_account_by_user_id i w.accounts ≡ none) (sym named) unowned in
    let account = found_account r.user.id r.account w.accounts unused owned in
    let entered =
      login_found S input (create_account E S input w).1 r.user r.account token issued
        (cc (users, user)) (cc (hashed, law input.password)) active (cc (accounts, account)) in
    cc (entered, mailed)
