-- ===== src/Application/Accounts/Owned.antt =====
-- Every user has an account, so that a login never meets a user without one.
use money_across_borders.Base.{
  String, Bool, true, false, Option, none, some, List, [], ◌∷◌, ◌≡◌, is_same, is_same_refl,
  find-All, All, ◌⊎◌, inl, inr, sym, Option-cases, arith,
}
use mathlib.Core.Path.{subst}
use money_across_borders.Domain.Errors.{err, DomainError, invalid_credentials, Result-cases}
use money_across_borders.Domain.Entities.{User, Account}
use money_across_borders.Store.{World, Environment, run_in_transaction}
use money_across_borders.Store.Repositories.{
  find_user_by_email, find_account_by_user_id, save_user, save_account,
}
use money_across_borders.Application.Accounts.{Security, Credentials, create_account, login}
use money_across_borders.Application.Accounts.Joined.{created}

-- `findByUserId` finds an account of this user.
abbrev is_found : Option Account → Bool
is_found none = false
is_found (some account) = true

abbrev IsOwner : List Account → User → Type 0
IsOwner accounts user = is_found (find_account_by_user_id user.id accounts) ≡ true

-- Every user has an account.
abbrev pub HasAccounts : {Float : Type 0} → World Float → Type 0
HasAccounts w = All (IsOwner w.accounts) w.users

found_longer :
    (id : String) (accounts : List Account) (a : Account)
    → is_found (find_account_by_user_id id accounts) ≡ true
    → is_found (find_account_by_user_id id (save_account a accounts)) ≡ true
unfolding find_account_by_user_id save_account
found_longer id [] a h = cc
found_longer id (x ∷ accounts) a h = ground (arith, found_longer id accounts a)

found_last :
    (id : String) (accounts : List Account) (a : Account)
    → a.user_id ≡ some id
    → is_found (find_account_by_user_id id (save_account a accounts)) ≡ true
unfolding find_account_by_user_id save_account
found_last id [] a h = ground (arith, is_same_refl id)
found_last id (x ∷ accounts) a h = ground (arith, found_last id accounts a)

save_user-IsOwner :
    (users : List User) (accounts : List Account) (user : User) (a : Account)
    → a.user_id ≡ some user.id
    → All (IsOwner accounts) users
    → All (IsOwner (save_account a accounts)) (save_user user users)
unfolding save_user
save_user-IsOwner [] accounts user a h o = (found_last user.id accounts a h, tt)
save_user-IsOwner (x ∷ users) accounts user a h o =
    (found_longer x.id accounts a o.0, save_user-IsOwner users accounts user a h o.1)

same_owners :
    (users before : List User) (accounts earlier : List Account)
    → users ≡ before
    → accounts ≡ earlier
    → All (IsOwner earlier) before
    → All (IsOwner accounts) users
same_owners users before accounts earlier u a h =
    subst (λ us. All (IsOwner accounts) us) (sym u)
      (subst (λ xs. All (IsOwner xs) before) (sym a) h)

refused :
    (E : Environment) (S : Security) {Float : Type 0} (input : Credentials) (w : World Float)
    (e : DomainError)
    → (create_account E S input w).0 ≡ err e
    → let after = (create_account E S input w).1 in
      (after.users ≡ w.users) × (after.accounts ≡ w.accounts)
unfolding create_account run_in_transaction
refused E S input w e h = ground arith

pub create_account-HasAccounts :
    (E : Environment) (S : Security) {Float : Type 0} (input : Credentials) (w : World Float)
    → HasAccounts w
    → HasAccounts (create_account E S input w).1
create_account-HasAccounts E S input w h = elim (Result-cases (create_account E S input w).0) [
  | inl (r, e) ↦
      let (users, accounts, _, _, owned, _, _, _) = created E S input w r e in
      same_owners _ _ _ _ users accounts
        (save_user-IsOwner w.users w.accounts r.user r.account owned h)
  | inr (x, e) ↦
      let (users, accounts) = refused E S input w x e in same_owners _ _ _ _ users accounts h
]

-- A login whose user and account are found.
refused_token :
    (S : Security) {Float : Type 0} (input : Credentials) (w : World Float) (e : DomainError)
    (u : User) (a : Account)
    → find_user_by_email input.email w.users ≡ some u
    → find_account_by_user_id u.id w.accounts ≡ some a
    → (login S input w).0 ≡ err e
    → (e ≡ invalid_credentials) ⊎ (S.generate_token u.id a.id ≡ err e)
unfolding login
refused_token S input w e u a n m q = elim (Result-cases (S.generate_token u.id a.id)) [
  | inl (t, g) ↦ inl (ground arith)
  | inr (x, g) ↦ ground arith
]

-- Where every user has an account, a login that throws throws the invalid-credentials error, or
-- an error that the token generator threw.
pub login_refuses :
    (S : Security) {Float : Type 0} (input : Credentials) (w : World Float) (e : DomainError)
    → HasAccounts w
    → (login S input w).0 ≡ err e
    → (e ≡ invalid_credentials)
      ⊎ ((user_id account_id : String) × (S.generate_token user_id account_id ≡ err e))
unfolding login find_user_by_email
login_refuses S input w e h q = elim (Option-cases (find_user_by_email input.email w.users)) [
  | inl n ↦ inl (ground arith)
  | inr (u, n) ↦
      let owned = find-All (IsOwner w.accounts) (λ x. is_same x.email input.email) w.users u h n in
      elim (Option-cases (find_account_by_user_id u.id w.accounts)) [
        | inl m ↦ absurd (cc (owned, m))
        | inr (a, m) ↦ elim (refused_token S input w e u a n m q) [
          | inl same ↦ inl same
          | inr failed ↦ inr (u.id, a.id, failed)
        ]
      ]
]
