-- ===== src/Tests/Accounts.antt =====
-- Signup, login, wallets and KYC at the sample.
use Prim.Native.String.{◌++◌ as append}
use money_across_borders.Base.{
  ◌⊎◌, String, String_discrete, ℤ, pos, true, none, some, ◌≡◌, refl, is_same, is_same_refl,
  ne_of_is_same,
}
use money_across_borders.Domain.Errors.{invalid, ok, err, ◌>>=◌, invalid_credentials}
use money_across_borders.Domain.Numbers.{Number, integer}
use money_across_borders.Domain.Currency.{from}
use money_across_borders.Domain.Money.{Money, from_minor_units}
use money_across_borders.Domain.Statuses.{active_user, kyc_verified, is_active}
use money_across_borders.Domain.Entities.{KycProfile}
use money_across_borders.Domain.Wallet.{Wallet}
use money_across_borders.Store.{World, account_id_from, run_in_transaction}
use money_across_borders.Store.Repositories.{
  find_user_by_email, find_account_by_user_id, find_by_account_id_and_currency, find_wallet_by_id,
  find_profile_by_account_id, save_wallet, save_profile,
}
use money_across_borders.Application.Accounts.{
  Security, Credentials, Signup, create_account, provision, login,
}
use money_across_borders.Application.Accounts.Joined.{login_after_create_account}
use money_across_borders.Application.Accounts.Owned.{
  HasAccounts, create_account-HasAccounts, login_refuses,
}
use money_across_borders.Application.OpenWallet.{OpenWalletInput, open_wallet}
use money_across_borders.Application.OpenWallet.Unique.{HasOneEach, open_wallet-HasOneEach}
use money_across_borders.Application.SubmitKyc.{SubmitKycInput, submit_kyc}
use money_across_borders.Application.SubmitKyc.Verified.{submit_kyc_approves}
use money_across_borders.Infra.Compliance.{check}
use money_across_borders.Tests.Samples.{environment, usd, wallet, empty_world, world}

abbrev security : Security
security = record {
  hash = append "hash of ";
  compare = λ p h. is_same (append "hash of " p) h;
  generate_token = λ user account. ok (append user account);
}

abbrev ana : Credentials
ana = record { email = "ana@example.com"; password = "secret" }

abbrev signed_up : World ℤ
signed_up = (create_account environment security ana empty_world).1

abbrev joined : Signup
joined = record {
  account = record {
    id = "id-i";
    user_id = some "id-";
    status = record { id = 1 };
    created_at = 1000;
  };
  user = record {
    id = "id-";
    email = "ana@example.com";
    password_hash = "hash of secret";
    status = active_user;
    created_at = 1000;
  };
}

signup : (create_account environment security ana empty_world).0 ≡ ok joined
unfolding create_account provision run_in_transaction find_user_by_email
signup = refl

login_after_create_account_example :
    (login security ana signed_up).0
    ≡ ok (record {
      token = append "id-" "id-i";
      user_id = "id-";
      account_id = "id-i";
      email = "ana@example.com";
    })
unfolding find_account_by_user_id
login_after_create_account_example =
    login_after_create_account environment security ana empty_world joined (append "id-" "id-i")
      (λ p. is_same_refl (append "hash of " p)) refl signup refl

signed_up-HasAccounts : HasAccounts signed_up
signed_up-HasAccounts = create_account-HasAccounts environment security ana empty_world tt

-- Without a secret no token is issued.
abbrev secretless : Security
secretless = record security {
  generate_token = λ user account. err (invalid "JWT_SECRET is not defined");
}

no_secret : (login secretless ana signed_up).0 ≡ err (invalid "JWT_SECRET is not defined")
unfolding login create_account provision run_in_transaction find_user_by_email is_active
    find_account_by_user_id String_discrete
no_secret = refl

login_refuses_example :
    (invalid "JWT_SECRET is not defined" ≡ invalid_credentials)
    ⊎ ((user_id account_id : String) × (secretless.generate_token user_id account_id
          ≡ err (invalid "JWT_SECRET is not defined")))
login_refuses_example =
    login_refuses secretless ana signed_up (invalid "JWT_SECRET is not defined")
      signed_up-HasAccounts no_secret

-- Bia opens a wallet in dollars.
abbrev dollars : OpenWalletInput
dollars = record {
  account_id = "bia";
  currency = "usd";
  initial_balance_minor_units = integer (pos 500);
}

abbrev opened : Wallet
opened = record (wallet "id-" "bia" usd 500) { created_at = 1000 }

abbrev with_opened : World ℤ
with_opened = (open_wallet environment dollars world).1

opens : (open_wallet environment dollars world).0 ≡ ok opened
unfolding open_wallet account_id_from from find_by_account_id_and_currency from_minor_units
    save_wallet String_discrete
opens = refl

world-HasOneEach : HasOneEach world.wallets
unfolding find_by_account_id_and_currency String_discrete
world-HasOneEach = (refl, (refl, (refl, (refl, (refl, tt)))))

new_id : find_wallet_by_id "id-" world.wallets ≡ none
unfolding find_wallet_by_id String_discrete
new_id = refl

open_wallet-HasOneEach_example :
    HasOneEach with_opened.wallets
    × (find_by_account_id_and_currency "bia" usd with_opened.wallets ≡ some opened)
    × (◌≡◌ {A = Number} (integer (pos 500)) (integer (pos 500)))
open_wallet-HasOneEach_example =
    open_wallet-HasOneEach environment dollars world opened new_id world-HasOneEach opens

-- Ana submits her documents, and submits them again.
abbrev documents : SubmitKycInput
documents = record {
  account_id = "ana";
  full_name = "Ana Lima";
  document_id = "123";
  document_type = none;
  attachments = none;
  notes = none;
}

abbrev verified : World ℤ
verified = (submit_kyc environment documents world).1

abbrev profile : KycProfile
profile = record {
  id = "id-";
  account_id = "ana";
  status = kyc_verified;
  full_name = "Ana Lima";
  document_id = "123";
  verified_at = some 1000;
  created_at = 1000;
}

submits : (submit_kyc environment documents world).0 ≡ ok profile
unfolding submit_kyc account_id_from find_profile_by_account_id
submits = refl

abbrev large : Money
large = record { amount_minor_units = pos 1000000; currency = usd }

submit_kyc_approves_example :
    ((check "ana" large verified >>= λ r. ok r.approved) ≡ ok true)
    × (find_profile_by_account_id "bia" verified.profiles
        ≡ find_profile_by_account_id "bia" world.profiles)
unfolding String_discrete
submit_kyc_approves_example =
    submit_kyc_approves environment documents world profile submits large "bia"
      (ne_of_is_same "bia" "ana" refl)

abbrev profile_again : KycProfile
profile_again = record profile { verified_at = some 1001 }

submits_again : (submit_kyc environment documents verified).0 ≡ ok profile_again
unfolding submit_kyc account_id_from find_profile_by_account_id save_profile String_discrete
submits_again = refl

stored : find_profile_by_account_id "ana" verified.profiles ≡ some profile
unfolding submit_kyc account_id_from find_profile_by_account_id save_profile String_discrete
stored = refl
