-- ===== src/Infra/Seed/Customers.antt =====
-- src/infra/seed/generators/customer-generator.ts
use Prim.Native.String.{◌++◌ as append}
use money_across_borders.Base.{
  ℕ, zero, suc, String, ℤ, pos, pos_part, Bool, false, ◌||◌, some, List, [], ◌∷◌, is_same,
  if◌then◌else◌,
}
use money_across_borders.Domain.Numbers.{Floats}
use money_across_borders.Infra.Seed.Run.{Run, ◌>>=◌, pure}
use money_across_borders.Infra.Seed.Arithmetic.{Arithmetic}
use money_across_borders.Infra.Seed.Rng.{next_int, pick, weighted_pick, uuid}
use money_across_borders.Infra.Seed.Dates.{random_timestamp_in_range}
use money_across_borders.Infra.Seed.Names.{
  first_names, last_names, email_domains, to_lower_case, print,
}
use money_across_borders.Infra.Seed.Types.{
  SeedUserRow, SeedAccountRow, SeedCustomer, SeedConfig, ActivityProfile,
}

pub record CustomerGenerationResult : Type 0 where
  pub users : List SeedUserRow
  pub accounts : List SeedAccountRow
  pub customers : List SeedCustomer

-- `used.has(email)`
abbrev pub has : String → List String → Bool
has email [] = false
has email (e ∷ used) = is_same e email || has email used

-- `${first}.${last}.${suffix}@${domain}`
abbrev email_of : String → String → ℕ → String → String
email_of first last suffix domain =
    append (append (append first ".") (append last ".")) (append (append (print suffix) "@") domain)

module _ (F : Floats) (M : Arithmetic F) where
  -- What is left of the fifty attempts, then the fallback.
  unfoldable pub try_email : ℕ → List String → Run ℕ String
  unfolding pick next_int uuid print
  try_email zero used = do id ← uuid F M; pure (append (append "seed." id) "@seed.test")
  try_email (suc attempts) used = do
    first ← pick F M first_names
    last ← pick F M last_names
    domain ← pick F M email_domains
    suffix ← next_int F M (pos 0) (pos 999999)
    let email = email_of (to_lower_case first) (to_lower_case last) (pos_part suffix) domain
    let retry = try_email attempts used
    if has email used then retry else pure email

  unfoldable pub unique_fake_email : List String → Run ℕ String
  unfolding try_email
  unique_fake_email used = try_email 50 used

-- The hash is that of `SEED_DEFAULT_PASSWORD`, which the hasher gives.
module _ (F : Floats) (M : Arithmetic F) (set_hours : ℤ → ℤ → ℤ → ℤ → ℤ) (password_hash : String)
    (config : SeedConfig F.Float) (now : ℤ) where
  -- One turn of the loop, before the turns that are left.
  abbrev with_customer :
      String
      → String
      → String
      → ActivityProfile
      → ℤ
      → CustomerGenerationResult
      → CustomerGenerationResult
  with_customer user_id account_id email activity_profile created_at rest = record {
    users =
        (record {
          id = user_id;
          email = email;
          password_hash = password_hash;
          status_id = 1;
          created_at = created_at;
        })
        ∷ rest.users;
    accounts =
        (record { id = account_id; user_id = some user_id; status_id = 1; created_at = created_at })
        ∷ rest.accounts;
    customers =
        (record {
          account_id = account_id;
          user_id = user_id;
          activity_profile = activity_profile;
          kyc_verified = false;
          created_at = created_at;
        })
        ∷ rest.customers;
  }

  -- The turns of the loop that are left, with the emails in use.
  unfoldable pub customers_from : ℕ → List String → Run ℕ CustomerGenerationResult
  unfolding random_timestamp_in_range uuid unique_fake_email weighted_pick
  customers_from zero used = pure (record { users = []; accounts = []; customers = [] })
  customers_from (suc n) used = do
    created_at ← random_timestamp_in_range F M set_hours now config.date_range_days
    user_id ← uuid F M
    account_id ← uuid F M
    email ← unique_fake_email F M used
    activity_profile ← weighted_pick F M config.activity_distribution
    rest ← customers_from n (email ∷ used)
    pure (with_customer user_id account_id email activity_profile created_at rest)

  unfoldable pub generate_customers : Run ℕ CustomerGenerationResult
  unfolding customers_from
  generate_customers = customers_from (pos_part config.customers) []
