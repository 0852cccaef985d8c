-- ===== src/Infra/Seed/Kyc.antt =====
-- src/infra/seed/generators/kyc-generator.ts
use Prim.Native.String.{◌++◌ as append}
use money_across_borders.Base.{ℕ, ℤ, Bool, true, false, none, some, List, [], ◌∷◌, if◌then◌else◌}
use money_across_borders.Domain.Numbers.{Floats}
use money_across_borders.Infra.Seed.Run.{Run, ◌>>=◌, pure}
use money_across_borders.Infra.Seed.Arithmetic.{Arithmetic}
use money_across_borders.Infra.Seed.Rng.{pick, weighted_pick, uuid}
use money_across_borders.Infra.Seed.Dates.{random_timestamp_between}
use money_across_borders.Infra.Seed.Names.{first_names, last_names, fake_document_id}
use money_across_borders.Infra.Seed.Types.{
  SeedKycProfileRow, SeedCustomer, SeedConfig, KycOutcome, verified, pending, rejected,
}

-- `KYC_STATUS_ID`
unfoldable pub kyc_status_id : KycOutcome → ℕ
kyc_status_id pending = 1
kyc_status_id verified = 2
kyc_status_id rejected = 3

abbrev is_verified : KycOutcome → Bool
is_verified verified = true
is_verified pending = false
is_verified rejected = false

module _ (F : Floats) (M : Arithmetic F) (config : SeedConfig F.Float) (now : ℤ) where
  -- The customers with their flag set, and the rows.
  unfoldable pub generate_kyc_profiles :
      List SeedCustomer → Run ℕ (List SeedCustomer × List SeedKycProfileRow)
  unfolding weighted_pick random_timestamp_between uuid pick fake_document_id kyc_status_id
  generate_kyc_profiles [] = pure ([], [])
  generate_kyc_profiles (customer ∷ customers) = do
    status ← weighted_pick F M config.kyc_distribution
    created_at ← random_timestamp_between F M customer.created_at now
    id ← uuid F M
    first ← pick F M first_names
    last ← pick F M last_names
    document ← uuid F M
    rest ← generate_kyc_profiles customers
    pure (
      record customer { kyc_verified = is_verified status } ∷ rest.0,
      record {
        id = id;
        account_id = customer.account_id;
        status_id = kyc_status_id status;
        full_name = append (append first " ") last;
        document_id = fake_document_id document;
        verified_at = if is_verified status then some created_at else none;
        created_at = created_at;
      }
          ∷ rest.1,
    )
