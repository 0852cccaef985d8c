-- ===== src/Application/SubmitKyc/Verified.antt =====
-- A submission verifies the account, for the compliance check of a remittance.
use money_across_borders.Base.{
  String, true, some, List, ◌≡◌, ◌≢◌, ap, inr, is_same, is_same_refl, find-upsert, if◌then◌else◌,
  arith,
}
use money_across_borders.Domain.Errors.{ok, ◌>>=◌}
use money_across_borders.Domain.Money.{Money}
use money_across_borders.Domain.Entities.{KycProfile}
use money_across_borders.Domain.Statuses.{kyc_verified}
use money_across_borders.Store.{World, Environment}
use money_across_borders.Store.Repositories.{save_profile, find_profile_by_account_id}
use money_across_borders.Application.SubmitKyc.{SubmitKycInput, submit_kyc}
use money_across_borders.Infra.Compliance.{check, check_approves_iff}

find-save_profile :
    (id : String) (p : KycProfile) (ps : List KycProfile)
    → find_profile_by_account_id id (save_profile p ps)
      ≡ (if is_same p.account_id id then some p else find_profile_by_account_id id ps)
unfolding find_profile_by_account_id save_profile
find-save_profile id p ps = find-upsert (λ (x : KycProfile). x.account_id) id p ps

module _ (E : Environment) {Float : Type 0} (input : SubmitKycInput) (w : World Float)
    (p : KycProfile) (submitted : (submit_kyc E input w).0 ≡ ok p) where
  -- What a submission that returns has written.
  profile_saved :
      ((submit_kyc E input w).1.profiles ≡ save_profile p w.profiles)
      × (p.account_id ≡ input.account_id)
      × (p.status ≡ kyc_verified)
  unfolding submit_kyc
  profile_saved = ground (arith, submitted)

  -- After a KYC submission that succeeds, the compliance checker approves every amount of that
  -- account, and the profile found for any other account is what it was.
  pub submit_kyc_approves :
      (amount : Money) (other : String)
      → other ≢ input.account_id
      → let after = (submit_kyc E input w).1 in
        ((check input.account_id amount after >>= λ r. ok r.approved) ≡ ok true)
        × (find_profile_by_account_id other after.profiles
            ≡ find_profile_by_account_id other w.profiles)
  submit_kyc_approves amount other h =
      let (saved, owned, verified) = profile_saved in
      let found : find_profile_by_account_id input.account_id (submit_kyc E input w).1.profiles
          ≡ some p =
        ground (
          arith,
          saved,
          owned,
          find-save_profile input.account_id p w.profiles,
          is_same_refl input.account_id,
        ) in
      (
        (check_approves_iff input.account_id amount (submit_kyc E input w).1).1
            (inr (p, found, ap (λ s. s.id) verified)),
        ground (arith, saved, owned, h, find-save_profile other p w.profiles),
      )

  -- A KYC submission that succeeds for an account with a profile keeps the id and the creation
  -- date of that profile, and the submitted profile is what is found for the account from then
  -- on.
  pub submit_kyc_keeps_id :
      (old : KycProfile)
      → find_profile_by_account_id input.account_id w.profiles ≡ some old
      → (p.id ≡ old.id)
        × (p.created_at ≡ old.created_at)
        × (find_profile_by_account_id input.account_id (submit_kyc E input w).1.profiles ≡ some p)
  unfolding submit_kyc
  submit_kyc_keeps_id old h = ground (
    arith,
    submitted,
    find-save_profile input.account_id p w.profiles,
    is_same_refl input.account_id,
  )
