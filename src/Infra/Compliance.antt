-- ===== src/Infra/Compliance.antt =====
-- src/infra/compliance/in-memory-compliance-checker.ts
use money_across_borders.Base.{
  String, ℤ, pos, ◌≤ℤ◌, leb_ℤ, Bool, true, false, Option, none, some, ◌≡◌, ◌↔◌, ◌⊎◌, inl, inr,
  if◌then◌else◌, arith, Option-cases, Bool-cases,
}
use money_across_borders.Domain.Errors.{Result, ok, ◌>>=◌}
use money_across_borders.Domain.Money.{Money}
use money_across_borders.Domain.Entities.{KycProfile}
use money_across_borders.Domain.Statuses.{is_verified}
use money_across_borders.Store.{World}
use money_across_borders.Store.Repositories.{find_profile_by_account_id}
use money_across_borders.Application.SendRemittance.{ComplianceCheckResult}

-- `UNVERIFIED_LIMIT_MINOR_UNITS`
abbrev pub unverified_limit : ℤ
unverified_limit = pos 100000

abbrev approval : ComplianceCheckResult
approval = record { approved = true; reason = none }

abbrev refusal : ComplianceCheckResult
refusal = record {
  approved = false;
  reason = some "amount exceeds the limit allowed without a verified KYC profile";
}

-- `profile && profile.getStatus().isVerified()`
abbrev has_verified : Option KycProfile → Bool
has_verified none = false
has_verified (some profile) = is_verified profile.status

unfoldable pub check :
    {Float : Type 0} → String → Money → World Float → Result ComplianceCheckResult
unfolding is_verified find_profile_by_account_id
check account_id amount w =
    if has_verified (find_profile_by_account_id account_id w.profiles)
    then ok approval
    else if leb_ℤ amount.amount_minor_units unverified_limit
    then ok approval
    else ok refusal

-- The compliance checker approves an amount of an account exactly if the amount is at most
-- 100000 minor units or the account has a profile whose status is verified.
pub check_approves_iff :
    {Float : Type 0} (account_id : String) (amount : Money) (w : World Float)
    → ((check account_id amount w >>= λ r. ok r.approved) ≡ ok true) ↔ (
        (amount.amount_minor_units ≤ℤ unverified_limit)
        ⊎ ((p : KycProfile) × (find_profile_by_account_id account_id w.profiles ≡ some p)
            × (p.status.id ≡ 2)))
unfolding check
check_approves_iff account_id amount w =
    elim (Option-cases (find_profile_by_account_id account_id w.profiles)) [
      | inl absent ↦ (λ h. inl (ground arith), ground arith)
      | inr (p, found) ↦ elim (Bool-cases (is_verified p.status)) [
        | inl verified ↦ (λ h. inr (p, found, ground arith), ground arith)
        | inr unverified ↦ (λ h. inl (ground arith), ground arith)
      ]
    ]
