-- ===== src/Application/SubmitKyc.antt =====
-- SubmitKycUseCase of src/application/compliance/uses-cases/submit-kyc-use-case.ts.
pub mod Verified
use money_across_borders.Base.{ℕ, String, Option, none, some, List, []}
use money_across_borders.Domain.Entities.{KycProfile}
use money_across_borders.Domain.Statuses.{kyc_verified}
use money_across_borders.Store.{
  World, Environment, Action, ◌>>=◌, ◌>>◌, pure, lift, modify, generate_id, now, account_id_from,
  KycDossier, KycDossierAttachment,
}
use money_across_borders.Store.Repositories.{save_profile, find_profile_by_account_id, save_dossier}

pub record SubmitKycInput : Type 0 where
  pub account_id : String
  pub full_name : String
  pub document_id : String
  pub document_type : Option String
  pub attachments : Option (List KycDossierAttachment)
  pub notes : Option String

-- `input.attachments ?? []`
abbrev or_empty : Option (List KycDossierAttachment) → List KycDossierAttachment
or_empty none = []
or_empty (some attachments) = attachments

abbrev pub created_at_for : ℕ → Option KycProfile → ℕ
created_at_for at none = at
created_at_for at (some existing) = existing.created_at

module _ (E : Environment) {Float : Type 0} where
  -- `existingProfile ? existingProfile.getId() : KycProfileId.generate()`
  abbrev pub id_for : Option KycProfile → Action Float String
  id_for none = generate_id E
  id_for (some existing) = pure existing.id

  -- The profile that `SubmitKycOutput.from` prints.
  unfoldable pub submit_kyc : SubmitKycInput → Action Float KycProfile
  unfolding account_id_from find_profile_by_account_id save_profile save_dossier
  submit_kyc input = do
    account_id ← lift (account_id_from E input.account_id)
    at ← now E
    existing ← (λ w. pure (find_profile_by_account_id account_id w.profiles) w)
    id ← id_for existing
    let profile : KycProfile = record {
      id = id;
      account_id = account_id;
      status = kyc_verified;
      full_name = input.full_name;
      document_id = input.document_id;
      verified_at = some at;
      created_at = created_at_for at existing;
    }
    modify (λ w. record w { profiles = save_profile profile w.profiles })
    let dossier : KycDossier = record {
      kyc_profile_id = id;
      account_id = input.account_id;
      full_name = input.full_name;
      document_id = input.document_id;
      document_type = input.document_type;
      attachments = or_empty input.attachments;
      notes = input.notes;
      submitted_at = E.to_iso_string at;
    }
    modify (λ w. record w { dossiers = save_dossier dossier w.dossiers })
    pure profile
