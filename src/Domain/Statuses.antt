-- ===== src/Domain/Statuses.antt =====
-- The status classes of src/domain: an id with a table of descriptions.
use money_across_borders.Base.{ℕ, String, Bool, ◌==◌, List, [], ◌∷◌, if◌then◌else◌}

-- `statusMap[id] || 'UNKNOWN'`
abbrev describe : List (ℕ × String) → ℕ → String
describe [] id = "UNKNOWN"
describe ((k, s) ∷ m) id = if k == id then s else describe m id

pub record AccountStatus : Type 0 where
  pub id : ℕ

unfoldable pub account_status_description : AccountStatus → String
account_status_description s = describe ((1, "OPEN") ∷ (2, "CLOSED") ∷ (3, "PENDING") ∷ []) s.id

pub record UserStatus : Type 0 where
  pub id : ℕ

abbrev pub active_user : UserStatus
active_user = record { id = 1 }

abbrev pub suspended_user : UserStatus
suspended_user = record { id = 2 }

unfoldable pub is_active : UserStatus → Bool
is_active s = s.id == 1

unfoldable pub user_status_description : UserStatus → String
user_status_description s = describe ((1, "ACTIVE") ∷ (2, "SUSPENDED") ∷ []) s.id

pub record WalletStatus : Type 0 where
  pub id : ℕ

abbrev pub active_wallet : WalletStatus
active_wallet = record { id = 1 }

abbrev pub closed_wallet : WalletStatus
closed_wallet = record { id = 2 }

unfoldable pub wallet_status_description : WalletStatus → String
wallet_status_description s = describe ((1, "ACTIVE") ∷ (2, "CLOSED") ∷ []) s.id

pub record KycStatus : Type 0 where
  pub id : ℕ

abbrev pub kyc_pending : KycStatus
kyc_pending = record { id = 1 }

abbrev pub kyc_verified : KycStatus
kyc_verified = record { id = 2 }

abbrev pub kyc_rejected : KycStatus
kyc_rejected = record { id = 3 }

unfoldable pub is_verified : KycStatus → Bool
is_verified s = s.id == 2

unfoldable pub kyc_status_description : KycStatus → String
kyc_status_description s = describe ((1, "PENDING") ∷ (2, "VERIFIED") ∷ (3, "REJECTED") ∷ []) s.id

pub record RemittanceStatus : Type 0 where
  pub id : ℕ

abbrev pub completed : RemittanceStatus
completed = record { id = 1 }

abbrev pub rejected_compliance : RemittanceStatus
rejected_compliance = record { id = 2 }

abbrev pub rejected_insufficient_funds : RemittanceStatus
rejected_insufficient_funds = record { id = 3 }

abbrev pub failed : RemittanceStatus
failed = record { id = 4 }

unfoldable pub remittance_status_description : RemittanceStatus → String
remittance_status_description s =
    describe
      ((1, "COMPLETED")
        ∷ (2, "REJECTED_COMPLIANCE")
        ∷ (3, "REJECTED_INSUFFICIENT_FUNDS")
        ∷ (4, "FAILED")
        ∷ [])
      s.id

pub record EntryDirection : Type 0 where
  pub id : ℕ

abbrev pub debit : EntryDirection
debit = record { id = 1 }

abbrev pub credit : EntryDirection
credit = record { id = 2 }

unfoldable pub is_debit : EntryDirection → Bool
is_debit d = d.id == 1

unfoldable pub is_credit : EntryDirection → Bool
is_credit d = d.id == 2

unfoldable pub entry_direction_description : EntryDirection → String
entry_direction_description d = describe ((1, "DEBIT") ∷ (2, "CREDIT") ∷ []) d.id
