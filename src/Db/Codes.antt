-- ===== src/Db/Codes.antt =====
-- The enumerations of the columns of signatures, verification and users, as Db.Enums has the others.
use secure_document_manageme.Prelude.{ℕ, ◌≡◌, ◌↔◌, true, Equality, Bool, nat_beq, arith}

pub data KeyStatus : Type 0 where
  active revoked : KeyStatus

pub data SignatureStatus : Type 0 where
  pending signed declined : SignatureStatus

pub data VerificationResult : Type 0 where
  authentic tampered superseded : VerificationResult

pub data VerificationSource : Type 0 where
  internal external : VerificationSource

pub data UserStatus : Type 0 where
  invited active inactive locked : UserStatus

abbrev key_status_ordinal : KeyStatus → ℕ
key_status_ordinal KeyStatus.active = 0
key_status_ordinal KeyStatus.revoked = 1

abbrev pub key_status_beq : KeyStatus → KeyStatus → Bool
key_status_beq a b = nat_beq (key_status_ordinal a) (key_status_ordinal b)

pub key_status_beq_iff : (a b : KeyStatus) → (key_status_beq a b ≡ true) ↔ (a ≡ b)
key_status_beq_iff a b = ground arith

instance abbrev pub key_status_eq : Equality KeyStatus
key_status_eq = record { equals = key_status_beq; equals_iff = key_status_beq_iff }

abbrev signature_status_ordinal : SignatureStatus → ℕ
signature_status_ordinal SignatureStatus.pending = 0
signature_status_ordinal SignatureStatus.signed = 1
signature_status_ordinal SignatureStatus.declined = 2

abbrev pub signature_status_beq : SignatureStatus → SignatureStatus → Bool
signature_status_beq a b = nat_beq (signature_status_ordinal a) (signature_status_ordinal b)

pub signature_status_beq_iff : (a b : SignatureStatus) → (signature_status_beq a b ≡ true) ↔ (a ≡ b)
signature_status_beq_iff a b = ground arith

instance abbrev pub signature_status_eq : Equality SignatureStatus
signature_status_eq = record {
  equals = signature_status_beq;
  equals_iff = signature_status_beq_iff;
}

abbrev verification_result_ordinal : VerificationResult → ℕ
verification_result_ordinal VerificationResult.authentic = 0
verification_result_ordinal VerificationResult.tampered = 1
verification_result_ordinal VerificationResult.superseded = 2

abbrev pub verification_result_beq : VerificationResult → VerificationResult → Bool
verification_result_beq a b =
    nat_beq (verification_result_ordinal a) (verification_result_ordinal b)

pub verification_result_beq_iff :
    (a b : VerificationResult) → (verification_result_beq a b ≡ true) ↔ (a ≡ b)
verification_result_beq_iff a b = ground arith

instance abbrev pub verification_result_eq : Equality VerificationResult
verification_result_eq = record {
  equals = verification_result_beq;
  equals_iff = verification_result_beq_iff;
}

abbrev user_status_ordinal : UserStatus → ℕ
user_status_ordinal UserStatus.invited = 0
user_status_ordinal UserStatus.active = 1
user_status_ordinal UserStatus.inactive = 2
user_status_ordinal UserStatus.locked = 3

abbrev pub user_status_beq : UserStatus → UserStatus → Bool
user_status_beq a b = nat_beq (user_status_ordinal a) (user_status_ordinal b)

pub user_status_beq_iff : (a b : UserStatus) → (user_status_beq a b ≡ true) ↔ (a ≡ b)
user_status_beq_iff a b = ground arith

instance abbrev pub user_status_eq : Equality UserStatus
user_status_eq = record { equals = user_status_beq; equals_iff = user_status_beq_iff }

pub data InvitationStatus : Type 0 where
  pending accepted expired revoked : InvitationStatus

abbrev invitation_status_ordinal : InvitationStatus → ℕ
invitation_status_ordinal InvitationStatus.pending = 0
invitation_status_ordinal InvitationStatus.accepted = 1
invitation_status_ordinal InvitationStatus.expired = 2
invitation_status_ordinal InvitationStatus.revoked = 3

abbrev pub invitation_status_beq : InvitationStatus → InvitationStatus → Bool
invitation_status_beq a b = nat_beq (invitation_status_ordinal a) (invitation_status_ordinal b)

pub invitation_status_beq_iff :
    (a b : InvitationStatus) → (invitation_status_beq a b ≡ true) ↔ (a ≡ b)
invitation_status_beq_iff a b = ground arith

instance abbrev pub invitation_status_eq : Equality InvitationStatus
invitation_status_eq = record {
  equals = invitation_status_beq;
  equals_iff = invitation_status_beq_iff;
}
