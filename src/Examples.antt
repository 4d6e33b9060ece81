-- ===== src/Examples.antt =====
-- A small state to try things on: a platform whose hash and cipher are transparent, one case with two
-- owners, and one item of evidence on its way from the first to the second.
mod Ledgers
mod Custody
mod Access
mod Sharing
mod Approval
mod Signing
mod Accounts
use Prim.Native.String.{◌++◌ as str_append}
use secure_document_manageme.Prelude.{
  ℕ, zero, suc, String, Bool, true, false, ◌==◌, list_eq, nat_eq, Option, none, some, List, [], ◌∷◌,
  ◌++◌,
}
use secure_document_manageme.Ledger.{Bytes}
use secure_document_manageme.Canonical.{codes}
use secure_document_manageme.Db.{
  Db, World, empty_db, Case, CaseStatus, CasePriority, CaseMember, CaseRole, Evidence,
  EvidenceStatus, EvidenceArtifact, IntegrityStatus, CustodyEvent, CustodyRow, CustodyAction,
  CustodyStatus,
}
use secure_document_manageme.Service.{Platform, User}
use secure_document_manageme.Crypto.Rsa.{Rsa}
use secure_document_manageme.Tokens.{Claims, Identity}

abbrev uuid_of : ℕ → String
uuid_of zero = "id"
uuid_of (suc n) = str_append "x" (uuid_of n)

abbrev pub bytes_of : ℕ → Bytes
bytes_of zero = []
bytes_of (suc n) = 0 ∷ bytes_of n

abbrev pub plain : Platform
plain = record {
  uuid = uuid_of;
  sha256 = λ b. b;
  random_iv = λ n. bytes_of 12;
  aes_key = codes;
  aes_seal = λ k iv m. (bytes_of 16, m);
  aes_open = λ k iv tag c. some c;
  master_key = "secret";
  encryption_key_id = "k0";
  full_year = λ now. 2026;
}

abbrev pub clear_rsa : Rsa
clear_rsa = record {
  generate = λ n. (codes "public", codes "private");
  sign = λ text key. some text;
  verify = λ text signature key. some (text == signature);
  random_code = λ n. codes "code";
}

abbrev pub clear_identity : Identity
clear_identity = record {
  random_token = λ n. codes "token";
  random_secret = λ n. codes "secret";
  random_salt = λ n. codes "salt";
  scrypt = λ password salt len n r p. some (codes password);
  jwt_sign = λ claims now. codes claims.subject;
  jwt_verify = λ token now. none;
  totp_check = λ secret token now. some true;
  lockout_threshold = 3;
  refresh_ttl = codes "7d";
  invitation_ttl = codes "48h";
}

abbrev pub giver : User
giver = record { id = "giver"; roles = "DISTRICT_ADMIN" ∷ [] }

abbrev pub taker : User
taker = record { id = "taker"; roles = "DISTRICT_OFFICER" ∷ [] }

abbrev pub file_case : Case
file_case = record {
  id = "case";
  case_number = codes "CASE-2026-0001";
  title = "t";
  description = none;
  priority = CasePriority.medium;
  status = CaseStatus.closed;
  owner_id = "giver";
  department_id = none;
  opened_at = 1;
  closed_at = some 3;
  archived_at = none;
}

abbrev pub owner_row : String → String → CaseMember
owner_row id user = record {
  id = id;
  case_id = "case";
  user_id = user;
  case_role = CaseRole.owner;
  added_by = none;
  joined_at = 1;
  revoked_at = none;
}

abbrev pub item : Evidence
item = record {
  id = "item";
  case_id = "case";
  evidence_number = codes "EV-2026-0001-01";
  title = "knife";
  description = none;
  category = none;
  status = EvidenceStatus.archived;
  current_custodian_id = "giver";
  current_location = none;
  created_by = "giver";
}

abbrev pub photo : EvidenceArtifact
photo = record {
  id = "photo";
  evidence_id = "item";
  storage_key = "key";
  sha256_hash = codes "jpeg";
  file_name = "p.jpg";
  mime_type = "image/jpeg";
  size_bytes = 4;
  integrity_status = IntegrityStatus.unknown;
  created_at = 2;
}

abbrev pub transfer : CustodyRow
transfer = record {
  id = "transfer";
  event = record {
    evidence_id = "item";
    from_user_id = some "giver";
    to_user_id = some "taker";
    action = CustodyAction.transfer_request;
    reason = none;
    status = CustodyStatus.pending;
    integrity_verified = false;
    from_location = none;
    to_location = some "lab";
    previous_hash = none;
    created_by = "giver";
    created_at = 2;
  };
  event_hash = codes "h";
}

abbrev pub envelope : Bytes
envelope = 1 ∷ (bytes_of 12 ++ (bytes_of 16 ++ codes "jpeg"))

abbrev pub scene : World
scene = record {
  db = record empty_db {
    cases = file_case ∷ [];
    case_members = owner_row "m2" "taker" ∷ owner_row "m1" "giver" ∷ [];
    evidence = item ∷ [];
    evidence_artifacts = photo ∷ [];
    custody_events = transfer ∷ [];
  };
  objects = ("key", envelope) ∷ [];
  drawn = 0;
  audit_sequence = 0;
  now = 9;
}

-- The same with the item under seal.
abbrev pub sealed_scene : World
sealed_scene = record scene {
  db = record (scene.db) { evidence = record item { status = EvidenceStatus.sealed } ∷ [] };
}
