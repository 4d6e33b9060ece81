-- ===== src/Db/Accounts.antt =====
-- The rows of the tables of users, roles, departments and sessions.
use secure_document_manageme.Prelude.{ℕ, String, Bool, Option}
use secure_document_manageme.Ledger.{Bytes}
use secure_document_manageme.Db.Codes.{UserStatus, InvitationStatus}

-- A row of `users`.
pub record Account : Type 0 where
  pub id : String
  pub username : String
  pub email : String
  pub password_hash : Option Bytes
  pub full_name : Option String
  pub department_id : Option String
  pub rank : Option String
  pub status : UserStatus
  pub failed_login_count : ℕ
  pub mfa_enabled : Bool
  pub last_login_at : Option ℕ
  pub created_at : ℕ

pub record Role : Type 0 where
  pub id : String
  pub name : String

pub record UserRole : Type 0 where
  pub user_id : String
  pub role_id : String

pub record UserInvitation : Type 0 where
  pub id : String
  pub email : String
  pub invited_by : Option String
  pub role_id : String
  pub department_id : Option String
  pub token : Bytes
  pub status : InvitationStatus
  pub expires_at : ℕ
  pub accepted_at : Option ℕ
  pub created_at : ℕ

pub record AuthSession : Type 0 where
  pub id : String
  pub user_id : String
  pub refresh_token_hash : Bytes
  pub issued_at : ℕ
  pub expires_at : ℕ
  pub revoked_at : Option ℕ
  pub ip_address : Option String
  pub user_agent : Option String

pub record LoginAttempt : Type 0 where
  pub id : String
  pub user_id : Option String
  pub username_tried : String
  pub ip_address : Option String
  pub success : Bool
  pub created_at : ℕ

pub record MfaCredential : Type 0 where
  pub id : String
  pub user_id : String
  pub secret : Bytes
  pub verified : Bool
  pub created_at : ℕ

pub record Department : Type 0 where
  pub id : String
  pub name : String
  pub code : String
  pub parent_department_id : Option String
  pub unit_type : Option String
