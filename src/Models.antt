-- ===== src/Models.antt =====
-- models.py: one record for each table, and the database as the list of its rows, oldest first.
-- A datetime is a number of microseconds since the epoch, in UTC. `updated_at` and the ORM
-- relationships are left out: no code reads them.
use mxtng_auth_services.Common.{ℕ, ◌*◌, String, Bool, Option, List, []}

abbrev pub Datetime : Type 0
Datetime = ℕ

-- `timedelta(seconds=n)`
abbrev pub seconds : ℕ → ℕ
seconds n = n * 1000000

pub record Credential : Type 0 where
  pub id : ℕ
  pub auth_user_id : String
  pub email : String
  pub password_hash : Option String
  pub google_sub : Option String
  pub idempotency_key : Option String
  pub failed_attempts : ℕ
  pub locked_until : Option Datetime
  pub disabled : Bool
  pub email_verified_at : Option Datetime
  pub created_at : Datetime

pub record RefreshToken : Type 0 where
  pub id : ℕ
  pub credential_id : ℕ
  pub family_id : String
  pub token_hash : String
  pub audience : String
  pub expires_at : Datetime
  pub revoked : Bool
  pub rotated : Bool
  pub created_at : Datetime

pub record PasswordResetToken : Type 0 where
  pub id : ℕ
  pub credential_id : ℕ
  pub token_hash : String
  pub expires_at : Datetime
  pub used : Bool
  pub created_at : Datetime

pub record SignInChallenge : Type 0 where
  pub id : ℕ
  pub challenge_id : String
  pub credential_id : ℕ
  pub code_hash : String
  pub audience : String
  pub expires_at : Datetime
  pub attempts : ℕ
  pub sends : ℕ
  pub last_sent_at : Datetime
  pub consumed : Bool
  pub created_at : Datetime

pub record OAuthState : Type 0 where
  pub id : ℕ
  pub state_hash : String
  pub expires_at : Datetime
  pub consumed : Bool
  pub created_at : Datetime

pub record AuthAuditLog : Type 0 where
  pub id : ℕ
  pub credential_id : Option ℕ
  pub event : String
  pub email : Option String
  pub ip : Option String
  pub detail : Option String
  pub created_at : Datetime

pub record Session : Type 0 where
  pub id : ℕ
  pub session_id : String
  pub credential_id : ℕ
  pub audience : String
  pub family_id : Option String
  pub revoked : Bool
  pub revoked_reason : Option String
  pub revoked_at : Option Datetime
  pub ip : Option String
  pub user_agent : Option String
  pub created_at : Datetime
  pub last_seen_at : Datetime

pub record Db : Type 0 where
  pub credentials : List Credential
  pub refresh_tokens : List RefreshToken
  pub reset_tokens : List PasswordResetToken
  pub challenges : List SignInChallenge
  pub oauth_states : List OAuthState
  pub audit_log : List AuthAuditLog
  pub sessions : List Session

abbrev pub empty_db : Db
empty_db = record {
  credentials = [];
  refresh_tokens = [];
  reset_tokens = [];
  challenges = [];
  oauth_states = [];
  audit_log = [];
  sessions = [];
}
