-- ===== src/Invariants/Lasting/Defs.antt =====
-- What lasts of each row, of each table and of the database.
use mxtng_auth_services.Common.{◌≡◌, ◌∙◌, refl, Bool, true}
use mxtng_auth_services.Models.{
  Db, Credential, RefreshToken, PasswordResetToken, SignInChallenge, OAuthState, AuthAuditLog,
  Session,
}
use mxtng_auth_services.Invariants.Lasting.Rows.{Grows, Grows-refl, Grows-trans}

-- A flag that is never taken back.
abbrev pub Stays : Bool → Bool → Type 0
Stays a b = a ≡ true → b ≡ true

pub record CredentialLasts (c d : Credential) : Type 0 where
  pub id : d.id ≡ c.id
  pub auth_user_id : d.auth_user_id ≡ c.auth_user_id
  pub disabled : Stays c.disabled d.disabled

pub record SessionLasts (c d : Session) : Type 0 where
  pub session_id : d.session_id ≡ c.session_id
  pub owner : d.credential_id ≡ c.credential_id
  pub revoked : Stays c.revoked d.revoked

pub record TokenLasts (c d : RefreshToken) : Type 0 where
  pub token_hash : d.token_hash ≡ c.token_hash
  pub family : d.family_id ≡ c.family_id
  pub owner : d.credential_id ≡ c.credential_id
  pub revoked : Stays c.revoked d.revoked
  pub rotated : Stays c.rotated d.rotated

pub record ChallengeLasts (c d : SignInChallenge) : Type 0 where
  pub challenge_id : d.challenge_id ≡ c.challenge_id
  pub owner : d.credential_id ≡ c.credential_id
  pub consumed : Stays c.consumed d.consumed

pub record ResetLasts (c d : PasswordResetToken) : Type 0 where
  pub token_hash : d.token_hash ≡ c.token_hash
  pub owner : d.credential_id ≡ c.credential_id
  pub used : Stays c.used d.used

pub record StateLasts (c d : OAuthState) : Type 0 where
  pub state_hash : d.state_hash ≡ c.state_hash
  pub expires_at : d.expires_at ≡ c.expires_at
  pub consumed : Stays c.consumed d.consumed

abbrev pub Same : AuthAuditLog → AuthAuditLog → Type 0
Same c d = c ≡ d

-- The database `d` comes after `c`.
pub record Lasts (c d : Db) : Type 0 where
  pub credentials : Grows CredentialLasts c.credentials d.credentials
  pub refresh_tokens : Grows TokenLasts c.refresh_tokens d.refresh_tokens
  pub reset_tokens : Grows ResetLasts c.reset_tokens d.reset_tokens
  pub challenges : Grows ChallengeLasts c.challenges d.challenges
  pub oauth_states : Grows StateLasts c.oauth_states d.oauth_states
  pub audit_log : Grows Same c.audit_log d.audit_log
  pub sessions : Grows SessionLasts c.sessions d.sessions

pub CredentialLasts-refl : (c : Credential) → CredentialLasts c c
CredentialLasts-refl c = record { id = refl; auth_user_id = refl; disabled = λ h. h }

pub SessionLasts-refl : (c : Session) → SessionLasts c c
SessionLasts-refl c = record { session_id = refl; owner = refl; revoked = λ h. h }

pub TokenLasts-refl : (c : RefreshToken) → TokenLasts c c
TokenLasts-refl c = record {
  token_hash = refl;
  family = refl;
  owner = refl;
  revoked = λ h. h;
  rotated = λ h. h;
}

pub ChallengeLasts-refl : (c : SignInChallenge) → ChallengeLasts c c
ChallengeLasts-refl c = record { challenge_id = refl; owner = refl; consumed = λ h. h }

pub ResetLasts-refl : (c : PasswordResetToken) → ResetLasts c c
ResetLasts-refl c = record { token_hash = refl; owner = refl; used = λ h. h }

pub StateLasts-refl : (c : OAuthState) → StateLasts c c
StateLasts-refl c = record { state_hash = refl; expires_at = refl; consumed = λ h. h }

pub Lasts-refl : (c : Db) → Lasts c c
Lasts-refl c = record {
  credentials = Grows-refl CredentialLasts CredentialLasts-refl c.credentials;
  refresh_tokens = Grows-refl TokenLasts TokenLasts-refl c.refresh_tokens;
  reset_tokens = Grows-refl ResetLasts ResetLasts-refl c.reset_tokens;
  challenges = Grows-refl ChallengeLasts ChallengeLasts-refl c.challenges;
  oauth_states = Grows-refl StateLasts StateLasts-refl c.oauth_states;
  audit_log = Grows-refl Same (λ r. refl) c.audit_log;
  sessions = Grows-refl SessionLasts SessionLasts-refl c.sessions;
}

CredentialLasts-trans :
    (c d e : Credential) → CredentialLasts c d → CredentialLasts d e → CredentialLasts c e
CredentialLasts-trans c d e h k = record {
  id = k.id ∙ h.id;
  auth_user_id = k.auth_user_id ∙ h.auth_user_id;
  disabled = λ x. k.disabled (h.disabled x);
}

SessionLasts-trans : (c d e : Session) → SessionLasts c d → SessionLasts d e → SessionLasts c e
SessionLasts-trans c d e h k = record {
  session_id = k.session_id ∙ h.session_id;
  owner = k.owner ∙ h.owner;
  revoked = λ x. k.revoked (h.revoked x);
}

pub TokenLasts-trans : (c d e : RefreshToken) → TokenLasts c d → TokenLasts d e → TokenLasts c e
TokenLasts-trans c d e h k = record {
  token_hash = k.token_hash ∙ h.token_hash;
  family = k.family ∙ h.family;
  owner = k.owner ∙ h.owner;
  revoked = λ x. k.revoked (h.revoked x);
  rotated = λ x. k.rotated (h.rotated x);
}

ChallengeLasts-trans :
    (c d e : SignInChallenge) → ChallengeLasts c d → ChallengeLasts d e → ChallengeLasts c e
ChallengeLasts-trans c d e h k = record {
  challenge_id = k.challenge_id ∙ h.challenge_id;
  owner = k.owner ∙ h.owner;
  consumed = λ x. k.consumed (h.consumed x);
}

ResetLasts-trans : (c d e : PasswordResetToken) → ResetLasts c d → ResetLasts d e → ResetLasts c e
ResetLasts-trans c d e h k = record {
  token_hash = k.token_hash ∙ h.token_hash;
  owner = k.owner ∙ h.owner;
  used = λ x. k.used (h.used x);
}

StateLasts-trans : (c d e : OAuthState) → StateLasts c d → StateLasts d e → StateLasts c e
StateLasts-trans c d e h k = record {
  state_hash = k.state_hash ∙ h.state_hash;
  expires_at = k.expires_at ∙ h.expires_at;
  consumed = λ x. k.consumed (h.consumed x);
}

pub Lasts-trans : (c d e : Db) → Lasts c d → Lasts d e → Lasts c e
Lasts-trans c d e h k = record {
  credentials = Grows-trans CredentialLasts CredentialLasts-trans _ _ _ h.credentials k.credentials;
  refresh_tokens = Grows-trans TokenLasts TokenLasts-trans _ _ _ h.refresh_tokens k.refresh_tokens;
  reset_tokens = Grows-trans ResetLasts ResetLasts-trans _ _ _ h.reset_tokens k.reset_tokens;
  challenges = Grows-trans ChallengeLasts ChallengeLasts-trans _ _ _ h.challenges k.challenges;
  oauth_states = Grows-trans StateLasts StateLasts-trans _ _ _ h.oauth_states k.oauth_states;
  audit_log = Grows-trans Same (λ x y z p q. p ∙ q) _ _ _ h.audit_log k.audit_log;
  sessions = Grows-trans SessionLasts SessionLasts-trans _ _ _ h.sessions k.sessions;
}
