-- ===== src/Invariants/Closed.antt =====
-- An invariant that every single write keeps, and so every operation.
pub mod Tokens
pub mod AsSteps
use mxtng_auth_services.Common.{ℕ, String, Bool, Option, List, update}
use mxtng_auth_services.Models.{
  Db, Credential, RefreshToken, SignInChallenge, PasswordResetToken, OAuthState, Session,
}
use mxtng_auth_services.World.{World}
use mxtng_auth_services.Action.{modify}
use mxtng_auth_services.Services.Helpers.{
  audit, set_credential, set_challenge, set_reset_token, set_session, add_credential,
  add_refresh_token, add_reset_token, add_challenge, add_oauth_state, add_session,
}
use mxtng_auth_services.Services.OAuth.{burn_open}
use mxtng_auth_services.Services.Challenge.{supersede_challenges}
use mxtng_auth_services.Services.Sessions.{live_of, end_session, revoke_families}
use mxtng_auth_services.Invariants.Keeps.{Keeps}
use mxtng_auth_services.Invariants.Steps.{read_rules}
use mxtng_auth_services.Invariants.Lasting.Defs.{
  CredentialLasts, SessionLasts, TokenLasts, ChallengeLasts, ResetLasts,
}

pub record Closed (P : Db → Type 0) (w : World) : Type 0 where
  pub keeps_audit :
      (event : String) (id : Option ℕ) (email ip detail : Option String)
      → Keeps P w (audit event id email ip detail)
  pub keeps_set_credential :
      (id : ℕ) (f : Credential → Credential)
      → ((x : Credential) → CredentialLasts x (f x))
      → Keeps P w (set_credential id f)
  pub keeps_set_challenge :
      (id : ℕ) (f : SignInChallenge → SignInChallenge)
      → ((x : SignInChallenge) → ChallengeLasts x (f x))
      → Keeps P w (set_challenge id f)
  pub keeps_set_reset_token :
      (id : ℕ) (f : PasswordResetToken → PasswordResetToken)
      → ((x : PasswordResetToken) → ResetLasts x (f x))
      → Keeps P w (set_reset_token id f)
  pub keeps_set_session :
      (id : ℕ) (f : Session → Session)
      → ((x : Session) → SessionLasts x (f x))
      → Keeps P w (set_session id f)
  pub keeps_update_tokens :
      (p : RefreshToken → Bool) (f : RefreshToken → RefreshToken)
      → ((x : RefreshToken) → TokenLasts x (f x))
      → Keeps P w (modify (λ db. record db { refresh_tokens = update p f db.refresh_tokens }))
  pub keeps_revoked :
      (id : ℕ) (reason : String) (at : ℕ) (ss : List Session)
      → Keeps P w (
          modify (λ db. record db {
            sessions = update (live_of id) (end_session reason at) db.sessions;
            refresh_tokens = revoke_families ss db.refresh_tokens;
          }))
  pub keeps_add_credential : (x : Credential) → Keeps P w (add_credential x)
  pub keeps_add_refresh_token : (x : RefreshToken) → Keeps P w (add_refresh_token x)
  pub keeps_add_reset_token : (x : PasswordResetToken) → Keeps P w (add_reset_token x)
  pub keeps_add_oauth_state : (x : OAuthState) → Keeps P w (add_oauth_state x)
  pub keeps_add_session : (x : Session) → Keeps P w (add_session x)
  pub keeps_burn_open : (hash : String) (at : ℕ) → Keeps P w (burn_open hash at)
  pub keeps_supersede_challenges : (id : ℕ) → Keeps P w (supersede_challenges id)

-- The fields as rules.
module _ {P : Db → Type 0} {w : World} (k : Closed P w) where
  pub audit-Keeps :
      (event : String) (id : Option ℕ) (email ip detail : Option String)
      → Keeps P w (audit event id email ip detail)
  audit-Keeps = k.keeps_audit

  pub set_credential-Keeps :
      (id : ℕ) (f : Credential → Credential)
      → ((x : Credential) → CredentialLasts x (f x))
      → Keeps P w (set_credential id f)
  set_credential-Keeps = k.keeps_set_credential

  pub set_challenge-Keeps :
      (id : ℕ) (f : SignInChallenge → SignInChallenge)
      → ((x : SignInChallenge) → ChallengeLasts x (f x))
      → Keeps P w (set_challenge id f)
  set_challenge-Keeps = k.keeps_set_challenge

  pub set_reset_token-Keeps :
      (id : ℕ) (f : PasswordResetToken → PasswordResetToken)
      → ((x : PasswordResetToken) → ResetLasts x (f x))
      → Keeps P w (set_reset_token id f)
  set_reset_token-Keeps = k.keeps_set_reset_token

  pub set_session-Keeps :
      (id : ℕ) (f : Session → Session)
      → ((x : Session) → SessionLasts x (f x))
      → Keeps P w (set_session id f)
  set_session-Keeps = k.keeps_set_session

  pub update_tokens-Keeps :
      (p : RefreshToken → Bool) (f : RefreshToken → RefreshToken)
      → ((x : RefreshToken) → TokenLasts x (f x))
      → Keeps P w (modify (λ db. record db { refresh_tokens = update p f db.refresh_tokens }))
  update_tokens-Keeps = k.keeps_update_tokens

  pub revoked-Keeps :
      (id : ℕ) (reason : String) (at : ℕ) (ss : List Session)
      → Keeps P w (
          modify (λ db. record db {
            sessions = update (live_of id) (end_session reason at) db.sessions;
            refresh_tokens = revoke_families ss db.refresh_tokens;
          }))
  revoked-Keeps = k.keeps_revoked

  pub add_credential-Keeps : (x : Credential) → Keeps P w (add_credential x)
  add_credential-Keeps = k.keeps_add_credential

  pub add_refresh_token-Keeps : (x : RefreshToken) → Keeps P w (add_refresh_token x)
  add_refresh_token-Keeps = k.keeps_add_refresh_token

  pub add_reset_token-Keeps : (x : PasswordResetToken) → Keeps P w (add_reset_token x)
  add_reset_token-Keeps = k.keeps_add_reset_token

  pub add_oauth_state-Keeps : (x : OAuthState) → Keeps P w (add_oauth_state x)
  add_oauth_state-Keeps = k.keeps_add_oauth_state

  pub add_session-Keeps : (x : Session) → Keeps P w (add_session x)
  add_session-Keeps = k.keeps_add_session

  pub burn_open-Keeps : (hash : String) (at : ℕ) → Keeps P w (burn_open hash at)
  burn_open-Keeps = k.keeps_burn_open

  pub supersede_challenges-Keeps : (id : ℕ) → Keeps P w (supersede_challenges id)
  supersede_challenges-Keeps = k.keeps_supersede_challenges

pub ruleset closed_rules = (
  read_rules, audit-Keeps, set_credential-Keeps, set_challenge-Keeps, set_reset_token-Keeps,
  set_session-Keeps, update_tokens-Keeps, revoked-Keeps, add_credential-Keeps,
  add_refresh_token-Keeps, add_reset_token-Keeps, add_oauth_state-Keeps, add_session-Keeps,
  burn_open-Keeps, supersede_challenges-Keeps,
)
