-- ===== src/Invariants/Steps.antt =====
-- What an invariant of the database has to say of the writes and of the larger operations, so that
-- every request keeps it.
pub mod SignIn
pub mod Requests
use mxtng_auth_services.Common.{ℕ, String, true, Option, none, some, update}
use mxtng_auth_services.Models.{Db, Credential, SignInChallenge, PasswordResetToken, OAuthState}
use mxtng_auth_services.World.{World}
use mxtng_auth_services.Action.{Action, modify}
use mxtng_auth_services.Services.Helpers.{
  audit, get_by_email, get_credential, get_by_auth_user_id, set_credential, set_challenge,
  set_reset_token, add_credential, add_reset_token, add_oauth_state,
}
use mxtng_auth_services.Services.OAuth.{burn_open}
use mxtng_auth_services.Services.Challenge.{start_challenge}
use mxtng_auth_services.Services.Refresh.{
  issue_tokens, rotate_refresh, revoke_by_raw, revoke_all_for_credential, revoke_all_by_raw,
}
use mxtng_auth_services.Invariants.Keeps.{Keeps, keeps_rules}
use mxtng_auth_services.Invariants.Security.{security_rules}
use mxtng_auth_services.Invariants.Lasting.Defs.{CredentialLasts, ChallengeLasts, ResetLasts}

pub record Steps (P : Db → Type 0) (w : World) : Type 0 where
  pub keeps_audit :
      (event : String) (id : Option ℕ) (email ip detail : Option String)
      → Keeps P w (audit event id email ip detail)
  pub keeps_set_credential :
      (id : ℕ) (f : Credential → Credential)
      → ((x : Credential) → CredentialLasts x (f x))
      → Keeps P w (set_credential id f)
  pub keeps_set_challenge :
      (id : ℕ) (f : SignInChallenge → SignInChallenge)
      → ((x : SignInChallenge) → ChallengeLasts x (f x))
      → Keeps P w (set_challenge id f)
  pub keeps_set_reset_token :
      (id : ℕ) (f : PasswordResetToken → PasswordResetToken)
      → ((x : PasswordResetToken) → ResetLasts x (f x))
      → Keeps P w (set_reset_token id f)
  pub keeps_add_credential : (x : Credential) → Keeps P w (add_credential x)
  pub keeps_add_reset_token : (x : PasswordResetToken) → Keeps P w (add_reset_token x)
  pub keeps_add_oauth_state : (x : OAuthState) → Keeps P w (add_oauth_state x)
  pub keeps_burn_open : (hash : String) (at : ℕ) → Keeps P w (burn_open hash at)
  pub keeps_start_challenge :
      (y : Credential) (requested : String) (ip : Option String)
      → Keeps P w (start_challenge y requested ip)
  pub keeps_sign_in :
      (y : Credential) (requested : String) (ip ua : Option String)
      → Keeps P w (issue_tokens y requested none none ip ua true)
  pub keeps_rotate_refresh : (raw : String) (ip : Option String) → Keeps P w (rotate_refresh raw ip)
  pub keeps_revoke_by_raw : (raw : String) → Keeps P w (revoke_by_raw raw)
  pub keeps_revoke_all :
      (id : ℕ) (reason : String) → Keeps P w (revoke_all_for_credential id reason)
  pub keeps_revoke_all_by_raw : (raw : String) → Keeps P w (revoke_all_by_raw raw)

module _ {P : Db → Type 0} {w : World} where
  pub Keeps-get_by_email : (email : String) → Keeps P w (get_by_email email)
  unfolding get_by_email
  Keeps-get_by_email email = search keeps_rules

  pub Keeps-get_credential : (id : ℕ) → Keeps P w (get_credential id)
  unfolding get_credential
  Keeps-get_credential id = search keeps_rules

  pub Keeps-get_by_auth_user_id : (id : String) → Keeps P w (get_by_auth_user_id id)
  unfolding get_by_auth_user_id
  Keeps-get_by_auth_user_id id = search keeps_rules

pub ruleset read_rules =
    (security_rules, Keeps-get_by_email, Keeps-get_credential, Keeps-get_by_auth_user_id)

-- The fields as rules.
module _ {P : Db → Type 0} {w : World} (k : Steps P w) where
  pub audit-Keeps :
      (event : String) (id : Option ℕ) (email ip detail : Option String)
      → Keeps P w (audit event id email ip detail)
  audit-Keeps = k.keeps_audit

  pub set_credential-Keeps :
      (id : ℕ) (f : Credential → Credential)
      → ((x : Credential) → CredentialLasts x (f x))
      → Keeps P w (set_credential id f)
  set_credential-Keeps = k.keeps_set_credential

  pub set_challenge-Keeps :
      (id : ℕ) (f : SignInChallenge → SignInChallenge)
      → ((x : SignInChallenge) → ChallengeLasts x (f x))
      → Keeps P w (set_challenge id f)
  set_challenge-Keeps = k.keeps_set_challenge

  pub set_reset_token-Keeps :
      (id : ℕ) (f : PasswordResetToken → PasswordResetToken)
      → ((x : PasswordResetToken) → ResetLasts x (f x))
      → Keeps P w (set_reset_token id f)
  set_reset_token-Keeps = k.keeps_set_reset_token

  pub add_credential-Keeps : (x : Credential) → Keeps P w (add_credential x)
  add_credential-Keeps = k.keeps_add_credential

  pub add_reset_token-Keeps : (x : PasswordResetToken) → Keeps P w (add_reset_token x)
  add_reset_token-Keeps = k.keeps_add_reset_token

  pub add_oauth_state-Keeps : (x : OAuthState) → Keeps P w (add_oauth_state x)
  add_oauth_state-Keeps = k.keeps_add_oauth_state

  pub burn_open-Keeps : (hash : String) (at : ℕ) → Keeps P w (burn_open hash at)
  burn_open-Keeps = k.keeps_burn_open

  pub start_challenge-Keeps :
      (y : Credential) (requested : String) (ip : Option String)
      → Keeps P w (start_challenge y requested ip)
  start_challenge-Keeps = k.keeps_start_challenge

  pub sign_in-Keeps :
      (y : Credential) (requested : String) (ip ua : Option String)
      → Keeps P w (issue_tokens y requested none none ip ua true)
  sign_in-Keeps = k.keeps_sign_in

  pub rotate_refresh-Keeps : (raw : String) (ip : Option String) → Keeps P w (rotate_refresh raw ip)
  rotate_refresh-Keeps = k.keeps_rotate_refresh

  pub revoke_by_raw-Keeps : (raw : String) → Keeps P w (revoke_by_raw raw)
  revoke_by_raw-Keeps = k.keeps_revoke_by_raw

  pub revoke_all-Keeps :
      (id : ℕ) (reason : String) → Keeps P w (revoke_all_for_credential id reason)
  revoke_all-Keeps = k.keeps_revoke_all

  pub revoke_all_by_raw-Keeps : (raw : String) → Keeps P w (revoke_all_by_raw raw)
  revoke_all_by_raw-Keeps = k.keeps_revoke_all_by_raw

pub ruleset step_rules = (
  read_rules, audit-Keeps, set_credential-Keeps, set_challenge-Keeps, set_reset_token-Keeps,
  add_credential-Keeps, add_reset_token-Keeps, add_oauth_state-Keeps, burn_open-Keeps,
  start_challenge-Keeps, sign_in-Keeps, rotate_refresh-Keeps, revoke_by_raw-Keeps, revoke_all-Keeps,
  revoke_all_by_raw-Keeps,
)
