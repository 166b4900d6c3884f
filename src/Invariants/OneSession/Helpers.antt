-- ===== src/Invariants/OneSession/Helpers.antt =====
-- The audit trail, the lookups and the writes to other tables leave sessions and refresh tokens alone.
use mxtng_auth_services.Common.{ℕ, String, Option}
use mxtng_auth_services.Models.{Credential, SignInChallenge, PasswordResetToken, OAuthState}
use mxtng_auth_services.World.{World}
use mxtng_auth_services.Services.Helpers.{
  audit, get_by_email, get_credential, set_credential, set_challenge, set_reset_token,
  add_credential, add_challenge, add_reset_token, add_oauth_state,
}
use mxtng_auth_services.Invariants.Security.{security_rules}
use mxtng_auth_services.Invariants.Keeps.{Keeps}
use mxtng_auth_services.Invariants.OneSession.Defs.{OneSession, frame_rules}

module _ {w : World} where
  pub Keeps-audit :
      (event : String) (id : Option ℕ) (email ip detail : Option String)
      → Keeps OneSession w (audit event id email ip detail)
  unfolding audit
  Keeps-audit event id email ip detail = search frame_rules

  pub Keeps-get_by_email : (email : String) → Keeps OneSession w (get_by_email email)
  unfolding get_by_email
  Keeps-get_by_email email = search frame_rules

  pub Keeps-get_credential : (id : ℕ) → Keeps OneSession w (get_credential id)
  unfolding get_credential
  Keeps-get_credential id = search frame_rules

  pub Keeps-set_credential :
      (id : ℕ) (f : Credential → Credential) → Keeps OneSession w (set_credential id f)
  unfolding set_credential
  Keeps-set_credential id f = search frame_rules

  pub Keeps-set_challenge :
      (id : ℕ) (f : SignInChallenge → SignInChallenge) → Keeps OneSession w (set_challenge id f)
  unfolding set_challenge
  Keeps-set_challenge id f = search frame_rules

  pub Keeps-set_reset_token :
      (id : ℕ) (f : PasswordResetToken → PasswordResetToken)
      → Keeps OneSession w (set_reset_token id f)
  unfolding set_reset_token
  Keeps-set_reset_token id f = search frame_rules

  pub Keeps-add_credential : (c : Credential) → Keeps OneSession w (add_credential c)
  unfolding add_credential
  Keeps-add_credential c = search frame_rules

  pub Keeps-add_challenge : (c : SignInChallenge) → Keeps OneSession w (add_challenge c)
  unfolding add_challenge
  Keeps-add_challenge c = search frame_rules

  pub Keeps-add_reset_token : (t : PasswordResetToken) → Keeps OneSession w (add_reset_token t)
  unfolding add_reset_token
  Keeps-add_reset_token t = search frame_rules

  pub Keeps-add_oauth_state : (t : OAuthState) → Keeps OneSession w (add_oauth_state t)
  unfolding add_oauth_state
  Keeps-add_oauth_state t = search frame_rules

pub ruleset helper_rules = (
  frame_rules, security_rules, Keeps-audit, Keeps-get_by_email, Keeps-get_credential,
  Keeps-set_credential, Keeps-set_challenge, Keeps-set_reset_token, Keeps-add_credential,
  Keeps-add_challenge, Keeps-add_reset_token, Keeps-add_oauth_state,
)
