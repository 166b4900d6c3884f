-- ===== src/Invariants/Lasting/Assignments.antt =====
-- The assignments of the services to a row, one by one.
use mxtng_auth_services.Common.{ℕ, true, String, refl, ◌+◌, some, leb, inl, inr, Bool-cases}
use mxtng_auth_services.Models.{
  RefreshToken, OAuthState, Datetime, Credential, SignInChallenge, PasswordResetToken, Session,
}
use mxtng_auth_services.Settings.{Settings}
use mxtng_auth_services.Services.Login.{count_failure, clear_failures}
use mxtng_auth_services.Services.Challenge.{
  consume, renew_challenge, count_attempt, count_wrong_code, mark_verified,
}
use mxtng_auth_services.Services.Reset.{set_password, use_token}
use mxtng_auth_services.Services.Refresh.{touch}
use mxtng_auth_services.Services.Google.{verify_email, link_google}
use mxtng_auth_services.Services.Admin.{set_email, disable}
use mxtng_auth_services.Invariants.Lasting.Defs.{
  CredentialLasts, SessionLasts, TokenLasts, StateLasts, ChallengeLasts, ResetLasts,
}
use mxtng_auth_services.Services.Sessions.{revoke_token, end_session}
use mxtng_auth_services.Services.OAuth.{burn}

pub clear_failures-Lasts : (x : Credential) → CredentialLasts x (clear_failures x)
unfolding clear_failures
clear_failures-Lasts x = record { id = refl; auth_user_id = refl; disabled = λ h. h }

pub count_failure-Lasts :
    (cfg : Settings) (at : Datetime) (x : Credential) → CredentialLasts x (count_failure cfg at x)
unfolding count_failure
count_failure-Lasts cfg at x =
    elim (Bool-cases (leb cfg.max_failed_logins (x.failed_attempts + 1))) [
      | inl e ↦ rw e (record { id = refl; auth_user_id = refl; disabled = λ h. h })
      | inr e ↦ rw e (record { id = refl; auth_user_id = refl; disabled = λ h. h })
    ]

pub count_wrong_code-Lasts :
    (cfg : Settings) (at : Datetime) (x : Credential)
    → CredentialLasts x (count_wrong_code cfg at x)
unfolding count_wrong_code
count_wrong_code-Lasts cfg at x =
    elim (Bool-cases (leb cfg.max_failed_logins (x.failed_attempts + 1))) [
      | inl e ↦ rw e (record { id = refl; auth_user_id = refl; disabled = λ h. h })
      | inr e ↦ rw e (record { id = refl; auth_user_id = refl; disabled = λ h. h })
    ]

pub mark_verified-Lasts : (at : Datetime) (x : Credential) → CredentialLasts x (mark_verified at x)
unfolding mark_verified
mark_verified-Lasts at x = record { id = refl; auth_user_id = refl; disabled = λ h. h }

pub set_password-Lasts : (hash : String) (x : Credential) → CredentialLasts x (set_password hash x)
unfolding set_password
set_password-Lasts hash x = record { id = refl; auth_user_id = refl; disabled = λ h. h }

pub verify_email-Lasts : (at : Datetime) (x : Credential) → CredentialLasts x (verify_email at x)
unfolding verify_email
verify_email-Lasts at x = record { id = refl; auth_user_id = refl; disabled = λ h. h }

pub link_google-Lasts :
    (sub : String) (at : Datetime) (x : Credential) → CredentialLasts x (link_google sub at x)
unfolding link_google
link_google-Lasts sub at x = record { id = refl; auth_user_id = refl; disabled = λ h. h }

pub set_email-Lasts : (email : String) (x : Credential) → CredentialLasts x (set_email email x)
unfolding set_email
set_email-Lasts email x = record { id = refl; auth_user_id = refl; disabled = λ h. h }

pub disable-Lasts : (x : Credential) → CredentialLasts x (disable x)
unfolding disable
disable-Lasts x = record { id = refl; auth_user_id = refl; disabled = λ h. refl }

pub consume-Lasts : (x : SignInChallenge) → ChallengeLasts x (consume x)
unfolding consume
consume-Lasts x = record { challenge_id = refl; owner = refl; consumed = λ h. refl }

pub renew_challenge-Lasts :
    (cfg : Settings) (at : Datetime) (hash : String) (x : SignInChallenge)
    → ChallengeLasts x (renew_challenge cfg at hash x)
unfolding renew_challenge
renew_challenge-Lasts cfg at hash x = record {
  challenge_id = refl;
  owner = refl;
  consumed = λ h. h;
}

pub count_attempt-Lasts :
    (cfg : Settings) (owner : Credential) (x : SignInChallenge)
    → ChallengeLasts x (count_attempt cfg owner x)
unfolding count_attempt
count_attempt-Lasts cfg owner x = record {
  challenge_id = refl;
  owner = refl;
  consumed = λ h. rw h refl;
}

pub use_token-Lasts : (x : PasswordResetToken) → ResetLasts x (use_token x)
unfolding use_token
use_token-Lasts x = record { token_hash = refl; owner = refl; used = λ h. refl }

pub touch-Lasts : (at : Datetime) (x : Session) → SessionLasts x (touch at x)
unfolding touch
touch-Lasts at x = record { session_id = refl; owner = refl; revoked = λ h. h }

pub bind-Lasts :
    (family : String) (x : Session) → SessionLasts x (record x { family_id = some family })
bind-Lasts family x = record { session_id = refl; owner = refl; revoked = λ h. h }

pub revoke_token-Lasts : (t : RefreshToken) → TokenLasts t (revoke_token t)
unfolding revoke_token
revoke_token-Lasts t = record {
  token_hash = refl;
  family = refl;
  owner = refl;
  revoked = λ h. refl;
  rotated = λ h. h;
}

pub end_session-Lasts :
    (reason : String) (at : ℕ) (t : Session) → SessionLasts t (end_session reason at t)
unfolding end_session
end_session-Lasts reason at t = record { session_id = refl; owner = refl; revoked = λ h. refl }

pub rotated-Lasts : (t : RefreshToken) → TokenLasts t (record t { rotated = true })
rotated-Lasts t = record {
  token_hash = refl;
  family = refl;
  owner = refl;
  revoked = λ h. h;
  rotated = λ h. refl;
}

pub burn-Lasts : (t : OAuthState) → StateLasts t (burn t)
unfolding burn
burn-Lasts t = record { state_hash = refl; expires_at = refl; consumed = λ h. refl }

pub ruleset assignment_rules = (
  clear_failures-Lasts, count_failure-Lasts, count_wrong_code-Lasts, mark_verified-Lasts,
  set_password-Lasts, verify_email-Lasts, link_google-Lasts, set_email-Lasts, disable-Lasts,
  consume-Lasts, renew_challenge-Lasts, count_attempt-Lasts, use_token-Lasts, touch-Lasts,
  bind-Lasts, end_session-Lasts,
)
