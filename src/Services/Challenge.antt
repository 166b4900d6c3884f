-- ===== src/Services/Challenge.antt =====
-- services.py, sign-in challenges: start, resend and verify.
pub mod Codes
use mxtng_auth_services.Common.{
  ℕ, ◌+◌, String, Bool, true, false, not, ◌&&◌, ◌||◌, Option, none, some, find?, update, str_eq,
  ◌==◌, ltb, leb, if◌then◌else◌,
}
use mxtng_auth_services.Text.{take}
use mxtng_auth_services.Models.{Datetime, seconds, SignInChallenge, Credential}
use mxtng_auth_services.Errors.{
  invalid_challenge, resend_too_soon, account_disabled, account_locked, mail_delivery_failed,
}
use mxtng_auth_services.Settings.{Settings}
use mxtng_auth_services.Action.{
  Action, pure, raise, asks, query, draw, modify, now, commit, when, or_else, ◌>>=◌, ◌>>◌,
}
use mxtng_auth_services.Security.{new_sign_in_code, hash_sign_in_code, verify_sign_in_code}
use mxtng_auth_services.Tokens.{resolve_audience}
use mxtng_auth_services.Mail.{Sent, on_failure, send}
use mxtng_auth_services.Mail.Render.{render_sign_in_code}
use mxtng_auth_services.Services.Helpers.{
  audit, get_credential, set_credential, set_challenge, add_challenge,
}
use mxtng_auth_services.Services.Login.{is_locked, clear_failures}
use mxtng_auth_services.Services.Refresh.{issue_tokens}

unfoldable pub consume : SignInChallenge → SignInChallenge
consume c = record c { consumed = true }

-- The challenges of a credential that are still open.
abbrev pub open_of : ℕ → SignInChallenge → Bool
open_of credential_id c = c.credential_id == credential_id && not c.consumed

-- `_supersede_challenges`
unfoldable pub supersede_challenges : ℕ → Action (Unit {0})
supersede_challenges credential_id =
    modify (λ db. record db { challenges = update (open_of credential_id) consume db.challenges })

-- `_mail_sign_in_code`
unfoldable pub mail_sign_in_code : Credential → String → Action Sent
mail_sign_in_code credential code = do
  w ← asks (λ w. w)
  at ← now
  send credential.email (render_sign_in_code w code w.settings.otp_ttl_seconds at) "sign_in_code"
      "inline"

-- `except mail.MailUndeliverable` of `start_challenge`: the challenge is retired.
unfoldable pub retire_challenge : ℕ → Credential → String → Option String → Action (Unit {0})
retire_challenge id credential reason ip = do
  set_challenge id consume
  audit "otp_send_failed" (some credential.id) (some credential.email) ip (some (take 400 reason))
  commit
  raise (mail_delivery_failed "Could not send your sign-in code. Try again shortly.")

unfoldable pub start_challenge : Credential → String → Option String → Action SignInChallenge
start_challenge credential requested ip = do
  cfg ← asks (λ w. w.settings)
  let audience = resolve_audience cfg requested
  supersede_challenges credential.id
  code ← new_sign_in_code cfg.otp_code_length
  code_hash ← hash_sign_in_code code
  id ← draw (λ w n. n)
  challenge_id ← draw (λ w n. w.uuid4 n)
  at ← now
  let challenge : SignInChallenge = record {
    id = id;
    challenge_id = challenge_id;
    credential_id = credential.id;
    code_hash = code_hash;
    audience = audience;
    expires_at = at + seconds cfg.otp_ttl_seconds;
    attempts = 0;
    sends = 1;
    last_sent_at = at;
    consumed = false;
    created_at = at;
  }
  add_challenge challenge
  commit
  outcome ← mail_sign_in_code credential code
  on_failure outcome (λ reason. retire_challenge id credential reason ip)
  audit "otp_challenged" (some credential.id) (some credential.email) ip none
  commit
  pure challenge

abbrev pub by_challenge_id : String → SignInChallenge → Bool
by_challenge_id challenge_id c = str_eq c.challenge_id challenge_id

unfoldable pub find_challenge : String → Action (Option SignInChallenge)
find_challenge challenge_id = query (λ db. find? (by_challenge_id challenge_id) db.challenges)

-- `_load_live_challenge`
unfoldable pub load_live_challenge : String → Action SignInChallenge
load_live_challenge challenge_id = do
  found ← find_challenge challenge_id
  challenge ← or_else found (raise (invalid_challenge "Invalid or expired sign-in code"))
  at ← now
  when (challenge.consumed || ltb challenge.expires_at at)
      (raise (invalid_challenge "Invalid or expired sign-in code"))
  pure challenge

-- `_load_resendable_challenge`: `age > max_age`, with the sides moved so that no difference is
-- taken.
unfoldable pub load_resendable_challenge : String → Action SignInChallenge
load_resendable_challenge challenge_id = do
  found ← find_challenge challenge_id
  challenge ← or_else found (raise (invalid_challenge "Invalid or expired sign-in code"))
  when challenge.consumed (raise (invalid_challenge "Invalid or expired sign-in code"))
  at ← now
  cfg ← asks (λ w. w.settings)
  when (ltb (challenge.created_at + seconds cfg.otp_challenge_max_age_seconds) at)
      (raise (invalid_challenge "This sign-in has expired. Please sign in again."))
  pure challenge

-- The assignments of a resend.
unfoldable pub renew_challenge : Settings → Datetime → String → SignInChallenge → SignInChallenge
renew_challenge cfg at code_hash c = record c {
  code_hash = code_hash;
  expires_at = at + seconds cfg.otp_ttl_seconds;
  attempts = 0;
  sends = c.sends + 1;
  last_sent_at = at;
}

unfoldable pub refuse_resend : Credential → String → Option String → Action (Unit {0})
refuse_resend credential reason ip = do
  audit "otp_send_failed" (some credential.id) (some credential.email) ip (some (take 400 reason))
  commit
  raise (mail_delivery_failed "Could not send your sign-in code. Try again shortly.")

-- The checks of `resend_challenge`, in its order; `since_last < cooldown` has its sides moved too.
unfoldable pub check_resend : String → Action (SignInChallenge × Credential)
check_resend challenge_id = do
  challenge ← load_resendable_challenge challenge_id
  at ← now
  cfg ← asks (λ w. w.settings)
  when (ltb at (challenge.last_sent_at + seconds cfg.otp_resend_cooldown_seconds))
      (raise (resend_too_soon "Wait a moment before requesting another code."))
  when (leb cfg.otp_max_sends_per_challenge challenge.sends)
      (raise (resend_too_soon "Too many codes requested. Start signing in again."))
  found ← get_credential challenge.credential_id
  credential ← or_else found (raise (account_disabled "This account has been disabled"))
  when credential.disabled (raise (account_disabled "This account has been disabled"))
  pure (challenge, credential)

unfoldable pub resend_challenge : String → Option String → Action SignInChallenge
resend_challenge challenge_id ip = do
  (challenge, credential) ← check_resend challenge_id
  cfg ← asks (λ w. w.settings)
  code ← new_sign_in_code cfg.otp_code_length
  code_hash ← hash_sign_in_code code
  at ← now
  set_challenge challenge.id (renew_challenge cfg at code_hash)
  commit
  outcome ← mail_sign_in_code credential code
  on_failure outcome (λ reason. refuse_resend credential reason ip)
  audit "otp_resent" (some credential.id) (some credential.email) ip none
  commit
  pure (renew_challenge cfg at code_hash challenge)

-- The challenge after a wrong code, and whether it is burnt: both counters are read after they grew.
unfoldable pub count_attempt : Settings → Credential → SignInChallenge → SignInChallenge
count_attempt cfg owner c = record c {
  attempts = c.attempts + 1;
  consumed =
      c.consumed
      || (leb cfg.max_failed_logins (owner.failed_attempts + 1)
          || leb cfg.otp_max_attempts (c.attempts + 1));
}

-- The credential after a wrong code.
unfoldable pub count_wrong_code : Settings → Datetime → Credential → Credential
count_wrong_code cfg at c =
    if leb cfg.max_failed_logins (c.failed_attempts + 1)
    then record c {
      failed_attempts = 0;
      locked_until = some (at + seconds cfg.login_lockout_seconds);
    }
    else record c { failed_attempts = c.failed_attempts + 1 }

unfoldable pub refuse_code : SignInChallenge → Credential → Option String → Action (Unit {0})
refuse_code challenge credential ip = do
  at ← now
  cfg ← asks (λ w. w.settings)
  set_challenge challenge.id (count_attempt cfg credential)
  set_credential credential.id (count_wrong_code cfg at)
  audit "otp_failed" (some credential.id) (some credential.email) ip none
  commit
  raise (invalid_challenge "Invalid or expired sign-in code")

-- The guards of `verify_challenge`, before the code is looked at.
unfoldable pub check_verify : String → Action (SignInChallenge × Credential)
check_verify challenge_id = do
  challenge ← load_live_challenge challenge_id
  found ← get_credential challenge.credential_id
  credential ← or_else found (raise (invalid_challenge "Invalid or expired sign-in code"))
  when credential.disabled (raise (account_disabled "This account has been disabled"))
  at ← now
  when (is_locked credential.locked_until at)
      (raise (account_locked "Too many failed attempts. Try again later."))
  pure (challenge, credential)

unfoldable pub mark_verified : Datetime → Credential → Credential
unfolding clear_failures
mark_verified at c = record (clear_failures c) { email_verified_at = some at }

-- The assignments after a right code.
unfoldable pub accept_code : SignInChallenge → Credential → Option String → Action (Unit {0})
accept_code challenge credential ip = do
  at ← now
  set_challenge challenge.id consume
  set_credential credential.id (mark_verified at)
  audit "otp_verified" (some credential.id) (some credential.email) ip none
  commit

unfoldable pub verify_challenge :
    String → String → Option String → Option String → Action (String × ℕ × String)
verify_challenge challenge_id code ip user_agent = do
  (challenge, credential) ← check_verify challenge_id
  code_ok ← verify_sign_in_code code (some challenge.code_hash)
  when (not code_ok) (refuse_code challenge credential ip)
  accept_code challenge credential ip
  issue_tokens credential challenge.audience none none ip user_agent true
