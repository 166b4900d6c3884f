-- ===== src/Services/Reset.antt =====
-- services.py, password reset: the request, which does not tell whether the address is known, and
-- the confirmation.
pub mod Confirmed
use mxtng_auth_services.Common.{
  ℕ, ◌+◌, String, Bool, true, false, ◌||◌, Option, none, some, find?, str_eq, ltb,
}
use mxtng_auth_services.Text.{take}
use mxtng_auth_services.Models.{seconds, PasswordResetToken, Credential}
use mxtng_auth_services.Errors.{invalid_reset_token}
use mxtng_auth_services.Action.{
  on_option, Action, pure, raise, asks, query, draw, now, commit, when, or_else, ◌>>=◌, ◌>>◌,
}
use mxtng_auth_services.Security.{new_opaque_token, hash_opaque_token, hash_password}
use mxtng_auth_services.Mail.{on_failure, send}
use mxtng_auth_services.Mail.Render.{render_password_reset}
use mxtng_auth_services.Services.Helpers.{
  normalize_email, audit, get_by_email, get_credential, set_credential, set_reset_token,
  add_reset_token,
}
use mxtng_auth_services.Services.Refresh.{revoke_all_for_credential}

abbrev pub by_reset_hash : String → PasswordResetToken → Bool
by_reset_hash token_hash t = str_eq t.token_hash token_hash

abbrev pub id_of : Option Credential → Option ℕ
id_of none = none
id_of (some c) = some c.id

-- A token for a known address, mailed through the durable outbox; a failure is only audited.
unfoldable pub mint_reset_token : Credential → String → Option String → Action String
mint_reset_token credential email ip = do
  raw ← new_opaque_token
  id ← draw (λ w n. n)
  at ← now
  w ← asks (λ w. w)
  add_reset_token (record {
    id = id;
    credential_id = credential.id;
    token_hash = hash_opaque_token w raw;
    expires_at = at + seconds w.settings.reset_token_ttl_seconds;
    used = false;
    created_at = at;
  })
  commit
  outcome ←
      send credential.email
        (render_password_reset w raw w.settings.reset_token_ttl_seconds
          w.settings.password_reset_url)
        "password_reset" "queued"
  on_failure outcome (λ reason. do
    audit "password_reset_send_failed" (some credential.id) (some email) ip (some (take 400 reason))
    commit)
  pure raw

unfoldable pub request_password_reset : String → Option String → Action (Option String)
request_password_reset address ip = do
  let email = normalize_email address
  found ← get_by_email email
  audit "password_reset_requested" (id_of found) (some email) ip none
  commit
  on_option found (pure none)
      (λ credential. do raw ← mint_reset_token credential email ip; pure (some raw))

-- The reset token and its account, or the one error for every way in which they may be missing.
unfoldable pub check_reset : String → Action (PasswordResetToken × Credential)
check_reset raw = do
  token_hash ← asks (λ w. hash_opaque_token w raw)
  found ← query (λ db. find? (by_reset_hash token_hash) db.reset_tokens)
  token ← or_else found (raise (invalid_reset_token "Invalid or expired reset token"))
  at ← now
  when (token.used || ltb token.expires_at at)
      (raise (invalid_reset_token "Invalid or expired reset token"))
  owner ← get_credential token.credential_id
  credential ← or_else owner (raise (invalid_reset_token "Invalid or expired reset token"))
  pure (token, credential)

unfoldable pub set_password : String → Credential → Credential
set_password password_hash c = record c {
  password_hash = some password_hash;
  failed_attempts = 0;
  locked_until = none;
}

unfoldable pub use_token : PasswordResetToken → PasswordResetToken
use_token t = record t { used = true }

unfoldable pub confirm_password_reset : String → String → Option String → Action (Unit {0})
confirm_password_reset raw new_password ip = do
  (token, credential) ← check_reset raw
  password_hash ← hash_password new_password
  set_credential credential.id (set_password password_hash)
  set_reset_token token.id use_token
  audit "password_reset_confirmed" (some credential.id) none ip none
  commit
  revoke_all_for_credential credential.id "password_reset"
