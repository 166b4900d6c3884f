-- ===== src/Services/Login.antt =====
-- services.py, login: `authenticate`.
pub mod Outcomes
pub mod Admits
use mxtng_auth_services.Common.{
  ◌+◌, String, Bool, false, not, Option, none, some, ltb, leb, if◌then◌else◌,
}
use mxtng_auth_services.Models.{Datetime, seconds, Credential}
use mxtng_auth_services.Errors.{invalid_credentials, account_locked, account_disabled}
use mxtng_auth_services.Settings.{Settings}
use mxtng_auth_services.World.{World}
use mxtng_auth_services.Action.{
  on_option, Action, pure, raise, asks, now, commit, when, ◌>>=◌, ◌>>◌,
}
use mxtng_auth_services.Security.{verify_password}
use mxtng_auth_services.Services.Helpers.{normalize_email, audit, get_by_email, set_credential}

-- `_DUMMY_PASSWORD_HASH`, made when the module is imported.
unfoldable pub dummy_password_hash : World → Option String
dummy_password_hash w = w.hashpw "mxtng-auth-timing-equaliser" 0

-- `locked_until and locked_until > _now()`
abbrev pub is_locked : Option Datetime → Datetime → Bool
is_locked none at = false
is_locked (some t) at = ltb at t

-- A wrong guess, counted on the credential; at the limit it is locked and counted from 0 again.
unfoldable pub count_failure : Settings → Datetime → Credential → Credential
count_failure cfg at c =
    if leb cfg.max_failed_logins (c.failed_attempts + 1)
    then record c {
      failed_attempts = 0;
      locked_until = some (at + seconds cfg.login_lockout_seconds);
    }
    else record c { failed_attempts = c.failed_attempts + 1 }

unfoldable pub clear_failures : Credential → Credential
clear_failures c = record c { failed_attempts = 0; locked_until = none }

-- No row has the address: the same bcrypt work, then the same failure.
unfoldable pub refuse_unknown : String → String → Option String → Action Credential
refuse_unknown email password ip = do
  dummy ← asks dummy_password_hash
  verify_password password dummy
  audit "login_failed" none (some email) ip (some "no_such_credential")
  commit
  raise (invalid_credentials "Invalid email or password")

unfoldable pub refuse_disabled : Credential → String → Bool → Option String → Action (Unit {0})
refuse_disabled credential email password_ok ip = do
  audit "login_blocked_disabled" (some credential.id) (some email) ip none
  commit
  if password_ok
      then raise (account_disabled "This account has been disabled")
      else raise (invalid_credentials "Invalid email or password")

unfoldable pub refuse_wrong_password : Credential → String → Option String → Action (Unit {0})
refuse_wrong_password credential email ip = do
  at ← now
  cfg ← asks (λ w. w.settings)
  set_credential credential.id (count_failure cfg at)
  audit "login_failed" (some credential.id) (some email) ip none
  commit
  raise (invalid_credentials "Invalid email or password")

unfoldable pub authenticate_known : Credential → String → String → Option String → Action Credential
authenticate_known credential email password ip = do
  at ← now
  when (is_locked credential.locked_until at) (do
    audit "login_blocked_locked" (some credential.id) (some email) ip none
    commit
    raise (account_locked "Too many failed attempts. Try again later."))
  password_ok ← verify_password password credential.password_hash
  when credential.disabled (refuse_disabled credential email password_ok ip)
  when (not password_ok) (refuse_wrong_password credential email ip)
  set_credential credential.id clear_failures
  audit "login_succeeded" (some credential.id) (some email) ip none
  commit
  pure (clear_failures credential)

unfoldable pub authenticate : String → String → Option String → Action Credential
authenticate address password ip = do
  let email = normalize_email address
  found ← get_by_email email
  on_option found (refuse_unknown email password ip)
      (λ credential. authenticate_known credential email password ip)
