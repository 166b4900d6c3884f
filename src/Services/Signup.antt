-- ===== src/Services/Signup.antt =====
-- services.py, signup: `create_credential`, idempotent on a key that the client supplies.
pub mod Replay
use mxtng_auth_services.Common.{
  String, Bool, false, ◌&&◌, Option, none, some, find?, any, truthy, is_some, if◌then◌else◌,
}
use mxtng_auth_services.Models.{Credential}
use mxtng_auth_services.Errors.{email_already_registered, idempotency_key_conflict}
use mxtng_auth_services.Action.{
  on_option, Action, pure, raise, query, draw, now, commit, when, ◌>>=◌, ◌>>◌,
}
use mxtng_auth_services.Security.{hash_password}
use mxtng_auth_services.Services.Helpers.{
  normalize_email, is_value, audit, by_email, get_by_email, add_credential,
}

abbrev pub has_key : String → Credential → Bool
has_key key c = is_value c.idempotency_key key

-- The row that an earlier request with the same key and address made, if there is one. A key in
-- use for another address is a conflict.
unfoldable pub find_replay : String → Option String → Action (Option Credential)
find_replay email none = pure none
find_replay email (some key) =
    if truthy (some key)
    then (do
      existing ← query (λ db. find? (λ c. has_key key c && by_email email c) db.credentials)
      clash ← query (λ db. any (has_key key) db.credentials)
      on_option existing
          (do
            when clash (
                raise (
                  idempotency_key_conflict
                    "That Idempotency-Key has already been used for a different email"))
            pure none)
          (λ credential. pure (some credential)))
    else pure none

-- The rest of `create_credential`, for a request that is no replay.
unfoldable pub insert_credential :
    String → String → Option String → Option String → Action Credential
insert_credential email password idempotency_key ip = do
  taken ← get_by_email email
  when (is_some taken) (raise (email_already_registered "That email is already registered"))
  password_hash ← hash_password password
  id ← draw (λ w n. n)
  auth_user_id ← draw (λ w n. w.uuid4 n)
  at ← now
  let credential : Credential = record {
    id = id;
    auth_user_id = auth_user_id;
    email = email;
    password_hash = some password_hash;
    google_sub = none;
    idempotency_key = idempotency_key;
    failed_attempts = 0;
    locked_until = none;
    disabled = false;
    email_verified_at = none;
    created_at = at;
  }
  add_credential credential
  audit "signup" none (some email) ip none
  commit
  pure credential

unfoldable pub create_credential :
    String → String → Option String → Option String → Action Credential
create_credential address password idempotency_key ip = do
  let email = normalize_email address
  replay ← find_replay email idempotency_key
  on_option replay (insert_credential email password idempotency_key ip) pure
