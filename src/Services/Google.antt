-- ===== src/Services/Google.antt =====
-- services.py, `upsert_google_credential`: the credential of a verified Google identity.
use mxtng_auth_services.Common.{String, Bool, false, Option, none, some, find?}
use mxtng_auth_services.Models.{Datetime, Credential}
use mxtng_auth_services.Action.{on_option, Action, pure, query, draw, now, commit, ◌>>=◌, ◌>>◌}
use mxtng_auth_services.Services.Helpers.{
  normalize_email, is_value, audit, get_by_email, set_credential, add_credential,
}

abbrev pub by_google_sub : String → Credential → Bool
by_google_sub google_sub c = is_value c.google_sub google_sub

unfoldable pub verify_email : Datetime → Credential → Credential
verify_email at c = record c { email_verified_at = some at }

unfoldable pub link_google : String → Datetime → Credential → Credential
link_google google_sub at c = record c { google_sub = some google_sub; email_verified_at = some at }

unfoldable pub refresh_google : Credential → Action Credential
refresh_google credential = do
  at ← now
  set_credential credential.id (verify_email at)
  commit
  pure (verify_email at credential)

unfoldable pub link_existing : Credential → String → String → Option String → Action Credential
link_existing credential google_sub email ip = do
  at ← now
  set_credential credential.id (link_google google_sub at)
  audit "google_linked" (some credential.id) (some email) ip none
  commit
  pure (link_google google_sub at credential)

unfoldable pub google_signup : String → String → Option String → Action Credential
google_signup google_sub email ip = do
  id ← draw (λ w n. n)
  auth_user_id ← draw (λ w n. w.uuid4 n)
  at ← now
  let credential : Credential = record {
    id = id;
    auth_user_id = auth_user_id;
    email = email;
    password_hash = none;
    google_sub = some google_sub;
    idempotency_key = none;
    failed_attempts = 0;
    locked_until = none;
    disabled = false;
    email_verified_at = some at;
    created_at = at;
  }
  add_credential credential
  audit "google_signup" none (some email) ip none
  commit
  pure credential

unfoldable pub upsert_google_credential : String → String → Option String → Action Credential
upsert_google_credential google_sub address ip = do
  let email = normalize_email address
  linked ← query (λ db. find? (by_google_sub google_sub) db.credentials)
  known ← get_by_email email
  on_option linked
      (on_option known (google_signup google_sub email ip)
        (λ credential. link_existing credential google_sub email ip))
      refresh_google
