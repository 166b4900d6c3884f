-- ===== src/Services/Helpers.antt =====
-- services.py, the helpers: addresses, the audit trail, and the lookups and inserts of rows. A row
-- that the code holds as an ORM object is named by its id; an assignment to the object is an
-- update of that row.
use mxtng_auth_services.Common.{
  ℕ, String, Bool, false, ◌||◌, Option, none, some, [], ◌∷◌, ◌++◌, find?, any, update, str_eq, ◌==◌,
}
use mxtng_auth_services.Text.{lower, strip}
use mxtng_auth_services.Models.{
  Credential, RefreshToken, PasswordResetToken, SignInChallenge, OAuthState, Session,
}
use mxtng_auth_services.Action.{Action, query, draw, modify, now, unique, ◌>>=◌, ◌>>◌}

unfoldable pub normalize_email : String → String
normalize_email email = lower (strip email)

-- A text column that may be null equals a value.
abbrev pub is_value : Option String → String → Bool
is_value none t = false
is_value (some u) t = str_eq u t

-- Two nullable columns hold the same value; null equals nothing.
abbrev pub same_value : Option String → Option String → Bool
same_value _ none = false
same_value u (some t) = is_value u t

-- `_audit`
unfoldable pub audit :
    String → Option ℕ → Option String → Option String → Option String → Action (Unit {0})
audit event credential_id email ip detail = do
  id ← draw (λ w n. n)
  at ← now
  modify (λ db. record db {
    audit_log =
        db.audit_log
        ++ record {
          id = id;
          credential_id = credential_id;
          event = event;
          email = email;
          ip = ip;
          detail = detail;
          created_at = at;
        }
          ∷ [];
  })

abbrev pub by_email : String → Credential → Bool
by_email email c = str_eq c.email email

abbrev pub by_id : ℕ → Credential → Bool
by_id id c = c.id == id

-- `_get_by_email`; the column is unique, so there is one row at most.
unfoldable pub get_by_email : String → Action (Option Credential)
get_by_email email = query (λ db. find? (by_email email) db.credentials)

-- `get_credential`, and `db.get(Credential, …)`
unfoldable pub get_credential : ℕ → Action (Option Credential)
get_credential id = query (λ db. find? (by_id id) db.credentials)

unfoldable pub get_by_auth_user_id : String → Action (Option Credential)
get_by_auth_user_id auth_user_id =
    query (λ db. find? (λ c. str_eq c.auth_user_id auth_user_id) db.credentials)

-- Assignments to a credential.
unfoldable pub set_credential : ℕ → (Credential → Credential) → Action (Unit {0})
set_credential id f = modify (λ db. record db { credentials = update (by_id id) f db.credentials })

-- Assignments to a challenge.
unfoldable pub set_challenge : ℕ → (SignInChallenge → SignInChallenge) → Action (Unit {0})
set_challenge id f =
    modify (λ db. record db { challenges = update (λ c. c.id == id) f db.challenges })

-- Assignments to a session.
unfoldable pub set_session : ℕ → (Session → Session) → Action (Unit {0})
set_session id f = modify (λ db. record db { sessions = update (λ c. c.id == id) f db.sessions })

-- Assignments to a reset token.
unfoldable pub set_reset_token : ℕ → (PasswordResetToken → PasswordResetToken) → Action (Unit {0})
set_reset_token id f =
    modify (λ db. record db { reset_tokens = update (λ c. c.id == id) f db.reset_tokens })

-- `db.add` of a row, with its primary key and its unique columns.
unfoldable pub add_credential : Credential → Action (Unit {0})
add_credential c = do
  taken ← query (λ db.
      any
        (λ o.
          o.id == c.id
          || (str_eq o.email c.email
              || (str_eq o.auth_user_id c.auth_user_id || same_value o.google_sub c.google_sub)))
        db.credentials)
  unique taken
  modify (λ db. record db { credentials = db.credentials ++ c ∷ [] })

unfoldable pub add_refresh_token : RefreshToken → Action (Unit {0})
add_refresh_token t = do
  taken ←
      query (λ db. any (λ o. o.id == t.id || str_eq o.token_hash t.token_hash) db.refresh_tokens)
  unique taken
  modify (λ db. record db { refresh_tokens = db.refresh_tokens ++ t ∷ [] })

unfoldable pub add_reset_token : PasswordResetToken → Action (Unit {0})
add_reset_token t = do
  taken ← query (λ db. any (λ o. o.id == t.id || str_eq o.token_hash t.token_hash) db.reset_tokens)
  unique taken
  modify (λ db. record db { reset_tokens = db.reset_tokens ++ t ∷ [] })

unfoldable pub add_challenge : SignInChallenge → Action (Unit {0})
add_challenge c = do
  taken ←
      query (λ db. any (λ o. o.id == c.id || str_eq o.challenge_id c.challenge_id) db.challenges)
  unique taken
  modify (λ db. record db { challenges = db.challenges ++ c ∷ [] })

unfoldable pub add_oauth_state : OAuthState → Action (Unit {0})
add_oauth_state t = do
  taken ← query (λ db. any (λ o. o.id == t.id || str_eq o.state_hash t.state_hash) db.oauth_states)
  unique taken
  modify (λ db. record db { oauth_states = db.oauth_states ++ t ∷ [] })

unfoldable pub add_session : Session → Action (Unit {0})
add_session t = do
  taken ← query (λ db. any (λ o. o.id == t.id || str_eq o.session_id t.session_id) db.sessions)
  unique taken
  modify (λ db. record db { sessions = db.sessions ++ t ∷ [] })
