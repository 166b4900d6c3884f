-- ===== src/Services/Refresh.antt =====
-- services.py, refresh tokens: their issue, their rotation, and the logouts by a presented token.
pub mod Everywhere
use mxtng_auth_services.Common.{
  ℕ, ◌+◌, String, Bool, true, false, not, ◌&&◌, Option, none, some, [], ◌∷◌, find?, any, update,
  str_eq, ◌==◌, ltb, truthy, if◌then◌else◌,
}
use mxtng_auth_services.Text.{concat}
use mxtng_auth_services.Models.{Datetime, seconds, RefreshToken, Session, Credential}
use mxtng_auth_services.Errors.{invalid_refresh, account_disabled}
use mxtng_auth_services.Action.{
  on_option, Action, pure, raise, asks, query, draw, modify, now, commit, rollback, when, or_else,
  ◌>>=◌, ◌>>◌,
}
use mxtng_auth_services.Security.{new_opaque_token, hash_opaque_token}
use mxtng_auth_services.Tokens.{resolve_audience, mint_access_token}
use mxtng_auth_services.Services.Helpers.{
  is_value, audit, get_credential, set_session, add_refresh_token,
}
use mxtng_auth_services.Services.Sessions.{
  get_session, revoke_token, revoke_family, end_session, revoke_sessions_for_credential,
  start_session,
}

abbrev pub by_hash : String → RefreshToken → Bool
by_hash token_hash t = str_eq t.token_hash token_hash

unfoldable pub touch : Datetime → Session → Session
touch at t = record t { last_seen_at = at }

-- The session of the tokens: a new one for a sign-in, or the one that is being refreshed.
unfoldable pub session_for :
    Credential
    → String
    → Option String
    → Option String
    → Option String
    → Bool
    → Action (Option Session × String)
session_for credential audience none ip user_agent supersede_others = do
  session ← start_session credential audience ip user_agent supersede_others
  pure (some session, session.session_id)
session_for credential audience (some session_id) ip user_agent supersede_others = do
  session ← get_session session_id
  at ← now
  on_option session (pure tt) (λ t. set_session t.id (touch at))
  pure (session, session_id)

-- `if family_id: refresh.family_id = family_id`, and otherwise the column's default.
unfoldable pub family_for : Option String → Action String
family_for none = draw (λ w n. w.uuid4 n)
family_for (some f) = if truthy (some f) then pure f else draw (λ w n. w.uuid4 n)

-- `if session is not None and not session.family_id`
unfoldable pub bind_family : Option Session → String → Action (Unit {0})
bind_family none family_id = pure tt
bind_family (some t) family_id =
    when (not (truthy t.family_id))
      (set_session t.id (λ r. record r { family_id = some family_id }))

-- The rest of `issue_tokens`, once it has its session: the two tokens, and the row of the refresh
-- token in its family.
unfoldable pub mint_tokens :
    Credential → String → Option String → Option Session × String → Action (String × ℕ × String)
mint_tokens credential audience family_id (session, sid) = do
  cfg ← asks (λ w. w.settings)
  (access_token, expires_in) ←
      mint_access_token credential.auth_user_id credential.email audience (some sid)
  raw ← new_opaque_token
  token_hash ← asks (λ w. hash_opaque_token w raw)
  id ← draw (λ w n. n)
  family ← family_for family_id
  at ← now
  add_refresh_token (record {
    id = id;
    credential_id = credential.id;
    family_id = family;
    token_hash = token_hash;
    audience = audience;
    expires_at = at + seconds cfg.refresh_token_ttl_seconds;
    revoked = false;
    rotated = false;
    created_at = at;
  })
  bind_family session family
  commit
  pure (access_token, expires_in, raw)

unfoldable pub issue_tokens :
    Credential
    → String
    → Option String
    → Option String
    → Option String
    → Option String
    → Bool
    → Action (String × ℕ × String)
issue_tokens credential requested family_id session_id ip user_agent supersede_others = do
  cfg ← asks (λ w. w.settings)
  let audience = resolve_audience cfg requested
  session ← session_for credential audience session_id ip user_agent supersede_others
  mint_tokens credential audience family_id session

abbrev pub of_family : String → Session → Bool
of_family family_id t = is_value t.family_id family_id

-- `_get_session_by_family`
unfoldable pub get_session_by_family : String → Action (Option Session)
get_session_by_family family_id = query (λ db. find? (of_family family_id) db.sessions)

abbrev pub claimable : String → RefreshToken → Bool
claimable token_hash t = by_hash token_hash t && (not t.rotated && not t.revoked)

-- The conditional UPDATE: one caller flips `rotated`, and learns that it did from the row count.
unfoldable pub claim : String → Action Bool
claim token_hash = do
  won ← query (λ db. any (claimable token_hash) db.refresh_tokens)
  modify (λ db. record db {
    refresh_tokens =
        update (claimable token_hash) (λ t. record t { rotated = true }) db.refresh_tokens;
  })
  pure won

-- A token that was consumed or revoked before is presented again: its family is burnt.
unfoldable pub refuse_reuse : RefreshToken → Option String → Action (Unit {0})
refuse_reuse token ip = do
  revoke_family token.family_id
  audit "refresh_reuse_detected" (some token.credential_id) none ip
      (some (concat ("family=" ∷ token.family_id ∷ [])))
  commit
  raise (invalid_refresh "Refresh token reuse detected")

-- `session is not None and session.revoked`
abbrev pub is_ended : Option Session → Bool
is_ended none = false
is_ended (some t) = t.revoked

-- What a successful claim still has to pass: the age of the token and the state of its account and
-- its session.
unfoldable pub check_claimed : RefreshToken → Action (Credential × Option Session)
check_claimed token = do
  at ← now
  when (ltb token.expires_at at) (raise (invalid_refresh "Refresh token expired"))
  found ← get_credential token.credential_id
  credential ← or_else found (raise (account_disabled "This account has been disabled"))
  when credential.disabled (raise (account_disabled "This account has been disabled"))
  session ← get_session_by_family token.family_id
  when (is_ended session) (raise (invalid_refresh "This session has ended"))
  pure (credential, session)

abbrev pub session_id_of : Option Session → Option String
session_id_of none = none
session_id_of (some t) = some t.session_id

unfoldable pub rotate_refresh : String → Option String → Action (String × ℕ × String)
rotate_refresh raw ip = do
  token_hash ← asks (λ w. hash_opaque_token w raw)
  won_the_race ← claim token_hash
  found ← query (λ db. find? (by_hash token_hash) db.refresh_tokens)
  token ← or_else found (rollback >> raise (invalid_refresh "Invalid refresh token"))
  when (not won_the_race) (refuse_reuse token ip)
  (credential, session) ← check_claimed token
  commit
  tokens ←
      issue_tokens credential token.audience (some token.family_id) (session_id_of session) ip none
        false
  audit "refresh_rotated" (some credential.id) none ip none
  commit
  pure tokens

-- `revoke_by_raw`, for a token that is known.
unfoldable pub logout_session : Option Session → Action (Unit {0})
logout_session none = pure tt
logout_session (some t) = do
  at ← now
  when (not t.revoked) (set_session t.id (end_session "logout" at))

unfoldable pub logout_token : RefreshToken → Action (Unit {0})
logout_token token = do
  revoke_family token.family_id
  session ← get_session_by_family token.family_id
  logout_session session
  audit "logout" (some token.credential_id) none none none
  commit

unfoldable pub revoke_by_raw : String → Action (Unit {0})
revoke_by_raw raw = do
  token_hash ← asks (λ w. hash_opaque_token w raw)
  found ← query (λ db. find? (by_hash token_hash) db.refresh_tokens)
  on_option found (pure tt) logout_token

unfoldable pub revoke_all_for_credential : ℕ → String → Action (Unit {0})
revoke_all_for_credential credential_id reason = do
  modify (λ db. record db {
    refresh_tokens = update (λ t. t.credential_id == credential_id) revoke_token db.refresh_tokens;
  })
  revoke_sessions_for_credential credential_id reason
  audit "logout_all" (some credential_id) none none none
  commit

unfoldable pub revoke_all_by_raw : String → Action (Unit {0})
revoke_all_by_raw raw = do
  token_hash ← asks (λ w. hash_opaque_token w raw)
  found ← query (λ db. find? (by_hash token_hash) db.refresh_tokens)
  on_option found (pure tt) (λ token. do
    owner ← get_credential token.credential_id
    on_option owner (pure tt) (λ credential. revoke_all_for_credential credential.id "logout_all"))
