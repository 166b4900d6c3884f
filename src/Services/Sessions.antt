-- ===== src/Services/Sessions.antt =====
-- services.py, sessions: their liveness, their revocation with the refresh families behind them,
-- and the start of one under the one-session policy.
pub mod Supersede
use mxtng_auth_services.Common.{
  ℕ, String, Bool, true, false, not, ◌&&◌, Option, none, some, List, [], ◌∷◌, find?, any, select,
  update, str_eq, ◌==◌, truthy, if◌then◌else◌,
}
use mxtng_auth_services.Text.{take, concat}
use mxtng_auth_services.Models.{RefreshToken, Session, Credential}
use mxtng_auth_services.Action.{Action, pure, asks, query, draw, modify, now, when, ◌>>=◌, ◌>>◌}
use mxtng_auth_services.Services.Helpers.{audit, add_session}

abbrev pub by_session_id : String → Session → Bool
by_session_id session_id t = str_eq t.session_id session_id

unfoldable pub get_session : String → Action (Option Session)
get_session session_id = query (λ db. find? (by_session_id session_id) db.sessions)

abbrev pub is_live : Option Session → Bool
is_live none = false
is_live (some session) = not session.revoked

unfoldable pub is_session_live : String → Action Bool
is_session_live session_id = do session ← get_session session_id; pure (is_live session)

-- `list(dict.fromkeys(ids))`: each id once, at its first place.
unfoldable pub unique_ids : List String → List String → List String
unique_ids seen [] = []
unique_ids seen (x ∷ xs) =
    let new = x ∷ unique_ids (x ∷ seen) xs in
    let old = unique_ids seen xs in if any (str_eq x) seen then old else new

-- The test of the one query: is this id that of a session which is not revoked?
abbrev pub has_live : List Session → String → Bool
has_live sessions id = any (λ t. by_session_id id t && not t.revoked) sessions

unfoldable pub live_session_ids : List String → Action (List String)
live_session_ids session_ids =
    query (λ db. select (has_live db.sessions) (unique_ids [] session_ids))

-- `_revoke_family`
unfoldable pub revoke_token : RefreshToken → RefreshToken
revoke_token t = record t { revoked = true }

abbrev pub in_family : String → RefreshToken → Bool
in_family family_id t = str_eq t.family_id family_id

unfoldable pub revoke_family : String → Action (Unit {0})
unfolding revoke_token
revoke_family family_id = modify (λ db. record db {
  refresh_tokens = update (in_family family_id) revoke_token db.refresh_tokens;
})

-- The live sessions of a credential.
abbrev pub live_of : ℕ → Session → Bool
live_of credential_id t = t.credential_id == credential_id && not t.revoked

unfoldable pub end_session : String → ℕ → Session → Session
end_session reason at t = record t {
  revoked = true;
  revoked_reason = some reason;
  revoked_at = some at;
}

-- `if session.family_id: await _revoke_family(…)`
unfoldable pub revoke_behind : Option String → List RefreshToken → List RefreshToken
unfolding revoke_token
revoke_behind none tokens = tokens
revoke_behind (some f) tokens =
    if truthy (some f) then update (in_family f) revoke_token tokens else tokens

-- The refresh tokens after the family behind each of these sessions is revoked.
unfoldable pub revoke_families : List Session → List RefreshToken → List RefreshToken
unfolding revoke_behind
revoke_families [] tokens = tokens
revoke_families (t ∷ ts) tokens = revoke_families ts (revoke_behind t.family_id tokens)

-- Every live session of the account is ended, with the refresh family behind it. The rows are
-- chosen before the loop writes to them, so one update of them all is the loop.
unfoldable pub revoke_sessions_for_credential : ℕ → String → Action (List Session)
revoke_sessions_for_credential credential_id reason = do
  revoked ← query (λ db. select (live_of credential_id) db.sessions)
  at ← now
  modify (λ db. record db {
    sessions = update (live_of credential_id) (end_session reason at) db.sessions;
    refresh_tokens = revoke_families revoked db.refresh_tokens;
  })
  pure revoked

-- One row of the audit trail for each session that a sign-in ended.
unfoldable pub audit_superseded : ℕ → Option String → List Session → Action (Unit {0})
audit_superseded credential_id ip [] = pure tt
audit_superseded credential_id ip (old ∷ rest) = do
  audit "session_superseded" (some credential_id) none ip
      (some (concat ("session=" ∷ old.session_id ∷ [])))
  audit_superseded credential_id ip rest

-- `user_agent[:255] if user_agent else None`
unfoldable pub label_user_agent : Option String → Option String
label_user_agent none = none
label_user_agent (some ua) = if truthy (some ua) then some (take 255 ua) else none

-- The one-session policy: a sign-in ends the sessions that are open.
unfoldable pub supersede_sessions : ℕ → Option String → Action (Unit {0})
supersede_sessions credential_id ip = do
  superseded ← revoke_sessions_for_credential credential_id "superseded"
  audit_superseded credential_id ip superseded

-- `_start_session`
unfoldable pub start_session :
    Credential → String → Option String → Option String → Bool → Action Session
start_session credential audience ip user_agent supersede = do
  single ← asks (λ w. w.settings.single_session_per_credential)
  when (supersede && single) (supersede_sessions credential.id ip)
  id ← draw (λ w n. n)
  session_id ← draw (λ w n. w.uuid4 n)
  at ← now
  let session : Session = record {
    id = id;
    session_id = session_id;
    credential_id = credential.id;
    audience = audience;
    family_id = none;
    revoked = false;
    revoked_reason = none;
    revoked_at = none;
    ip = ip;
    user_agent = label_user_agent user_agent;
    created_at = at;
    last_seen_at = at;
  }
  add_session session
  audit "session_started" (some credential.id) none ip
      (some (concat ("session=" ∷ session_id ∷ [])))
  pure session
