-- ===== src/Services/OAuth.antt =====
-- services.py, the single-use `state` of Sign-in-with-Google.
use mxtng_auth_services.Common.{
  ◌+◌, String, Bool, true, false, not, ◌&&◌, Option, none, some, any, select, update, str_eq, ltb,
  truthy, if◌then◌else◌,
}
use mxtng_auth_services.Models.{Datetime, seconds, OAuthState}
use mxtng_auth_services.Errors.{invalid_oauth_state}
use mxtng_auth_services.Action.{
  Action, pure, raise, asks, query, draw, modify, now, commit, rollback, when, ◌>>=◌, ◌>>◌,
}
use mxtng_auth_services.Security.{new_opaque_token, hash_opaque_token}
use mxtng_auth_services.Services.Helpers.{audit, add_oauth_state}

unfoldable pub issue_oauth_state : Action String
issue_oauth_state = do
  raw ← new_opaque_token
  id ← draw (λ w n. n)
  at ← now
  w ← asks (λ w. w)
  add_oauth_state (record {
    id = id;
    state_hash = hash_opaque_token w raw;
    expires_at = at + seconds w.settings.oauth_state_ttl_seconds;
    consumed = false;
    created_at = at;
  })
  commit
  pure raw

-- The condition of the UPDATE.
abbrev pub is_open : String → Datetime → OAuthState → Bool
is_open state_hash at t = str_eq t.state_hash state_hash && (not t.consumed && ltb at t.expires_at)

unfoldable pub burn : OAuthState → OAuthState
burn t = record t { consumed = true }

unfoldable pub refuse_missing_state : Option String → Action (Unit {0})
refuse_missing_state ip = do
  audit "oauth_state_missing" none none ip none
  commit
  raise (invalid_oauth_state "Missing OAuth state")

-- The UPDATE.
unfoldable pub burn_open : String → Datetime → Action (Unit {0})
burn_open state_hash at =
    modify (λ db. record db { oauth_states = update (is_open state_hash at) burn db.oauth_states })

-- The UPDATE and its row count; the column is unique, so the count is one or none.
unfoldable pub burn_state : String → Option String → Action (Unit {0})
burn_state state ip = do
  at ← now
  state_hash ← asks (λ w. hash_opaque_token w state)
  claimed ← query (λ db. any (is_open state_hash at) db.oauth_states)
  burn_open state_hash at
  when (not claimed) (do
    rollback
    audit "oauth_state_rejected" none none ip none
    commit
    raise (invalid_oauth_state "Invalid or expired OAuth state"))
  commit

unfoldable pub consume_oauth_state : Option String → Option String → Action (Unit {0})
consume_oauth_state none ip = refuse_missing_state ip
consume_oauth_state (some state) ip =
    if truthy (some state) then burn_state state ip else refuse_missing_state ip

unfoldable pub purge_expired_oauth_states : Action (Unit {0})
purge_expired_oauth_states = do
  at ← now
  modify
      (λ db. record db { oauth_states = select (λ t. not (ltb t.expires_at at)) db.oauth_states })
  commit
