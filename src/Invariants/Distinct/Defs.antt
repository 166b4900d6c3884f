-- ===== src/Invariants/Distinct/Defs.antt =====
-- The invariant: these columns hold no value twice.
use mxtng_auth_services.Common.{String, ◌≡◌}
use mxtng_auth_services.Models.{
  Db, RefreshToken, SignInChallenge, PasswordResetToken, OAuthState, Session,
}
use mxtng_auth_services.Invariants.Distinct.Keys.{Distinct}

abbrev pub token_key : RefreshToken → String
token_key t = t.token_hash

abbrev pub session_key : Session → String
session_key t = t.session_id

abbrev pub challenge_key : SignInChallenge → String
challenge_key t = t.challenge_id

abbrev pub reset_key : PasswordResetToken → String
reset_key t = t.token_hash

abbrev pub state_key : OAuthState → String
state_key t = t.state_hash

pub record Unique (db : Db) : Type 0 where
  pub tokens : Distinct token_key db.refresh_tokens
  pub sessions : Distinct session_key db.sessions
  pub challenges : Distinct challenge_key db.challenges
  pub resets : Distinct reset_key db.reset_tokens
  pub states : Distinct state_key db.oauth_states

-- Writes to the tables that the invariant does not speak of.
pub Unique-transport :
    (db db' : Db)
    → db.refresh_tokens ≡ db'.refresh_tokens
    → db.sessions ≡ db'.sessions
    → db.challenges ≡ db'.challenges
    → db.reset_tokens ≡ db'.reset_tokens
    → db.oauth_states ≡ db'.oauth_states
    → Unique db
    → Unique db'
Unique-transport db db' et es ec er eo h = record {
  tokens = rw et at h.tokens;
  sessions = rw es at h.sessions;
  challenges = rw ec at h.challenges;
  resets = rw er at h.resets;
  states = rw eo at h.states;
}
