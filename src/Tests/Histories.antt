-- ===== src/Tests/Histories.antt =====
-- Histories of one account, and the theorems on what was used before applied to them.
use mxtng_auth_services.Common.{
  find?, Bool, true, false, ◌≡◌, refl, String, none, some, List, [], ◌∷◌,
}
use mxtng_auth_services.Action.{State, ◌>>=◌, init, ok, err, close}
use mxtng_auth_services.Models.{Db, RefreshToken, PasswordResetToken, empty_db}
use mxtng_auth_services.Api.{
  Event, request, wait, run, signs_up, asks_challenge, verifies, starts_google, step, serve, handle,
  google_start, require_google,
}
use mxtng_auth_services.Errors.{auth, invalid_oauth_state}
use mxtng_auth_services.Services.Refresh.{
  by_hash, rotate_refresh, claim, check_claimed, get_session_by_family, issue_tokens, session_for,
  mint_tokens, family_for, bind_family,
}
use mxtng_auth_services.Tokens.{mint_access_token, resolve_audience, access_claims}
use mxtng_auth_services.Services.Sessions.{
  start_session, supersede_sessions, revoke_sessions_for_credential, revoke_families,
  audit_superseded, label_user_agent,
}
use mxtng_auth_services.Services.OAuth.{
  consume_oauth_state, burn_state, burn_open, issue_oauth_state,
}
use mxtng_auth_services.Invariants.Distinct.Reachable.{Reachable}
use mxtng_auth_services.Invariants.Distinct.Introspection.{Agrees, live_session_ids-Agrees}
use mxtng_auth_services.Invariants.Distinct.Rotation.{
  ReuseRefused, refresh-rotates_once, reuse-burns_family,
}
use mxtng_auth_services.Invariants.Distinct.States.{oauth_state-single_use}
use mxtng_auth_services.Invariants.Distinct.Defs.{Unique}
use mxtng_auth_services.Security.{hash_opaque_token, new_opaque_token}
use mxtng_auth_services.Services.Helpers.{
  add_oauth_state, audit, get_credential, add_session, add_refresh_token, set_session,
}
use mxtng_auth_services.Settings.{google_enabled}
use mxtng_auth_services.Text.{show, show_from, digit, concat, take}
use mxtng_auth_services.Services.Reset.Confirmed.{
  Confirmable, Confirmed, confirm_password_reset-Confirmed,
}
use mxtng_auth_services.Tests.Safety.{ann}
use mxtng_auth_services.Tests.{demo}

abbrev sign_in : List Event
sign_in =
    request (signs_up "Ann@x.com" "pw" none none)
    ∷ request (asks_challenge "ann@x.com" "pw" none none)
    ∷ request (verifies "u9" "000006" none none)
    ∷ []

abbrev signed_in : State
signed_in = run demo (init 0) sign_in

at_signed_in : Reachable demo signed_in
at_signed_in = record { started = 0; history = sign_in; here = refl }

live_session_ids-Agrees_example :
    (answer : List String) × Agrees demo signed_in ("u12" ∷ "u12" ∷ "nope" ∷ []) answer
live_session_ids-Agrees_example =
    live_session_ids-Agrees ("u12" ∷ "u12" ∷ "nope" ∷ []) demo signed_in at_signed_in

-- A refresh token of an account that is signed in, rotated before or not.
abbrev refresh_row : Bool → RefreshToken
refresh_row rotated = record {
  id = 5;
  credential_id = 1;
  family_id = "f";
  token_hash = "hraw";
  audience = "ats";
  expires_at = 900000000;
  revoked = false;
  rotated = rotated;
  created_at = 0;
}

abbrev signed_in_db : Bool → Db
signed_in_db rotated = record empty_db {
  credentials = ann ∷ [];
  refresh_tokens = refresh_row rotated ∷ [];
}

abbrev at_hand : Bool → State
at_hand rotated = record (init 0) {
  committed = signed_in_db rotated;
  working = signed_in_db rotated;
  draws = 10;
}

at_hand-Unique : (rotated : Bool) → Unique (signed_in_db rotated)
at_hand-Unique rotated = record {
  tokens = (refl, tt);
  sessions = tt;
  challenges = tt;
  resets = tt;
  states = tt;
}

reuse-burns_family_example : ReuseRefused demo (at_hand true) "raw" none "f"
unfolding hash_opaque_token
reuse-burns_family_example =
    reuse-burns_family "raw" none demo (at_hand true) (refresh_row true) refl (at_hand-Unique true)
      refl refl

rotates :
    rotate_refresh "raw" none demo (at_hand false)
    ≡ (ok ("jwt", 300, "u13"), (rotate_refresh "raw" none demo (at_hand false)).1)
unfolding rotate_refresh ◌>>=◌ claim hash_opaque_token check_claimed get_credential
    get_session_by_family issue_tokens session_for start_session add_session audit mint_tokens
    mint_access_token new_opaque_token family_for add_refresh_token bind_family set_session
    resolve_audience show show_from digit supersede_sessions revoke_sessions_for_credential
    revoke_families audit_superseded label_user_agent concat take access_claims
rotates = refl

refresh-rotates_once_example :
    (r : RefreshToken) × (find?
        (by_hash (hash_opaque_token demo "raw"))
        (at_hand false).committed.refresh_tokens
      ≡ some r)
    × ReuseRefused demo
        (run demo (close (rotate_refresh "raw" none demo (at_hand false)).1) (wait 1000000 ∷ []))
        "raw"
        none
        r.family_id
refresh-rotates_once_example =
    refresh-rotates_once "raw" none none demo (at_hand false)
      (rotate_refresh "raw" none demo (at_hand false)).1 ("jwt", 300, "u13") (wait 1000000 ∷ [])
      refl (at_hand-Unique false) rotates

abbrev later : State
later = run demo (init 0) (request starts_google ∷ wait 5 ∷ [])

accepts :
    consume_oauth_state (some "u1") none demo later
    ≡ (ok tt, (consume_oauth_state (some "u1") none demo later).1)
unfolding consume_oauth_state burn_state ◌>>=◌ burn_open run step serve handle google_start
    require_google google_enabled issue_oauth_state new_opaque_token add_oauth_state
    hash_opaque_token show
accepts = refl

oauth_state-single_use_example :
    (consume_oauth_state
      (some "u1")
      (some "9.9.9.9")
      demo
      (run demo (close (consume_oauth_state (some "u1") none demo later).1) (wait 7 ∷ []))).0
    ≡ err (auth (invalid_oauth_state "Invalid or expired OAuth state"))
oauth_state-single_use_example =
    oauth_state-single_use "u1" none (some "9.9.9.9") demo later
      (consume_oauth_state (some "u1") none demo later).1 (wait 7 ∷ [])
      (record { started = 0; history = request starts_google ∷ wait 5 ∷ []; here = refl }) accepts

abbrev reset_row : PasswordResetToken
reset_row = record {
  id = 6;
  credential_id = 1;
  token_hash = "hraw";
  expires_at = 600000000;
  used = false;
  created_at = 0;
}

abbrev reset_db : Db
reset_db = record (signed_in_db false) { reset_tokens = reset_row ∷ [] }

abbrev resetting : State
resetting = record (init 0) { committed = reset_db; working = reset_db; draws = 10 }

can_confirm : Confirmable "raw" "new-pw" demo resetting reset_row ann
unfolding hash_opaque_token
can_confirm = record { hash = "hnew-pw"; token = refl; fresh = refl; owner = refl; hashed = refl }

confirm_password_reset-Confirmed_example :
    Confirmed "raw" "new-pw" none demo resetting reset_row ann can_confirm.hash
confirm_password_reset-Confirmed_example =
    confirm_password_reset-Confirmed "raw" "new-pw" none demo resetting reset_row ann can_confirm
