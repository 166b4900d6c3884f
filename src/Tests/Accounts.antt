-- ===== src/Tests/Accounts.antt =====
-- Signup and the logout from everywhere, applied to concrete rows.
use mxtng_auth_services.Common.{◌≡◌, refl, false, none, some, [], ◌∷◌, count}
use mxtng_auth_services.Text.{
  lower, strip, lstrip, rstrip, keep_before, is_space, lower_char, translate, show, show_from,
  digit,
}
use mxtng_auth_services.Models.{Credential, Session, RefreshToken, empty_db, Db}
use mxtng_auth_services.Action.{State, ok, init, ◌>>=◌}
use mxtng_auth_services.Security.{hash_password}
use mxtng_auth_services.Services.Helpers.{normalize_email, audit, get_by_email, add_credential}
use mxtng_auth_services.Services.Sessions.{live_of}
use mxtng_auth_services.Services.Signup.{find_replay, insert_credential, create_credential}
use mxtng_auth_services.Services.Signup.Replay.{create_credential_idem}
use mxtng_auth_services.Services.Refresh.{revoke_all_for_credential}
use mxtng_auth_services.Services.Refresh.Everywhere.{unrevoked_of, revoke_all_for_credential_lem}
use mxtng_auth_services.Tests.{demo}

abbrev bob : Credential
bob = record {
  id = 2;
  auth_user_id = "u3";
  email = "bob@x.com";
  password_hash = some "hpw";
  google_sub = none;
  idempotency_key = some "k1";
  failed_attempts = 0;
  locked_until = none;
  disabled = false;
  email_verified_at = none;
  created_at = 0;
}

abbrev signed_up : State
signed_up = (create_credential " Bob@x.com" "pw" (some "k1") none demo (init 0)).1

signup-works :
    create_credential " Bob@x.com" "pw" (some "k1") none demo (init 0) ≡ (ok bob, signed_up)
unfolding create_credential find_replay insert_credential get_by_email hash_password add_credential
    audit normalize_email lower strip lstrip rstrip keep_before is_space lower_char translate show
    show_from digit ◌>>=◌
signup-works = refl

create_credential_idem_example :
    create_credential " Bob@x.com" "other" (some "k1") none demo signed_up ≡ (ok bob, signed_up)
create_credential_idem_example =
    create_credential_idem " Bob@x.com" "pw" "other" "k1" none none demo (init 0) signed_up bob refl
      signup-works

abbrev live : Session
live = record {
  id = 3;
  session_id = "sid";
  credential_id = 2;
  audience = "ats";
  family_id = some "f";
  revoked = false;
  revoked_reason = none;
  revoked_at = none;
  ip = none;
  user_agent = none;
  created_at = 0;
  last_seen_at = 0;
}

abbrev token : RefreshToken
token = record {
  id = 4;
  credential_id = 2;
  family_id = "f";
  token_hash = "hraw";
  audience = "ats";
  expires_at = 1000000000;
  revoked = false;
  rotated = false;
  created_at = 0;
}

abbrev rows : Db
rows = record empty_db { sessions = live ∷ []; refresh_tokens = token ∷ [] }

revoke_all_for_credential_lem_example :
    (s' : State) × (revoke_all_for_credential 2 "logout_all" demo
        (record (init 0) { working = rows })
      ≡ (ok tt, s'))
    × (count (live_of 2) s'.committed.sessions ≡ 0)
    × (count (unrevoked_of 2) s'.committed.refresh_tokens ≡ 0)
revoke_all_for_credential_lem_example =
    revoke_all_for_credential_lem 2 "logout_all" demo (record (init 0) { working = rows })
