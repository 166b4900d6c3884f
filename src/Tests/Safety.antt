-- ===== src/Tests/Safety.antt =====
-- One account with its rows, and the theorems on sign-in and on lasting facts applied to it.
use mxtng_auth_services.Common.{◌≡◌, refl, arith, Bool, true, false, none, some, [], ◌∷◌}
use mxtng_auth_services.Models.{
  Db, Credential, SignInChallenge, PasswordResetToken, Session, empty_db,
}
use mxtng_auth_services.Errors.{auth, invalid_challenge, invalid_reset_token, account_locked}
use mxtng_auth_services.Action.{State, ok, err, init, close}
use mxtng_auth_services.Services.Sessions.{is_session_live}
use mxtng_auth_services.Services.Challenge.{verify_challenge, resend_challenge}
use mxtng_auth_services.Services.Challenge.Codes.{Usable, Matches, Burnt}
use mxtng_auth_services.Services.Reset.{confirm_password_reset}
use mxtng_auth_services.Services.Login.{authenticate}
use mxtng_auth_services.Services.Login.Outcomes.{Refuses, unknown-like_wrong}
use mxtng_auth_services.Services.Login.Admits.{Admitted, lockout_ends}
use mxtng_auth_services.Api.{run, wait, step}
use mxtng_auth_services.Api.Lockout.{guesses, guesses-lock_out}
use mxtng_auth_services.Invariants.Lasting.Defs.{Lasts}
use mxtng_auth_services.Invariants.Lasting.Requests.{run-Lasts}
use mxtng_auth_services.Invariants.Lasting.Consequences.{
  ended_session-never_live, consumed_challenge-refused, consumed_challenge-not_resent,
  used_reset_token-refused,
}
use mxtng_auth_services.Invariants.Lasting.SingleUse.{verify_challenge-succeeds, code-single_use}
use mxtng_auth_services.Text.{
  lower, strip, lstrip, rstrip, keep_before, is_space, lower_char, translate, show, show_from,
  digit, concat,
}
use mxtng_auth_services.Security.{
  hash_opaque_token, new_opaque_token, verify_sign_in_code, verify_password, check_password,
}
use mxtng_auth_services.Tokens.{resolve_audience, mint_access_token}
use mxtng_auth_services.Services.Helpers.{
  normalize_email, get_credential, audit, set_challenge, set_credential, set_session, add_session,
  add_refresh_token,
}
use mxtng_auth_services.Services.Login.{dummy_password_hash, clear_failures}
use mxtng_auth_services.Services.Challenge.{
  check_verify, load_live_challenge, find_challenge, accept_code, consume, mark_verified,
}
use mxtng_auth_services.Services.Sessions.{
  start_session, supersede_sessions, revoke_sessions_for_credential, audit_superseded, end_session,
  revoke_families, revoke_behind, revoke_token,
}
use mxtng_auth_services.Services.Refresh.{
  issue_tokens, session_for, mint_tokens, family_for, bind_family,
}
use mxtng_auth_services.Action.{pure, ◌>>=◌}
use mxtng_auth_services.Tests.{demo}
use mxtng_auth_services.Tests.Flow.{sign_in_twice}

abbrev pub ann : Credential
ann = record {
  id = 1;
  auth_user_id = "ann";
  email = "ann@x.com";
  password_hash = some "hpw";
  google_sub = none;
  idempotency_key = none;
  failed_attempts = 1;
  locked_until = none;
  disabled = false;
  email_verified_at = none;
  created_at = 0;
}

abbrev challenge : Bool → SignInChallenge
challenge consumed = record {
  id = 2;
  challenge_id = "ch";
  credential_id = 1;
  code_hash = "h123456";
  audience = "ats";
  expires_at = 600000000;
  attempts = 0;
  sends = 1;
  last_sent_at = 0;
  consumed = consumed;
  created_at = 0;
}

abbrev ended : Session
ended = record {
  id = 3;
  session_id = "old";
  credential_id = 1;
  audience = "ats";
  family_id = some "f";
  revoked = true;
  revoked_reason = some "logout";
  revoked_at = some 0;
  ip = none;
  user_agent = none;
  created_at = 0;
  last_seen_at = 0;
}

abbrev used : PasswordResetToken
used = record {
  id = 4;
  credential_id = 1;
  token_hash = "hraw";
  expires_at = 600000000;
  used = true;
  created_at = 0;
}

-- The account at rest, its challenge consumed or not.
abbrev at_rest : Bool → Db
at_rest consumed = record empty_db {
  credentials = ann ∷ [];
  challenges = challenge consumed ∷ [];
  sessions = ended ∷ [];
  reset_tokens = used ∷ [];
}

abbrev rest : Bool → State
rest consumed = record (init 0) {
  committed = at_rest consumed;
  working = at_rest consumed;
  draws = 10;
}

run-Lasts_example : Lasts (at_rest false) (run demo (rest false) sign_in_twice).committed
run-Lasts_example = run-Lasts demo (rest false) sign_in_twice refl

ended_session-never_live_example :
    (is_session_live "old" demo (run demo (rest false) sign_in_twice)).0 ≡ ok false
ended_session-never_live_example =
    ended_session-never_live demo (rest false) sign_in_twice refl "old" ended refl refl

consumed_challenge-refused_example :
    verify_challenge "ch" "123456" none none demo (run demo (rest true) sign_in_twice) ≡ (
      err (auth (invalid_challenge "Invalid or expired sign-in code")),
      run demo (rest true) sign_in_twice,
    )
consumed_challenge-refused_example =
    consumed_challenge-refused demo (rest true) sign_in_twice refl "ch" (challenge true) "123456"
      none none refl refl

consumed_challenge-not_resent_example :
    resend_challenge "ch" none demo (run demo (rest true) sign_in_twice) ≡ (
      err (auth (invalid_challenge "Invalid or expired sign-in code")),
      run demo (rest true) sign_in_twice,
    )
consumed_challenge-not_resent_example =
    consumed_challenge-not_resent demo (rest true) sign_in_twice refl "ch" (challenge true) none
      refl refl

used_reset_token-refused_example :
    confirm_password_reset "raw" "new" none demo (run demo (rest false) sign_in_twice) ≡ (
      err (auth (invalid_reset_token "Invalid or expired reset token")),
      run demo (rest false) sign_in_twice,
    )
unfolding hash_opaque_token
used_reset_token-refused_example =
    used_reset_token-refused demo (rest false) sign_in_twice refl "raw" "new" used none refl refl

wrong_guess : Refuses demo "no" (some "hpw")
wrong_guess = record { text = "hpw"; stored = refl; full = refl; refused = refl }

unknown-like_wrong_example :
    ((authenticate "bob@x.com" "no" none demo (rest false)).0
      ≡ (authenticate "Ann@x.com" "no" none demo (rest false)).0)
    × ((authenticate "bob@x.com" "no" none demo (rest false)).1.bcrypt_calls
        ≡ (authenticate "Ann@x.com" "no" none demo (rest false)).1.bcrypt_calls)
unfolding normalize_email lower strip lstrip rstrip keep_before is_space lower_char translate
    dummy_password_hash
unknown-like_wrong_example =
    unknown-like_wrong demo (rest false) "bob@x.com" "Ann@x.com" "no" "no" none none ann refl
      (record { text = "hmxtng-auth-timing-equaliser"; stored = refl; full = refl; refused = refl })
      (record { stored = refl; enabled = refl; unlocked = refl; wrong = wrong_guess })

guesses-lock_out_example :
    (authenticate "Ann@x.com" "pw" none demo (
      step demo (run demo (rest false) (guesses "Ann@x.com" "no" none (5 ∷ 7 ∷ []))) (wait 1000))).0
    ≡ err (auth (account_locked "Too many failed attempts. Try again later."))
unfolding normalize_email lower strip lstrip rstrip keep_before is_space lower_char translate
guesses-lock_out_example =
    guesses-lock_out demo "Ann@x.com" "no" none (7 ∷ []) 5 (rest false) ann "pw" none 1000
      (record {
        settled = refl;
        stored = refl;
        enabled = refl;
        unlocked = λ u e. cc;
        wrong = wrong_guess;
      })
      refl (omega arith)

abbrev signed_in : State
signed_in = (verify_challenge "ch" "123456" none none demo (rest false)).1

code-works :
    verify_challenge "ch" "123456" none none demo (rest false) ≡ (ok ("jwt", 300, "u14"), signed_in)
unfolding verify_challenge check_verify load_live_challenge find_challenge get_credential
    verify_sign_in_code verify_password check_password accept_code audit set_challenge
    set_credential consume mark_verified clear_failures issue_tokens resolve_audience session_for
    start_session supersede_sessions revoke_sessions_for_credential audit_superseded add_session
    end_session revoke_families revoke_behind revoke_token mint_tokens mint_access_token
    new_opaque_token hash_opaque_token family_for add_refresh_token bind_family set_session pure
    show show_from digit concat ◌>>=◌
code-works = refl

verify_challenge-succeeds_example :
    (ch : SignInChallenge) × (c : Credential) × Usable "ch" (rest false) ch c
    × Matches demo "123456" ch
    × Burnt "ch" signed_in.committed
verify_challenge-succeeds_example =
    verify_challenge-succeeds "ch" "123456" none none demo (rest false) signed_in
      ("jwt", 300, "u14") code-works

code-single_use_example :
    verify_challenge "ch" "123456" none none demo (run demo (close signed_in) sign_in_twice) ≡ (
      err (auth (invalid_challenge "Invalid or expired sign-in code")),
      run demo (close signed_in) sign_in_twice,
    )
code-single_use_example =
    code-single_use "ch" "123456" none none demo (rest false) signed_in ("jwt", 300, "u14")
      sign_in_twice "123456" none none code-works

-- The account, locked until a minute has passed.
abbrev locked : Credential
locked = record ann { locked_until = some 60000000 }

abbrev locked_db : Db
locked_db = record empty_db { credentials = locked ∷ [] }

lockout_ends_example :
    Admitted demo
      (run demo
        (record (init 0) { committed = locked_db; working = locked_db })
        (wait 60000000 ∷ []))
      "ann@x.com"
      "pw"
      none
      locked
unfolding normalize_email lower strip lstrip rstrip keep_before is_space lower_char translate
lockout_ends_example =
    lockout_ends demo (record (init 0) { committed = locked_db; working = locked_db }) "ann@x.com"
      "pw" none locked 60000000 60000000 refl refl refl
      (record { text = "hpw"; stored = refl; full = refl; accepted = refl }) (omega arith)
