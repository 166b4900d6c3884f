-- ===== src/Invariants/Lasting/Consequences.antt =====
-- What a caller sees of rows that are ended, consumed or used, any number of requests later.
use mxtng_auth_services.Common.{
  String, ◌≡◌, ◌∙◌, ap, refl, true, false, Option, some, List, find?, str_eq,
}
use mxtng_auth_services.Models.{Session, SignInChallenge, PasswordResetToken}
use mxtng_auth_services.Errors.{auth, invalid_challenge, invalid_reset_token}
use mxtng_auth_services.World.{World}
use mxtng_auth_services.Action.{State, ok, err, ◌>>=◌}
use mxtng_auth_services.Security.{hash_opaque_token}
use mxtng_auth_services.Services.Sessions.{by_session_id, get_session, is_session_live}
use mxtng_auth_services.Services.Challenge.{
  by_challenge_id, find_challenge, load_live_challenge, load_resendable_challenge, check_verify,
  verify_challenge, check_resend, resend_challenge,
}
use mxtng_auth_services.Services.Reset.{by_reset_hash, check_reset, confirm_password_reset}
use mxtng_auth_services.Api.{Event, run}
use mxtng_auth_services.Invariants.Lasting.Rows.{Grows-find?}
use mxtng_auth_services.Invariants.Lasting.Defs.{SessionLasts, ChallengeLasts, ResetLasts}
use mxtng_auth_services.Invariants.Lasting.Requests.{run-Lasts}
use mxtng_auth_services.Invariants.Steps.Requests.{run-settled}

module _ (w : World) (s : State) (es : List Event) (settled : s.working ≡ s.committed) where
  later-session :
      (id : String) (t : Session)
      → find? (by_session_id id) s.committed.sessions ≡ some t
      → t.revoked ≡ true
      → (u : Session) × (find? (by_session_id id) (run w s es).working.sessions ≡ some u)
        × (u.revoked ≡ true)
  later-session id t found revoked =
      let (u, found', lasts) =
        Grows-find? SessionLasts (by_session_id id) (λ x y r. ap (λ k. str_eq k id) r.session_id)
          s.committed.sessions (run w s es).committed.sessions t (run-Lasts w s es settled).sessions
          found in
      (
        u,
        ap (λ db. find? (by_session_id id) db.sessions) (run-settled w s es settled) ∙ found',
        lasts.revoked revoked,
      )

  -- A session that is ended is never live again: whatever requests follow, in any order and
  -- however many of them fail, the check of its liveness answers no.
  pub ended_session-never_live :
      (id : String) (t : Session)
      → find? (by_session_id id) s.committed.sessions ≡ some t
      → t.revoked ≡ true
      → (is_session_live id w (run w s es)).0 ≡ ok false
  unfolding is_session_live get_session ◌>>=◌
  ended_session-never_live id t found revoked =
      let (u, found', ended) = later-session id t found revoked in rw (found', ended) refl

  later-challenge :
      (id : String) (t : SignInChallenge)
      → find? (by_challenge_id id) s.committed.challenges ≡ some t
      → t.consumed ≡ true
      → (u : SignInChallenge) × (find? (by_challenge_id id) (run w s es).working.challenges
          ≡ some u)
        × (u.consumed ≡ true)
  later-challenge id t found consumed =
      let (u, found', lasts) =
        Grows-find? ChallengeLasts (by_challenge_id id)
          (λ x y r. ap (λ k. str_eq k id) r.challenge_id) s.committed.challenges
          (run w s es).committed.challenges t (run-Lasts w s es settled).challenges found in
      (
        u,
        ap (λ db. find? (by_challenge_id id) db.challenges) (run-settled w s es settled) ∙ found',
        lasts.consumed consumed,
      )

  -- A consumed challenge stays refused: whatever requests follow, in any order and however many of
  -- them fail, verifying any code against it raises InvalidChallenge and changes nothing.
  pub consumed_challenge-refused :
      (id : String) (t : SignInChallenge) (code : String) (ip ua : Option String)
      → find? (by_challenge_id id) s.committed.challenges ≡ some t
      → t.consumed ≡ true
      → verify_challenge id code ip ua w (run w s es)
        ≡ (err (auth (invalid_challenge "Invalid or expired sign-in code")), run w s es)
  unfolding verify_challenge check_verify load_live_challenge find_challenge ◌>>=◌
  consumed_challenge-refused id t code ip ua found consumed =
      let (u, found', burnt) = later-challenge id t found consumed in rw (found', burnt) refl

  -- A consumed challenge cannot be revived by a resend either: whatever requests follow, asking for
  -- a new code of it raises InvalidChallenge, and no mail is sent.
  pub consumed_challenge-not_resent :
      (id : String) (t : SignInChallenge) (ip : Option String)
      → find? (by_challenge_id id) s.committed.challenges ≡ some t
      → t.consumed ≡ true
      → resend_challenge id ip w (run w s es)
        ≡ (err (auth (invalid_challenge "Invalid or expired sign-in code")), run w s es)
  unfolding resend_challenge check_resend load_resendable_challenge find_challenge ◌>>=◌
  consumed_challenge-not_resent id t ip found consumed =
      let (u, found', burnt) = later-challenge id t found consumed in rw (found', burnt) refl

  later-reset :
      (hash : String) (t : PasswordResetToken)
      → find? (by_reset_hash hash) s.committed.reset_tokens ≡ some t
      → t.used ≡ true
      → (u : PasswordResetToken) × (find? (by_reset_hash hash) (run w s es).working.reset_tokens
          ≡ some u)
        × (u.used ≡ true)
  later-reset hash t found used =
      let (u, found', lasts) =
        Grows-find? ResetLasts (by_reset_hash hash) (λ x y r. ap (λ k. str_eq k hash) r.token_hash)
          s.committed.reset_tokens (run w s es).committed.reset_tokens t
          (run-Lasts w s es settled).reset_tokens found in
      (
        u,
        ap (λ db. find? (by_reset_hash hash) db.reset_tokens) (run-settled w s es settled) ∙ found',
        lasts.used used,
      )

  -- A used reset token stays refused: whatever requests follow, in any order and however many of
  -- them fail, confirming a reset with it raises InvalidResetToken and changes nothing.
  pub used_reset_token-refused :
      (raw password : String) (t : PasswordResetToken) (ip : Option String)
      → find? (by_reset_hash (hash_opaque_token w raw)) s.committed.reset_tokens ≡ some t
      → t.used ≡ true
      → confirm_password_reset raw password ip w (run w s es)
        ≡ (err (auth (invalid_reset_token "Invalid or expired reset token")), run w s es)
  unfolding confirm_password_reset check_reset ◌>>=◌
  used_reset_token-refused raw password t ip found used =
      let (u, found', spent) = later-reset (hash_opaque_token w raw) t found used in
      rw (found', spent) refl
