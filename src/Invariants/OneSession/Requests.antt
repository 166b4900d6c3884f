-- ===== src/Invariants/OneSession/Requests.antt =====
-- Every request keeps the invariant, and so does a run of the service.
use mxtng_auth_services.Common.{ℕ, ◌≤◌, refl, arith, String, Option, List, count}
use mxtng_auth_services.Models.{Datetime, Credential}
use mxtng_auth_services.World.{World}
use mxtng_auth_services.Action.{init}
use mxtng_auth_services.Services.Sessions.{live_of}
use mxtng_auth_services.Services.OAuth.{burn_open}
use mxtng_auth_services.Services.Challenge.{supersede_challenges, retire_challenge, start_challenge}
use mxtng_auth_services.Api.{Event, run}
use mxtng_auth_services.Invariants.Keeps.{Keeps}
use mxtng_auth_services.Invariants.Mail.{Keeps-on_failure}
use mxtng_auth_services.Invariants.Steps.{Steps}
use mxtng_auth_services.Invariants.Steps.Requests.{run-Keeps}
use mxtng_auth_services.Invariants.OneSession.Defs.{OneSession}
use mxtng_auth_services.Invariants.OneSession.Helpers.{
  helper_rules, Keeps-audit, Keeps-set_credential, Keeps-set_challenge, Keeps-set_reset_token,
  Keeps-add_credential, Keeps-add_reset_token, Keeps-add_oauth_state,
}
use mxtng_auth_services.Invariants.OneSession.Revoke.{
  Keeps-revoke_all, Keeps-revoke_by_raw, Keeps-revoke_all_by_raw,
}
use mxtng_auth_services.Invariants.OneSession.Issue.{Policy, Keeps-sign_in}
use mxtng_auth_services.Invariants.OneSession.Rotate.{Keeps-rotate_refresh}
use mxtng_auth_services.Invariants.Mail.{Keeps-mail_sign_in_code}

module _ {w : World} where
  burn_open-Keeps : (hash : String) (at : ℕ) → Keeps OneSession w (burn_open hash at)
  unfolding burn_open
  burn_open-Keeps hash at = search helper_rules

  supersede_challenges-Keeps : (id : ℕ) → Keeps OneSession w (supersede_challenges id)
  unfolding supersede_challenges
  supersede_challenges-Keeps id = search helper_rules

  retire_challenge-Keeps :
      (id : ℕ) (c : Credential) (reason : String) (ip : Option String)
      → Keeps OneSession w (retire_challenge id c reason ip)
  unfolding retire_challenge
  retire_challenge-Keeps id c reason ip = search helper_rules depth 7

  start_challenge-Keeps :
      (c : Credential) (requested : String) (ip : Option String)
      → Keeps OneSession w (start_challenge c requested ip)
  unfolding start_challenge
  start_challenge-Keeps c requested ip =
      search
        (
          helper_rules, Keeps-on_failure, supersede_challenges-Keeps, Keeps-mail_sign_in_code,
          retire_challenge-Keeps,
        )
        depth 18

OneSession-Steps : (w : World) → Policy w → Steps OneSession w
OneSession-Steps w p = record {
  keeps_audit = Keeps-audit;
  keeps_set_credential = λ id f k. Keeps-set_credential id f;
  keeps_set_challenge = λ id f k. Keeps-set_challenge id f;
  keeps_set_reset_token = λ id f k. Keeps-set_reset_token id f;
  keeps_add_credential = Keeps-add_credential;
  keeps_add_reset_token = Keeps-add_reset_token;
  keeps_add_oauth_state = Keeps-add_oauth_state;
  keeps_burn_open = burn_open-Keeps;
  keeps_start_challenge = start_challenge-Keeps;
  keeps_sign_in = Keeps-sign_in w p;
  keeps_rotate_refresh = Keeps-rotate_refresh;
  keeps_revoke_by_raw = Keeps-revoke_by_raw;
  keeps_revoke_all = Keeps-revoke_all;
  keeps_revoke_all_by_raw = Keeps-revoke_all_by_raw;
}

-- Where the one-session policy is on and no UUID is the empty text: whatever requests the service
-- handles from an empty database on, whatever their order and the time between them, and however
-- many of them fail, no credential ever has two live sessions among the stored rows.
pub one_live_session :
    (w : World) (p : Policy w) (t : Datetime) (es : List Event) (c : ℕ)
    → count (live_of c) (run w (init t) es).committed.sessions ≤ 1
one_live_session w p t es c =
    (run-Keeps w (OneSession-Steps w p) (init t) es
        (record { single = λ c. omega arith; bound = tt; families = tt }) refl).single
      c
