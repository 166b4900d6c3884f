-- ===== src/Invariants/Closed/AsSteps.antt =====
-- An invariant that every write keeps is kept by every step, where its start of a challenge is.
use mxtng_auth_services.Common.{ℕ, String, Option, none, true}
use mxtng_auth_services.Models.{Db, Credential, SignInChallenge}
use mxtng_auth_services.World.{World}
use mxtng_auth_services.Services.Challenge.{retire_challenge, start_challenge}
use mxtng_auth_services.Services.Helpers.{add_challenge}
use mxtng_auth_services.Invariants.Keeps.{Keeps}
use mxtng_auth_services.Invariants.Mail.{Keeps-mail_sign_in_code, Keeps-on_failure}
use mxtng_auth_services.Invariants.Steps.{Steps}
use mxtng_auth_services.Invariants.Lasting.Assignments.{assignment_rules}
use mxtng_auth_services.Invariants.Closed.{Closed, closed_rules}
use mxtng_auth_services.Invariants.Closed.Tokens.{
  Keeps-issue_tokens, Keeps-rotate_refresh, Keeps-revoke_by_raw, Keeps-revoke_all,
  Keeps-revoke_all_by_raw,
}

ruleset helper_rules = (closed_rules, assignment_rules)

module _ {P : Db → Type 0} {w : World} (k : Closed P w) where
  pub retire_challenge-Keeps :
      (id : ℕ) (y : Credential) (reason : String) (ip : Option String)
      → Keeps P w (retire_challenge id y reason ip)
  unfolding retire_challenge
  retire_challenge-Keeps id y reason ip = search helper_rules depth 7

  pub Keeps-start_challenge :
      (y : Credential) (requested : String) (ip : Option String)
      → ((x : SignInChallenge) → Keeps P w (add_challenge x))
      → Keeps P w (start_challenge y requested ip)
  unfolding start_challenge
  Keeps-start_challenge y requested ip add =
      search (helper_rules, add, Keeps-mail_sign_in_code, Keeps-on_failure, retire_challenge-Keeps)
        depth 18

  pub Closed-Steps :
      ((y : Credential) (requested : String) (ip : Option String)
        → Keeps P w (start_challenge y requested ip))
      → Steps P w
  Closed-Steps start = record {
    keeps_audit = k.keeps_audit;
    keeps_set_credential = k.keeps_set_credential;
    keeps_set_challenge = k.keeps_set_challenge;
    keeps_set_reset_token = k.keeps_set_reset_token;
    keeps_add_credential = k.keeps_add_credential;
    keeps_add_reset_token = k.keeps_add_reset_token;
    keeps_add_oauth_state = k.keeps_add_oauth_state;
    keeps_burn_open = k.keeps_burn_open;
    keeps_start_challenge = start;
    keeps_sign_in = λ y requested ip ua. Keeps-issue_tokens k y requested none none ip ua true;
    keeps_rotate_refresh = Keeps-rotate_refresh k;
    keeps_revoke_by_raw = Keeps-revoke_by_raw k;
    keeps_revoke_all = Keeps-revoke_all k;
    keeps_revoke_all_by_raw = Keeps-revoke_all_by_raw k;
  }
