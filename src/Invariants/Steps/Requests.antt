-- ===== src/Invariants/Steps/Requests.antt =====
-- Every request keeps such an invariant, and so does a run of the service.
use mxtng_auth_services.Common.{◌≡◌, refl, String, Option, none, some, List, [], ◌∷◌}
use mxtng_auth_services.Models.{Db, Credential}
use mxtng_auth_services.World.{World}
use mxtng_auth_services.Action.{State, Result, ok, err}
use mxtng_auth_services.Google.{exchange_code}
use mxtng_auth_services.Services.OAuth.{
  issue_oauth_state, refuse_missing_state, burn_state, consume_oauth_state,
}
use mxtng_auth_services.Services.Google.{
  refresh_google, link_existing, google_signup, upsert_google_credential,
}
use mxtng_auth_services.Services.Admin.{change_email, disable_credential}
use mxtng_auth_services.Api.{
  signup, login_challenge, login_verify, login_resend, refresh, logout, logout_all,
  sessions_introspect, password_reset_request, password_reset_confirm, require_google, google_start,
  google_callback, require_admin, admin_change_email, admin_disable, Request, signs_up,
  asks_challenge, verifies, asks_resend, refreshes, logs_out, logs_out_all, introspects, asks_reset,
  confirms_reset, starts_google, returns_google, changes_email, disables, handle, serve, Event,
  request, wait, step, run,
}
use mxtng_auth_services.Invariants.Keeps.{Keeps, Outcome}
use mxtng_auth_services.Invariants.Mail.{Keeps-emit}
use mxtng_auth_services.Invariants.Lasting.Assignments.{assignment_rules}
use mxtng_auth_services.Services.Sessions.{live_session_ids}
use mxtng_auth_services.Invariants.Steps.{Steps, step_rules}
use mxtng_auth_services.Invariants.Steps.SignIn.{
  Keeps-create_credential, Keeps-authenticate, Keeps-resend_challenge, Keeps-verify_challenge,
  Keeps-request_password_reset, Keeps-confirm_password_reset,
}

ruleset helper_rules = (step_rules, assignment_rules)

module _ {P : Db → Type 0} {w : World} (k : Steps P w) where
  issue_oauth_state-Keeps : Keeps P w issue_oauth_state
  unfolding issue_oauth_state
  issue_oauth_state-Keeps = search helper_rules depth 10

  refuse_missing_state-Keeps : (ip : Option String) → Keeps P w (refuse_missing_state ip)
  unfolding refuse_missing_state
  refuse_missing_state-Keeps ip = search helper_rules depth 6

  burn_state-Keeps : (state : String) (ip : Option String) → Keeps P w (burn_state state ip)
  unfolding burn_state
  burn_state-Keeps state ip = search helper_rules depth 12

  pub consume_oauth_state-Keeps :
      (state ip : Option String) → Keeps P w (consume_oauth_state state ip)
  unfolding consume_oauth_state
  consume_oauth_state-Keeps none ip = refuse_missing_state-Keeps ip
  consume_oauth_state-Keeps (some state) ip =
      search (helper_rules, burn_state-Keeps, refuse_missing_state-Keeps)

  refresh_google-Keeps : (x : Credential) → Keeps P w (refresh_google x)
  unfolding refresh_google
  refresh_google-Keeps x = search helper_rules depth 7

  link_existing-Keeps :
      (x : Credential) (sub email : String) (ip : Option String)
      → Keeps P w (link_existing x sub email ip)
  unfolding link_existing
  link_existing-Keeps x sub email ip = search helper_rules depth 8

  google_signup-Keeps :
      (sub email : String) (ip : Option String) → Keeps P w (google_signup sub email ip)
  unfolding google_signup
  google_signup-Keeps sub email ip = search helper_rules depth 10

  upsert-Keeps :
      (sub email : String) (ip : Option String) → Keeps P w (upsert_google_credential sub email ip)
  unfolding upsert_google_credential
  upsert-Keeps sub email ip =
      search (helper_rules, refresh_google-Keeps, link_existing-Keeps, google_signup-Keeps) depth 8

  exchange_code-Keeps : (code : String) → Keeps P w (exchange_code code)
  unfolding exchange_code
  exchange_code-Keeps code = search helper_rules depth 9

  change_email-Keeps : (x : Credential) (email : String) → Keeps P w (change_email x email)
  unfolding change_email
  change_email-Keeps x email = search (helper_rules, Keeps-emit) depth 10

  disable-Keeps : (x : Credential) → Keeps P w (disable_credential x)
  unfolding disable_credential
  disable-Keeps x = search (helper_rules, Keeps-emit) depth 10

  require_admin-Keeps : (key : Option String) → Keeps P w (require_admin key)
  unfolding require_admin
  require_admin-Keeps key = search helper_rules

  require_google-Keeps : Keeps P w require_google
  unfolding require_google
  require_google-Keeps = search helper_rules

  live_session_ids-Keeps : (ids : List String) → Keeps P w (live_session_ids ids)
  unfolding live_session_ids
  live_session_ids-Keeps ids = search helper_rules

ruleset handler_rules = (
  helper_rules, Keeps-create_credential, Keeps-authenticate, Keeps-resend_challenge,
  Keeps-verify_challenge, Keeps-request_password_reset, Keeps-confirm_password_reset,
  issue_oauth_state-Keeps, consume_oauth_state-Keeps, upsert-Keeps, exchange_code-Keeps,
  change_email-Keeps, disable-Keeps, require_admin-Keeps, require_google-Keeps,
  live_session_ids-Keeps,
)

module _ {P : Db → Type 0} {w : World} (k : Steps P w) where
  Keeps-handle : (r : Request) → Keeps P w (handle r)
  unfolding handle signup login_challenge login_verify login_resend refresh logout logout_all
      sessions_introspect password_reset_request password_reset_confirm google_start google_callback
      admin_change_email admin_disable
  Keeps-handle (signs_up email password key ip) = search handler_rules depth 8
  Keeps-handle (asks_challenge email password audience ip) = search handler_rules depth 8
  Keeps-handle (verifies id code ip ua) = search handler_rules depth 8
  Keeps-handle (asks_resend id ip) = search handler_rules depth 8
  Keeps-handle (refreshes raw ip) = search handler_rules depth 8
  Keeps-handle (logs_out raw) = search handler_rules depth 8
  Keeps-handle (logs_out_all raw) = search handler_rules depth 8
  Keeps-handle (introspects ids) = search handler_rules depth 8
  Keeps-handle (asks_reset email ip) = search handler_rules depth 8
  Keeps-handle (confirms_reset token password ip) = search handler_rules depth 8
  Keeps-handle starts_google = search handler_rules depth 8
  Keeps-handle (returns_google code state ip) = search handler_rules depth 12
  Keeps-handle (changes_email key id email) = search handler_rules depth 9
  Keeps-handle (disables key id) = search handler_rules depth 9

pub committed-Outcome :
    (P : Db → Type 0) (r : Result (Unit {0}) × State) → Outcome P r → P r.1.committed
committed-Outcome P (ok a, s) h = h.0
committed-Outcome P (err e, s) h = h

-- No transaction is open between requests.
pub step-settled :
    (w : World) (s : State) (e : Event)
    → s.working ≡ s.committed
    → (step w s e).working ≡ (step w s e).committed
unfolding step serve
step-settled w s (request r) e = refl
step-settled w s (wait n) e = e

pub run-settled :
    (w : World) (s : State) (es : List Event)
    → s.working ≡ s.committed
    → (run w s es).working ≡ (run w s es).committed
unfolding run
run-settled w s [] e = e
run-settled w s (x ∷ es) e = run-settled w (step w s x) es (step-settled w s x e)

module _ {P : Db → Type 0} (w : World) (k : Steps P w) where
  step-Keeps :
      (s : State) (e : Event) → P s.committed → s.working ≡ s.committed → P (step w s e).committed
  unfolding step serve
  step-Keeps s (request r) h e =
      committed-Outcome P (handle r w s) ((Keeps-handle k r).at s h (rw e h))
  step-Keeps s (wait n) h e = h

  pub run-Keeps :
      (s : State) (es : List Event)
      → P s.committed
      → s.working ≡ s.committed
      → P (run w s es).committed
  unfolding run
  run-Keeps s [] h e = h
  run-Keeps s (x ∷ es) h e = run-Keeps (step w s x) es (step-Keeps s x h e) (step-settled w s x e)
