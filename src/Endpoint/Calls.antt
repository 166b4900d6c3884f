-- ===== src/Endpoint/Calls.antt =====
-- api.py, the routes: what each call brings, the ceiling of its route, the request that its handler
-- gets, and the whole way of a call through the server.
use mxtng_auth_services.Common.{ℕ, String, Option, none, some, List, [], ◌∷◌, str_eq, if◌then◌else◌}
use mxtng_auth_services.Settings.{Settings}
use mxtng_auth_services.World.{World}
use mxtng_auth_services.Errors.{http, unhandled}
use mxtng_auth_services.Action.{Action, State, Result, ok, err, close, pure, throw, ◌>>◌}
use mxtng_auth_services.Ratelimit.{Limiter, rate_limit, client_ip}
use mxtng_auth_services.Signer.{Jwk}
use mxtng_auth_services.Schemas.{
  CredentialCreate, LoginRequest, ChallengeVerifyRequest, ChallengeResendRequest,
  SessionIntrospectRequest, PasswordResetRequest, PasswordResetConfirm, EmailChange,
  validate_credential_create, validate_login, validate_reset_request, validate_email_change,
  validate_verify, validate_introspect, validate_reset_confirm,
}
use mxtng_auth_services.Api.{
  require_admin, Request, signs_up, asks_challenge, verifies, asks_resend, refreshes, logs_out,
  logs_out_all, introspects, asks_reset, confirms_reset, starts_google, returns_google,
  changes_email, disables,
}
use mxtng_auth_services.Endpoint.{Handled, Answer, answer, respond, healthy, key_set}

-- What a route reads of the HTTP request besides its body.
pub record Origin : Type 0 where
  pub forwarded : Option String
  pub host : Option String
  pub user_agent : Option String
  pub cookies : List (String × String)
  pub admin_key : Option String

-- The parsers that the framework brings, and what `get_signer().jwks()` answers in this process:
-- nothing where `get_signer` raises.
pub record Web : Type 0 where
  pub parse_email : String → Option String
  pub urlencode : List (String × String) → String
  pub published : Option (List Jwk)

pub data Call : Type 0 where
  posts_credentials : CredentialCreate → Option String → Call
  posts_challenge : LoginRequest → Call
  posts_verify : ChallengeVerifyRequest → Call
  posts_resend : ChallengeResendRequest → Call
  posts_introspect : SessionIntrospectRequest → Call
  posts_reset : PasswordResetRequest → Call
  posts_confirm : PasswordResetConfirm → Call
  posts_email_change : String → EmailChange → Call
  posts_disable : String → Call
  gets_google_callback : String → Option String → Call
  posts_refresh posts_logout posts_logout_all gets_google_start gets_health gets_jwks : Call

-- `Depends(rate_limit(…))` of a route
unfoldable pub ceiling : Settings → Call → Option (String × ℕ)
ceiling cfg (posts_credentials _ _) = some ("signup", cfg.rate_limit_signup_per_minute)
ceiling cfg (posts_challenge _) = some ("login", cfg.rate_limit_login_per_minute)
ceiling cfg (posts_verify _) = some ("login", cfg.rate_limit_login_per_minute)
ceiling cfg (posts_resend _) = some ("login", cfg.rate_limit_login_per_minute)
ceiling cfg (posts_introspect _) = some ("introspect", cfg.rate_limit_introspect_per_minute)
ceiling cfg (posts_reset _) = some ("password_reset", cfg.rate_limit_reset_per_minute)
ceiling cfg (posts_confirm _) = some ("password_reset", cfg.rate_limit_reset_per_minute)
ceiling cfg gets_google_start = some ("login", cfg.rate_limit_login_per_minute)
ceiling cfg (gets_google_callback _ _) = some ("login", cfg.rate_limit_login_per_minute)
ceiling cfg _ = none

unfoldable pub limited :
    Settings → ℕ → Origin → Option (String × ℕ) → Limiter → Result (Unit {0}) × Limiter
limited cfg monotonic o none l = (ok tt, l)
limited cfg monotonic o (some (bucket, limit)) l =
    rate_limit cfg monotonic bucket limit o.forwarded o.host l

-- `request.cookies.get(…)`
abbrev pub later_or : Option String → Option String → Option String
later_or (some v) first = some v
later_or none first = first

-- `request.cookies`, a dict in which a later cookie of a name replaces an earlier one.
unfoldable pub cookie_of : String → List (String × String) → Option String
cookie_of name [] = none
cookie_of name ((n, v) ∷ cs) = later_or (cookie_of name cs) (if str_eq n name then some v else none)

abbrev pub map_option : {A B : Type 0} → (A → B) → Option A → Option B
map_option f none = none
map_option f (some a) = some (f a)

-- The arguments of the handler, or no request where the body is not valid.
unfoldable pub parse : Web → Settings → Origin → Call → Option Request
parse web cfg o (posts_credentials b key) =
    map_option (λ b. signs_up b.email b.password key (client_ip cfg o.forwarded o.host))
      (validate_credential_create web.parse_email b)
parse web cfg o (posts_challenge b) =
    map_option
      (λ b. asks_challenge b.email b.password b.audience (client_ip cfg o.forwarded o.host))
      (validate_login web.parse_email b)
parse web cfg o (posts_verify b) =
    map_option (λ b. verifies b.challenge_id b.code (client_ip cfg o.forwarded o.host) o.user_agent)
      (validate_verify b)
parse web cfg o (posts_resend b) =
    some (asks_resend b.challenge_id (client_ip cfg o.forwarded o.host))
parse web cfg o (posts_introspect b) =
    map_option (λ b. introspects b.session_ids) (validate_introspect b)
parse web cfg o (posts_reset b) =
    map_option (λ b. asks_reset b.email (client_ip cfg o.forwarded o.host))
      (validate_reset_request web.parse_email b)
parse web cfg o (posts_confirm b) =
    map_option (λ b. confirms_reset b.token b.new_password (client_ip cfg o.forwarded o.host))
      (validate_reset_confirm b)
parse web cfg o (posts_email_change id b) =
    map_option (λ b. changes_email o.admin_key id b.email) (validate_email_change web.parse_email b)
parse web cfg o (posts_disable id) = some (disables o.admin_key id)
parse web cfg o (gets_google_callback code state) =
    some (returns_google code state (client_ip cfg o.forwarded o.host))
parse web cfg o posts_refresh =
    some
      (refreshes (cookie_of cfg.refresh_cookie_name o.cookies) (client_ip cfg o.forwarded o.host))
parse web cfg o posts_logout = some (logs_out (cookie_of cfg.refresh_cookie_name o.cookies))
parse web cfg o posts_logout_all = some (logs_out_all (cookie_of cfg.refresh_cookie_name o.cookies))
parse web cfg o gets_google_start = some starts_google
parse web cfg o gets_health = none
parse web cfg o gets_jwks = none

unfoldable pub publish : Option (List Jwk) → Action Handled
publish none = throw unhandled
publish (some keys) = pure (Handled.returned 200 (key_set keys) [])

-- What a call with no request is answered: the two public routes, and otherwise a body that is not
-- valid, which the dependencies of the route come before.
unfoldable pub without_request : Web → Origin → Call → Action Handled
without_request web o gets_health = pure (Handled.returned 200 healthy [])
without_request web o gets_jwks = publish web.published
without_request web o (posts_email_change _ _) =
    require_admin o.admin_key >> throw (http 422 "Unprocessable Content")
without_request web o _ = throw (http 422 "Unprocessable Content")

pub record Server : Type 0 where
  pub limiter : Limiter
  pub state : State

unfoldable pub handle_parsed :
    Web → World → Origin → Call → Option Request → Server → Answer × Server
handle_parsed web w o call none v = (answer (without_request web o call w v.state).0, v)
handle_parsed web w o call (some r) v =
    let (result, s') = respond web.urlencode r w v.state in
    (answer result, record v { state = close s' })

unfoldable pub enter :
    Web → World → Origin → Call → Result (Unit {0}) → Limiter → Server → Answer × Server
enter web w o call (err e) l v = (answer (err e), record v { limiter = l })
enter web w o call (ok _) l v =
    handle_parsed web w o call (parse web w.settings o call) (record v { limiter = l })

-- One call: the ceiling of its route, then its body, then its handler and the end of its session.
unfoldable pub dispatch : Web → World → ℕ → Origin → Call → Server → Answer × Server
dispatch web w monotonic o call v =
    let (passed, l) = limited w.settings monotonic o (ceiling w.settings call) v.limiter in
    enter web w o call passed l v
