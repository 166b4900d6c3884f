-- ===== src/Api.antt =====
-- api.py: the handlers, as compositions of the services. A handler that sets the refresh cookie
-- returns its value; the rate limits stand in Ratelimit.
pub mod Lockout
use mxtng_auth_services.Common.{
  ℕ, ◌+◌, ◌-◌, max, String, Bool, false, not, ◌&&◌, Option, none, some, List, [], ◌∷◌, str_eq,
  truthy, if◌then◌else◌,
}
use mxtng_auth_services.Text.{before, after, take, count_chars, concat, repeat}
use mxtng_auth_services.Models.{Credential, SignInChallenge}
use mxtng_auth_services.Settings.{Settings, google_enabled, is_development, reveal}
use mxtng_auth_services.World.{World}
use mxtng_auth_services.Schemas.{ChallengeResponse}
use mxtng_auth_services.Errors.{http, unhandled}
use mxtng_auth_services.Mail.{or_empty}
use mxtng_auth_services.Signer.{is_ascii}
use mxtng_auth_services.Google.{exchange_code}
use mxtng_auth_services.Action.{
  Action, State, close, pure, throw, asks, or_else, on_option, when, ◌>>=◌, ◌>>◌,
}
use mxtng_auth_services.Services.Helpers.{get_credential, get_by_auth_user_id}
use mxtng_auth_services.Services.Signup.{create_credential}
use mxtng_auth_services.Services.Login.{authenticate}
use mxtng_auth_services.Services.Challenge.{start_challenge, resend_challenge, verify_challenge}
use mxtng_auth_services.Services.Sessions.{live_session_ids}
use mxtng_auth_services.Services.Refresh.{rotate_refresh, revoke_by_raw, revoke_all_by_raw}
use mxtng_auth_services.Services.Reset.{request_password_reset, confirm_password_reset}
use mxtng_auth_services.Services.OAuth.{issue_oauth_state, consume_oauth_state}
use mxtng_auth_services.Services.Google.{upsert_google_credential}
use mxtng_auth_services.Services.Admin.{change_email, disable_credential}

-- The tokens that a handler answers with, and the value of the cookie that it sets.
pub record IssuedTokens : Type 0 where
  pub access_token : String
  pub expires_in : ℕ
  pub refresh_cookie : String

-- `_email_hint`: the first character of the local part, and the domain.
unfoldable pub email_hint : String → String
email_hint email =
    let local = before b'@' email in
    let domain = after b'@' email in
    let masked =
      if truthy (some local)
      then concat (take 1 local ∷ repeat (max (count_chars local - 1) 1) "•" ∷ [])
      else "•" in
    if truthy (some domain) then concat (masked ∷ "@" ∷ domain ∷ []) else masked

-- `_challenge_response`
unfoldable pub challenge_response : Settings → SignInChallenge → String → ChallengeResponse
challenge_response cfg challenge email = record {
  challenge_id = challenge.challenge_id;
  expires_in = cfg.otp_ttl_seconds;
  email_hint = email_hint email;
}

unfoldable pub signup : String → String → Option String → Option String → Action (String × String)
signup email password idempotency_key ip = do
  credential ← create_credential email password idempotency_key ip
  pure (credential.auth_user_id, credential.email)

unfoldable pub login_challenge :
    String → String → Option String → Option String → Action ChallengeResponse
login_challenge email password audience ip = do
  credential ← authenticate email password ip
  challenge ← start_challenge credential (or_empty audience) ip
  cfg ← asks (λ w. w.settings)
  pure (challenge_response cfg challenge credential.email)

unfoldable pub login_verify : String → String → Option String → Option String → Action IssuedTokens
login_verify challenge_id code ip user_agent = do
  (access_token, expires_in, refresh_raw) ← verify_challenge challenge_id code ip user_agent
  pure (record {
    access_token = access_token;
    expires_in = expires_in;
    refresh_cookie = refresh_raw;
  })

abbrev pub email_of : Option Credential → String
email_of none = ""
email_of (some c) = c.email

unfoldable pub login_resend : String → Option String → Action ChallengeResponse
login_resend challenge_id ip = do
  challenge ← resend_challenge challenge_id ip
  credential ← get_credential challenge.credential_id
  cfg ← asks (λ w. w.settings)
  pure (challenge_response cfg challenge (email_of credential))

-- The cookie's value, if it is there and not empty.
abbrev pub cookie : Option String → Option String
cookie none = none
cookie (some raw) = if truthy (some raw) then some raw else none

unfoldable pub refresh : Option String → Option String → Action IssuedTokens
refresh raw_cookie ip = do
  raw ← or_else (cookie raw_cookie) (throw (http 401 "Missing refresh token"))
  (access_token, expires_in, new_raw) ← rotate_refresh raw ip
  pure (record { access_token = access_token; expires_in = expires_in; refresh_cookie = new_raw })

-- Both logouts look at the cookie; what they do to it stands in Endpoint.
unfoldable pub logout : Option String → Action (Unit {0})
logout raw_cookie = on_option (cookie raw_cookie) (pure tt) revoke_by_raw

unfoldable pub logout_all : Option String → Action (Unit {0})
logout_all raw_cookie = on_option (cookie raw_cookie) (pure tt) revoke_all_by_raw

unfoldable pub sessions_introspect : List String → Action (List String)
sessions_introspect session_ids = live_session_ids session_ids

-- The reply never tells whether the address is known; a developer may ask for the token back.
unfoldable pub reset_message : Settings → Option String → String
reset_message cfg none = "If that email exists, a reset link has been sent."
reset_message cfg (some raw) =
    if truthy (some raw) && (cfg.debug_echo_reset_tokens && is_development cfg)
    then concat ("reset_token=" ∷ raw ∷ [])
    else "If that email exists, a reset link has been sent."

unfoldable pub password_reset_request : String → Option String → Action String
password_reset_request email ip = do
  raw ← request_password_reset email ip
  cfg ← asks (λ w. w.settings)
  pure (reset_message cfg raw)

unfoldable pub password_reset_confirm : String → String → Option String → Action (Unit {0})
password_reset_confirm token new_password ip = confirm_password_reset token new_password ip

-- `_require_google`
unfoldable pub require_google : Action (Unit {0})
require_google = do
  cfg ← asks (λ w. w.settings)
  when (not (google_enabled cfg)) (throw (http 501 "Google sign-in is not configured"))

-- `google_start`; the authorization URL carries the state that is returned here.
unfoldable pub google_start : Action String
google_start = do require_google; issue_oauth_state

-- `google_callback`, up to the redirect that carries the challenge id.
unfoldable pub google_callback : String → Option String → Option String → Action ChallengeResponse
google_callback code state ip = do
  require_google
  consume_oauth_state state ip
  (google_sub, email) ← exchange_code code
  credential ← upsert_google_credential google_sub email ip
  cfg ← asks (λ w. w.settings)
  challenge ← start_challenge credential cfg.default_audience ip
  pure (challenge_response cfg challenge credential.email)

-- `secrets.compare_digest` takes two texts only where both are ASCII, and raises a TypeError.
unfoldable pub not_comparable : String → Option String → Bool
not_comparable expected none = false
not_comparable expected (some key) = truthy (some key) && not (is_ascii key && is_ascii expected)

-- `not x_admin_key or not secrets.compare_digest(…)`
abbrev pub is_admin_key : String → Option String → Bool
is_admin_key expected none = false
is_admin_key expected (some key) = truthy (some key) && str_eq key expected

-- `_require_admin`
unfoldable pub require_admin : Option String → Action (Unit {0})
require_admin x_admin_key = do
  cfg ← asks (λ w. w.settings)
  when (not (truthy (reveal cfg.admin_api_key))) (throw (http 503 "Admin API is not configured."))
  when (not_comparable (or_empty (reveal cfg.admin_api_key)) x_admin_key) (throw unhandled)
  when (not (is_admin_key (or_empty (reveal cfg.admin_api_key)) x_admin_key))
      (throw (http 403 "Forbidden"))

unfoldable pub admin_change_email : Option String → String → String → Action (Unit {0})
admin_change_email x_admin_key auth_user_id email = do
  require_admin x_admin_key
  found ← get_by_auth_user_id auth_user_id
  credential ← or_else found (throw (http 404 "Not found"))
  change_email credential email

unfoldable pub admin_disable : Option String → String → Action (Unit {0})
admin_disable x_admin_key auth_user_id = do
  require_admin x_admin_key
  found ← get_by_auth_user_id auth_user_id
  credential ← or_else found (throw (http 404 "Not found"))
  disable_credential credential

-- The endpoints that touch the database, each with the parts of the request that its handler reads.
pub data Request : Type 0 where
  signs_up : String → String → Option String → Option String → Request
  asks_challenge : String → String → Option String → Option String → Request
  verifies : String → String → Option String → Option String → Request
  asks_resend : String → Option String → Request
  refreshes : Option String → Option String → Request
  logs_out : Option String → Request
  logs_out_all : Option String → Request
  introspects : List String → Request
  asks_reset : String → Option String → Request
  confirms_reset : String → String → Option String → Request
  starts_google : Request
  returns_google : String → Option String → Option String → Request
  changes_email : Option String → String → String → Request
  disables : Option String → String → Request

-- The handler of a request, without the body of its reply.
unfoldable pub handle : Request → Action (Unit {0})
handle (signs_up email password key ip) = signup email password key ip >> pure tt
handle (asks_challenge email password audience ip) =
    login_challenge email password audience ip >> pure tt
handle (verifies challenge_id code ip user_agent) =
    login_verify challenge_id code ip user_agent >> pure tt
handle (asks_resend challenge_id ip) = login_resend challenge_id ip >> pure tt
handle (refreshes raw ip) = refresh raw ip >> pure tt
handle (logs_out raw) = logout raw
handle (logs_out_all raw) = logout_all raw
handle (introspects ids) = sessions_introspect ids >> pure tt
handle (asks_reset email ip) = password_reset_request email ip >> pure tt
handle (confirms_reset token password ip) = password_reset_confirm token password ip
handle starts_google = google_start >> pure tt
handle (returns_google code state ip) = google_callback code state ip >> pure tt
handle (changes_email key id email) = admin_change_email key id email
handle (disables key id) = admin_disable key id

-- One request, and the end of its database session.
unfoldable pub serve : World → State → Request → State
serve w s r = close (handle r w s).1

-- What happens to the service, one thing after another: a request, or time that goes by.
pub data Event : Type 0 where
  request : Request → Event
  wait : ℕ → Event

unfoldable pub step : World → State → Event → State
step w s (request r) = serve w s r
step w s (wait n) = record s { now = s.now + n }

unfoldable pub run : World → State → List Event → State
run w s [] = s
run w s (e ∷ es) = run w (step w s e) es
