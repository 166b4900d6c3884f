-- ===== src/Endpoint.antt =====
-- api.py from the outside: one HTTP call through its rate limit, the validation of its body and its
-- handler, to the answer with its status, its body and its cookies.
pub mod Calls
pub mod Cookies
pub mod Verifying
use mxtng_auth_services.Common.{
  ℕ, String, Bool, true, false, not, ◌&&◌, Option, none, some, List, [], ◌∷◌, str_eq, truthy,
  if◌then◌else◌,
}
use mxtng_auth_services.Text.{concat, has_char}
use mxtng_auth_services.Settings.{Settings, SameSite}
use mxtng_auth_services.World.{World}
use mxtng_auth_services.Errors.{Error, auth, http, value_error, integrity_error, unhandled}
use mxtng_auth_services.Action.{Action, State, Result, ok, err, close, pure, asks, ◌>>=◌, ◌>>◌}
use mxtng_auth_services.Ratelimit.{Limiter, rate_limit}
use mxtng_auth_services.Signer.{Jwk}
use mxtng_auth_services.App.{JsonResponse, auth_error_handler}
use mxtng_auth_services.Schemas.{
  CredentialRead, ChallengeResponse, TokenResponse, SessionIntrospectResponse, GoogleAuthStart,
  MessageResponse,
}
use mxtng_auth_services.Api.{
  IssuedTokens, signup, login_challenge, login_verify, login_resend, refresh, logout, logout_all,
  sessions_introspect, password_reset_request, password_reset_confirm, google_start,
  google_callback, admin_change_email, admin_disable, Request, signs_up, asks_challenge, verifies,
  asks_resend, refreshes, logs_out, logs_out_all, introspects, asks_reset, confirms_reset,
  starts_google, returns_google, changes_email, disables,
}
use mxtng_auth_services.Google.{build_authorization_url}

-- A `Set-Cookie` header.
pub record SetCookie : Type 0 where
  pub key : String
  pub value : String
  pub max_age : ℕ
  pub httponly : Bool
  pub secure : Bool
  pub samesite : SameSite
  pub path : String
  pub domain : Option String

-- `_set_refresh_cookie`
unfoldable pub set_refresh_cookie : Settings → String → SetCookie
set_refresh_cookie cfg raw = record {
  key = cfg.refresh_cookie_name;
  value = raw;
  max_age = cfg.refresh_token_ttl_seconds;
  httponly = true;
  secure = cfg.refresh_cookie_secure;
  samesite = cfg.refresh_cookie_samesite;
  path = cfg.refresh_cookie_path;
  domain = cfg.refresh_cookie_domain;
}

-- `_clear_refresh_cookie`: `delete_cookie` sets an empty value that is over at once.
unfoldable pub clear_refresh_cookie : Settings → SetCookie
clear_refresh_cookie cfg = record {
  key = cfg.refresh_cookie_name;
  value = "";
  max_age = 0;
  httponly = true;
  secure = cfg.refresh_cookie_secure;
  samesite = cfg.refresh_cookie_samesite;
  path = cfg.refresh_cookie_path;
  domain = cfg.refresh_cookie_domain;
}

pub data Body : Type 0 where
  credential_read : CredentialRead → Body
  challenged : ChallengeResponse → Body
  token_response : TokenResponse → Body
  introspection : SessionIntrospectResponse → Body
  authorization : GoogleAuthStart → Body
  message_response : MessageResponse → Body
  error_body : List (String × String) → Body
  key_set : List Jwk → Body
  redirect : String → Body
  healthy no_content : Body

-- What a handler hands to FastAPI: a value, which is answered with the cookies of the response that
-- the handler was given, or a response of its own, in which those cookies do not appear.
pub data Handled : Type 0 where
  returned : ℕ → Body → List SetCookie → Handled
  own_response : ℕ → Body → List SetCookie → Handled

pub record Answer : Type 0 where
  pub status : ℕ
  pub body : Body
  pub cookies : List SetCookie

unfoldable pub answer_of : Handled → Answer
answer_of (returned status body cookies) = record {
  status = status;
  body = body;
  cookies = cookies;
}
answer_of (own_response status body given) = record { status = status; body = body; cookies = [] }

abbrev pub json_answer : ℕ → List (String × String) → Answer
json_answer status content = record { status = status; body = error_body content; cookies = [] }

-- An exception: the handler of main.py, FastAPI's for an HTTPException, and the server error.
unfoldable pub error_answer : Error → Answer
error_answer (auth exc) =
    json_answer (auth_error_handler exc).status (auth_error_handler exc).content
error_answer (http status detail) = json_answer status (("detail", detail) ∷ [])
error_answer value_error = json_answer 500 []
error_answer integrity_error = json_answer 500 []
error_answer unhandled = json_answer 500 []

unfoldable pub answer : Result Handled → Answer
answer (ok handled) = answer_of handled
answer (err e) = error_answer e

abbrev pub said : String → Handled
said text = returned 200 (message_response (record { message = text })) []

unfoldable pub token_reply : Settings → IssuedTokens → Handled
token_reply cfg t =
    returned 200
      (token_response (record {
        access_token = t.access_token;
        token_type = "Bearer";
        expires_in = t.expires_in;
      }))
      (set_refresh_cookie cfg t.refresh_cookie ∷ [])

-- The end of `google_callback`: the browser is sent on with the challenge id.
unfoldable pub send_on : Option String → ChallengeResponse → Handled
send_on none r = returned 200 (challenged r) []
send_on (some url) r =
    if truthy (some url)
    then own_response 307
        (redirect (
          concat
            (url ∷ (if has_char b'?' url then "&" else "?") ∷ "challenge=" ∷ r.challenge_id ∷ [])))
        []
    else returned 200 (challenged r) []

unfoldable pub callback_reply : Settings → ChallengeResponse → Handled
callback_reply cfg r = send_on cfg.google_post_login_redirect r

module _ (urlencode : List (String × String) → String) where
  -- What the handler of a request hands back, in its settings.
  abbrev pub reply : {A : Type 0} → Action A → (Settings → A → Handled) → Action Handled
  reply m f = m >>= λ a. asks (λ w. f w.settings a)

  unfoldable pub respond : Request → Action Handled
  respond (signs_up email password key ip) =
      reply (signup email password key ip)
        (λ _ c. returned 201 (credential_read (record { auth_user_id = c.0; email = c.1 })) [])
  respond (asks_challenge email password audience ip) =
      reply (login_challenge email password audience ip) (λ _ r. returned 202 (challenged r) [])
  respond (verifies challenge_id code ip user_agent) =
      reply (login_verify challenge_id code ip user_agent) token_reply
  respond (asks_resend challenge_id ip) =
      reply (login_resend challenge_id ip) (λ _ r. returned 202 (challenged r) [])
  respond (refreshes raw ip) = reply (refresh raw ip) token_reply
  respond (logs_out raw) =
      reply (logout raw) (λ cfg _. own_response 204 no_content (clear_refresh_cookie cfg ∷ []))
  respond (logs_out_all raw) =
      reply (logout_all raw) (λ cfg _. own_response 204 no_content (clear_refresh_cookie cfg ∷ []))
  respond (introspects ids) =
      reply (sessions_introspect ids)
        (λ _ ids. returned 200 (introspection (record { active = ids })) [])
  respond (asks_reset email ip) = reply (password_reset_request email ip) (λ _ text. said text)
  respond (confirms_reset token password ip) =
      reply (password_reset_confirm token password ip)
        (λ _ _. said "Password updated. Please sign in again.")
  respond starts_google = reply google_start (λ cfg state.
      returned 200
        (authorization (record { authorization_url = build_authorization_url urlencode cfg state }))
        [])
  respond (returns_google code state ip) = reply (google_callback code state ip) callback_reply
  respond (changes_email key id email) =
      reply (admin_change_email key id email) (λ _ _. said "email changed")
  respond (disables key id) = reply (admin_disable key id) (λ _ _. said "account disabled")
