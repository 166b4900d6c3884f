-- ===== src/App.antt =====
-- main.py: the startup of the service, the assembly of its application, the headers of its answers
-- and its answer to an AuthError. FastAPI's middleware classes are left to the framework; what they
-- are given is modelled.
pub mod Startup
pub mod Headers
use mxtng_auth_services.Common.{
  String, Bool, true, false, not, ◌&&◌, Option, none, some, List, [], ◌∷◌, ◌++◌, ℕ, any, str_eq,
  truthy, is_some, if◌then◌else◌,
}
use mxtng_auth_services.Text.{concat, lower, show}
use mxtng_auth_services.Errors.{
  AuthError, status_code, error_code, email_already_registered, idempotency_key_conflict,
  invalid_credentials, account_locked, account_disabled, invalid_refresh, invalid_reset_token,
  invalid_challenge, resend_too_soon, mail_delivery_failed, invalid_oauth_state,
}
use mxtng_auth_services.Settings.{
  Settings, is_production, is_development, fallback_smtp_enabled, reveal,
}
use mxtng_auth_services.Services.Sessions.{unique_ids}
use mxtng_auth_services.Signer.{
  Rsa, LocalRsaSigner, Process, SignerError, Outcome, done, failed, get_signer,
}

-- The messages of the log.
pub data LogLine : Type 0 where
  signing_key_ready : String → LogLine
  no_fallback_configured : LogLine
  relay_without_secret : LogLine

-- What keeps the service from starting.
pub data StartupError : Type 0 where
  signer_error : SignerError → StartupError
  mail_not_configured : StartupError

pub data Started : Type 0 where
  up : Started
  down : StartupError → Started

pub record Host (Key : Type 0) : Type 0 where
  pub process : Process Key
  pub logs : List LogLine
  pub tables_created : Bool

-- The lines of `check_mail_configuration`, or its refusal.
unfoldable pub check_mail_configuration : Settings → Option (List LogLine)
check_mail_configuration cfg =
    let has_relay = truthy cfg.mail_relay_url in
    let has_fallback = fallback_smtp_enabled cfg in
    if not has_relay && not has_fallback
    then none
    else some (
        (if not has_fallback then no_fallback_configured ∷ [] else [])
        ++ (if has_relay && not (truthy (reveal cfg.mail_relay_secret))
            then relay_without_secret ∷ []
            else []))

-- The rest of `lifespan`, once the mail configuration was looked at.
unfoldable pub create_tables :
    {Key : Type 0} → Settings → Option (List LogLine) → Host Key → Started × Host Key
create_tables cfg none h = (down mail_not_configured, h)
create_tables cfg (some lines) h = (
  up,
  record h {
    logs = h.logs ++ lines;
    tables_created = if is_development cfg then true else h.tables_created;
  },
)

-- `lifespan` after `get_signer`, up to its `yield`.
unfoldable pub announce :
    {Key : Type 0}
    → Settings
    → Outcome (LocalRsaSigner Key) × Process Key
    → Host Key
    → Started × Host Key
announce cfg (failed e, p) h = (down (signer_error e), record h { process = p })
announce cfg (done signer, p) h =
    create_tables cfg (check_mail_configuration cfg)
      (record h { process = p; logs = h.logs ++ signing_key_ready signer.kid ∷ [] })

unfoldable pub lifespan :
    {Key Claims : Type 0} → Rsa Key Claims → Settings → Host Key → Started × Host Key
lifespan rsa cfg h = announce cfg (get_signer rsa cfg h.process) h

abbrev pub fallback_cors_origins : List String
fallback_cors_origins = "https://dashboard.mxtng.com" ∷ "https://ats-iota-five.vercel.app" ∷ []

-- `list(dict.fromkeys(…))` keeps the first of each.
unfoldable pub cors_origins : Settings → List String
cors_origins cfg = unique_ids [] (cfg.cors_origins ++ fallback_cors_origins)

-- What `create_app` gives to FastAPI and to its middleware.
pub record App : Type 0 where
  pub docs_url : Option String
  pub redoc_url : Option String
  pub openapi_url : Option String
  pub allow_origins : List String
  pub allow_credentials : Bool
  pub allowed_hosts : List String

unfoldable pub create_app : Settings → App
create_app cfg =
    let docs_enabled = is_development cfg in
    record {
      docs_url = if docs_enabled then some "/docs" else none;
      redoc_url = if docs_enabled then some "/redoc" else none;
      openapi_url = if docs_enabled then some "/openapi.json" else none;
      allow_origins = cors_origins cfg;
      allow_credentials = true;
      allowed_hosts = cfg.trusted_hosts;
    }

-- The headers of a response, their names in lower case.
abbrev pub HeaderList : Type 0
HeaderList = List (String × String)

abbrev pub header : String → HeaderList → Option String
header name [] = none
header name ((n, v) ∷ hs) = if str_eq n name then some v else header name hs

-- `headers.setdefault`
unfoldable pub setdefault : String → String → HeaderList → HeaderList
setdefault name value hs = if is_some (header name hs) then hs else hs ++ (name, value) ∷ []

unfoldable pub hsts : Settings → String
hsts cfg = concat ("max-age=" ∷ show cfg.hsts_max_age_seconds ∷ "; includeSubDomains; preload" ∷ [])

-- `_security_headers`, after `call_next`.
unfoldable pub security_headers : Settings → HeaderList → HeaderList
security_headers cfg hs =
    let answered = setdefault "cache-control" "no-store" (
      setdefault "x-frame-options" "DENY" (
        setdefault "referrer-policy" "no-referrer"
          (setdefault "x-content-type-options" "nosniff" hs))) in
    if is_production cfg
    then setdefault "strict-transport-security" (hsts cfg) answered
    else answered

-- A JSON answer: its status, and the members of its body.
pub record JsonResponse : Type 0 where
  pub status : ℕ
  pub content : List (String × String)

-- `str(exc)`
unfoldable pub detail : AuthError → String
detail (email_already_registered text) = text
detail (idempotency_key_conflict text) = text
detail (invalid_credentials text) = text
detail (account_locked text) = text
detail (account_disabled text) = text
detail (invalid_refresh text) = text
detail (invalid_reset_token text) = text
detail (invalid_challenge text) = text
detail (resend_too_soon text) = text
detail (mail_delivery_failed text) = text
detail (invalid_oauth_state text) = text

-- `_auth_error_handler`
unfoldable pub auth_error_handler : AuthError → JsonResponse
auth_error_handler exc = record {
  status = status_code exc;
  content = ("detail", detail exc) ∷ ("code", error_code exc) ∷ [];
}
