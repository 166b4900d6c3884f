-- ===== src/Settings.antt =====
-- settings.py: the configuration that the services read, and the two validators that run at startup.
pub mod Boot
use mxtng_auth_services.Common.{
  ℕ, String, Bool, true, false, not, ◌&&◌, Option, none, some, List, [], ◌∷◌, ◌++◌, any, str_eq,
  truthy, if◌then◌else◌,
}
use mxtng_auth_services.Text.{lower, strip}

pub data Environment : Type 0 where
  development test staging production : Environment

pub data SameSite : Type 0 where
  lax strict none_ : SameSite

-- The fields of `class Settings` that the modelled code reads, in its order. A `SecretStr | None`
-- is the text that it wraps.
pub record Settings : Type 0 where
  pub environment : Environment
  pub issuer : String
  pub default_audience : String
  pub allowed_audiences : List String
  pub access_token_ttl_seconds : ℕ
  pub refresh_token_ttl_seconds : ℕ
  pub private_key_path : String
  pub private_key_pem : Option String
  pub key_id : Option String
  pub refresh_cookie_name : String
  pub google_client_id : Option String
  pub google_client_secret : Option String
  pub google_redirect_uri : Option String
  pub refresh_cookie_secure : Bool
  pub refresh_cookie_domain : Option String
  pub refresh_cookie_path : String
  pub refresh_cookie_samesite : SameSite
  pub max_failed_logins : ℕ
  pub login_lockout_seconds : ℕ
  pub reset_token_ttl_seconds : ℕ
  pub rate_limit_enabled : Bool
  pub rate_limit_window_seconds : ℕ
  pub single_session_per_credential : Bool
  pub otp_code_length : ℕ
  pub otp_ttl_seconds : ℕ
  pub otp_max_attempts : ℕ
  pub otp_resend_cooldown_seconds : ℕ
  pub otp_max_sends_per_challenge : ℕ
  pub otp_challenge_max_age_seconds : ℕ
  pub google_post_login_redirect : Option String
  pub oauth_state_ttl_seconds : ℕ
  pub webhook_endpoints : List String
  pub webhook_secret : Option String
  pub mail_relay_url : Option String
  pub mail_relay_secret : Option String
  pub fallback_smtp_host : Option String
  pub fallback_smtp_port : ℕ
  pub fallback_smtp_username : Option String
  pub fallback_smtp_password : Option String
  pub fallback_smtp_use_tls : Bool
  pub mail_from_email : String
  pub mail_from_name : String
  pub password_reset_url : Option String
  pub debug_echo_reset_tokens : Bool
  pub admin_api_key : Option String
  pub cors_origins : List String
  pub trusted_hosts : List String
  pub trust_proxy_headers : Bool
  pub hsts_max_age_seconds : ℕ
  pub rate_limit_login_per_minute : ℕ
  pub rate_limit_signup_per_minute : ℕ
  pub rate_limit_reset_per_minute : ℕ
  pub rate_limit_introspect_per_minute : ℕ

unfoldable pub is_production : Settings → Bool
is_production c = elim c.environment [ production ↦ true | _ ↦ false ]

unfoldable pub is_development : Settings → Bool
is_development c = elim c.environment [ development ↦ true | test ↦ true | _ ↦ false ]

unfoldable pub google_enabled : Settings → Bool
google_enabled c =
    truthy c.google_client_id && (truthy c.google_client_secret && truthy c.google_redirect_uri)

unfoldable pub fallback_smtp_enabled : Settings → Bool
fallback_smtp_enabled c = truthy c.fallback_smtp_host

abbrev pub published_placeholders : List String
published_placeholders =
    "change-me-admin-key" ∷ "change-me-webhook-secret" ∷ "change-me-mail-relay-secret" ∷ "changeme"
    ∷ "secret" ∷ []

-- `reveal`: a `SecretStr` is modelled by the text that it wraps.
abbrev pub reveal : Option String → Option String
reveal value = value

-- What `_enforce_secrets` collects; the message lists these, sorted and joined.
pub data Problem : Type 0 where
  missing placeholder : String → Problem
  echo_reset_tokens wildcard_hosts insecure_cookie : Problem

unfoldable pub is_placeholder : String → Bool
is_placeholder raw = any (str_eq (lower (strip raw))) published_placeholders

-- `_require`
unfoldable pub require : String → Option String → List Problem
unfolding is_placeholder
require name value =
    if not (truthy (reveal value)) then missing name ∷ [] else elim (reveal value) [
      | none ↦ []
      | some raw ↦ if is_placeholder raw then placeholder name ∷ [] else []
    ]

abbrev pub when_list : {A : Type 0} → Bool → List A → List A
when_list true xs = xs
when_list false xs = []

abbrev pub nonempty : List String → Bool
nonempty [] = false
nonempty (_ ∷ _) = true

-- `_enforce_secrets`: the problems for which it refuses to start; none of them in development.
unfoldable pub enforce_secrets : Settings → List Problem
unfolding require is_development
enforce_secrets c =
    if is_development c
    then []
    else require "ADMIN_API_KEY" c.admin_api_key
      ++ (when_list (truthy c.mail_relay_url) (require "MAIL_RELAY_SECRET" c.mail_relay_secret)
          ++ (when_list (nonempty c.webhook_endpoints) (require "WEBHOOK_SECRET" c.webhook_secret)
              ++ (when_list c.debug_echo_reset_tokens (echo_reset_tokens ∷ [])
                  ++ (when_list (any (λ h. str_eq h "*") c.trusted_hosts) (wildcard_hosts ∷ [])
                      ++ when_list (not c.refresh_cookie_secure) (insecure_cookie ∷ [])))))

-- `_check_cookie_policy`: true when it refuses the settings.
unfoldable pub bad_cookie_policy : Settings → Bool
bad_cookie_policy c = elim c.refresh_cookie_samesite [
  | none_ ↦ not c.refresh_cookie_secure
  | _ ↦ false
]
