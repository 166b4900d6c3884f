-- ===== src/Tests.antt =====
-- A deployment with toy cryptography, a first account on it, and the examples at which the
-- theorems apply.
pub mod Flow
pub mod Limits
pub mod Safety
pub mod Accounts
pub mod Histories
pub mod Service
use Prim.Native.String
use mxtng_auth_services.Common.{
  ℕ, ◌+◌, ◌≡◌, refl, String, Bool, true, false, Option, none, some, List, [], ◌∷◌, str_eq,
}
use mxtng_auth_services.Text.{concat, show}
use mxtng_auth_services.Settings.{Settings, development, lax}
use mxtng_auth_services.World.{World, GoogleClaims, flag, response, taken}

abbrev pub demo_settings : Settings
demo_settings = record {
  environment = development;
  issuer = "https://auth.example";
  default_audience = "ats";
  allowed_audiences = "ats" ∷ "vms" ∷ [];
  access_token_ttl_seconds = 300;
  refresh_token_ttl_seconds = 1000;
  private_key_path = "./signing_key.pem";
  private_key_pem = none;
  key_id = none;
  refresh_cookie_name = "mxtng_refresh";
  google_client_id = some "client";
  google_client_secret = some "secret";
  google_redirect_uri = some "https://auth.example/cb";
  refresh_cookie_secure = true;
  refresh_cookie_domain = none;
  refresh_cookie_path = "/v1/token";
  refresh_cookie_samesite = lax;
  max_failed_logins = 3;
  login_lockout_seconds = 900;
  reset_token_ttl_seconds = 1800;
  rate_limit_enabled = true;
  rate_limit_window_seconds = 60;
  single_session_per_credential = true;
  otp_code_length = 6;
  otp_ttl_seconds = 600;
  otp_max_attempts = 5;
  otp_resend_cooldown_seconds = 60;
  otp_max_sends_per_challenge = 5;
  otp_challenge_max_age_seconds = 1800;
  google_post_login_redirect = some "https://app.example/in";
  oauth_state_ttl_seconds = 600;
  webhook_endpoints = "https://hooks.example" ∷ [];
  webhook_secret = some "hook";
  mail_relay_url = some "https://relay.example";
  mail_relay_secret = some "mail";
  fallback_smtp_host = none;
  fallback_smtp_port = 587;
  fallback_smtp_username = none;
  fallback_smtp_password = none;
  fallback_smtp_use_tls = true;
  mail_from_email = "no-reply@mxtng.local";
  mail_from_name = "MXTNG";
  password_reset_url = none;
  debug_echo_reset_tokens = false;
  admin_api_key = some "admin";
  cors_origins = "https://app.example" ∷ [];
  trusted_hosts = [];
  trust_proxy_headers = false;
  hsts_max_age_seconds = 63072000;
  rate_limit_login_per_minute = 10;
  rate_limit_signup_per_minute = 5;
  rate_limit_reset_per_minute = 5;
  rate_limit_introspect_per_minute = 300;
}

-- A text for a number, never empty and different for different numbers.
abbrev pub name : ℕ → String
name n = String.◌∷◌ "u" (show n)

-- A hash of this deployment puts "h" before the text.
abbrev pub tag : String → String
tag s = String.◌∷◌ "h" s

abbrev pub demo : World
demo = record {
  settings = demo_settings;
  sha256_hex = tag;
  hmac_sha256_hex = λ k s. s;
  json_dumps = λ _. "";
  hashpw = λ p n. some (tag p);
  checkpw = λ p h. some (str_eq (tag p) h);
  token_urlsafe = name;
  uuid4 = name;
  randbelow = λ limit n. n;
  sign = λ c. "jwt";
  html_escape = λ s. s;
  utc_stamp = λ t. show t;
  isoformat = λ t. show t;
  post_relay = λ n url r. response 202 "";
  post_event = λ n url e. response 200 "";
  verify_google = λ n code.
      some (record { email = some "g@x.com"; sub = some "g"; email_verified = flag true });
  smtp = λ n commands. taken;
}
