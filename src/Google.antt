-- ===== src/Google.antt =====
-- google.py: the code exchange, which refuses an address that Google has not confirmed.
use mxtng_auth_services.Common.{
  String, Option, none, some, List, [], ◌∷◌, Bool, not, ◌||◌, str_eq, truthy,
}
use mxtng_auth_services.Text.{lower, concat}
use mxtng_auth_services.Settings.{Settings}
use mxtng_auth_services.Errors.{value_error, http}
use mxtng_auth_services.World.{EmailVerified, flag, text, absent}
use mxtng_auth_services.Mail.{or_empty}
use mxtng_auth_services.Action.{Action, pure, throw, draw, or_else, when, ◌>>=◌, ◌>>◌}

-- `_require_verified_email`: `verified is True`, or its text is "true" in any case.
unfoldable pub is_confirmed : EmailVerified → Bool
is_confirmed (flag b) = b
is_confirmed (text t) = str_eq (lower t) "true"
is_confirmed absent = str_eq (lower "None") "true"

-- `exchange_code` once `verify_oauth2_token` returned, with the answer of `google_callback` to `UnverifiedGoogleEmail`.
unfoldable pub exchange_code : String → Action (String × String)
exchange_code code = do
  verified ← draw (λ w n. w.verify_google n code)
  claims ← or_else verified (throw value_error)
  when (not (truthy claims.email) || not (truthy claims.sub)) (throw value_error)
  when (not (is_confirmed claims.email_verified)) (
      throw (
        http 403
          "Google has not verified this account's email address, so it cannot be used to sign in or to claim an existing account."))
  pure (or_empty claims.sub, or_empty claims.email)

-- A value that `urlencode` writes: `str(None)` for a setting that is missing.
abbrev or_none : Option String → String
or_none none = "None"
or_none (some t) = t

unfoldable pub build_authorization_url :
    (List (String × String) → String) → Settings → String → String
build_authorization_url urlencode cfg state = concat (
    "https://accounts.google.com/o/oauth2/v2/auth"
    ∷ "?"
    ∷ urlencode (
        ("client_id", or_none cfg.google_client_id)
        ∷ ("redirect_uri", or_none cfg.google_redirect_uri)
        ∷ ("response_type", "code")
        ∷ ("scope", "openid email profile")
        ∷ ("state", state)
        ∷ ("access_type", "offline")
        ∷ ("prompt", "select_account")
        ∷ [])
    ∷ [])
