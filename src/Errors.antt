-- ===== src/Errors.antt =====
-- The error taxonomy of services.py, and the exceptions that the services do not catch.
use mxtng_auth_services.Common.{ℕ, String}

-- The subclasses of `AuthError`, each with its message.
pub data AuthError : Type 0 where
  email_already_registered idempotency_key_conflict invalid_credentials : String → AuthError
  account_locked account_disabled invalid_refresh invalid_reset_token : String → AuthError
  invalid_challenge resend_too_soon mail_delivery_failed invalid_oauth_state : String → AuthError

-- `auth` is answered by the handler of main.py, and `http` is an HTTPException of api.py.
-- `value_error` is bcrypt's refusal of a password that is too long, `integrity_error` the database's
-- refusal of a duplicate in a unique column, and `unhandled` an exception that no code expects.
pub data Error : Type 0 where
  auth : AuthError → Error
  http : ℕ → String → Error
  value_error integrity_error unhandled : Error

unfoldable pub status_code : AuthError → ℕ
status_code (email_already_registered _) = 409
status_code (idempotency_key_conflict _) = 409
status_code (invalid_credentials _) = 401
status_code (account_locked _) = 429
status_code (account_disabled _) = 403
status_code (invalid_refresh _) = 401
status_code (invalid_reset_token _) = 400
status_code (invalid_challenge _) = 401
status_code (resend_too_soon _) = 429
status_code (mail_delivery_failed _) = 502
status_code (invalid_oauth_state _) = 400

unfoldable pub error_code : AuthError → String
error_code (email_already_registered _) = "email_taken"
error_code (idempotency_key_conflict _) = "idempotency_key_conflict"
error_code (invalid_credentials _) = "invalid_credentials"
error_code (account_locked _) = "account_locked"
error_code (account_disabled _) = "account_disabled"
error_code (invalid_refresh _) = "invalid_refresh"
error_code (invalid_reset_token _) = "invalid_reset_token"
error_code (invalid_challenge _) = "invalid_challenge"
error_code (resend_too_soon _) = "resend_too_soon"
error_code (mail_delivery_failed _) = "mail_delivery_failed"
error_code (invalid_oauth_state _) = "invalid_oauth_state"
