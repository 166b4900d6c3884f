-- ===== src/Schemas.antt =====
-- schemas.py: the bodies of the requests, with the lengths that their fields declare, and those of
-- the replies. Pydantic's check of an address, which also normalizes it, is a parameter.
use mxtng_auth_services.Common.{
  ℕ, String, Bool, true, false, ◌&&◌, Option, none, some, List, length, leb, if◌then◌else◌,
}
use mxtng_auth_services.Text.{count_chars}

pub record CredentialCreate : Type 0 where
  pub email : String
  pub password : String
  pub audience : Option String

pub record LoginRequest : Type 0 where
  pub email : String
  pub password : String
  pub audience : Option String

pub record ChallengeVerifyRequest : Type 0 where
  pub challenge_id : String
  pub code : String

pub record ChallengeResendRequest : Type 0 where
  pub challenge_id : String

pub record SessionIntrospectRequest : Type 0 where
  pub session_ids : List String

pub record PasswordResetRequest : Type 0 where
  pub email : String

pub record PasswordResetConfirm : Type 0 where
  pub token : String
  pub new_password : String

pub record EmailChange : Type 0 where
  pub email : String

pub record CredentialRead : Type 0 where
  pub auth_user_id : String
  pub email : String

pub record ChallengeResponse : Type 0 where
  pub challenge_id : String
  pub expires_in : ℕ
  pub email_hint : String

pub record TokenResponse : Type 0 where
  pub access_token : String
  pub token_type : String
  pub expires_in : ℕ

pub record SessionIntrospectResponse : Type 0 where
  pub active : List String

pub record GoogleAuthStart : Type 0 where
  pub authorization_url : String

pub record MessageResponse : Type 0 where
  pub message : String

-- `Field(min_length=…, max_length=…)` of a text
abbrev pub sized : ℕ → ℕ → String → Bool
sized least most s = leb least (count_chars s) && leb (count_chars s) most

-- Validation by `Field` constraints; an `EmailStr` goes through `parse_email`.
module _ (parse_email : String → Option String) where
  abbrev pub with_email : {A : Type 0} → String → (String → A) → Option A
  with_email email f = elim (parse_email email) [ none ↦ none | some address ↦ some (f address) ]

  unfoldable pub validate_credential_create : CredentialCreate → Option CredentialCreate
  validate_credential_create b =
      if sized 8 256 b.password
      then with_email b.email (λ address. record b { email = address })
      else none

  unfoldable pub validate_login : LoginRequest → Option LoginRequest
  validate_login b = with_email b.email (λ address. record b { email = address })

  unfoldable pub validate_reset_request : PasswordResetRequest → Option PasswordResetRequest
  validate_reset_request b = with_email b.email (λ address. record b { email = address })

  unfoldable pub validate_email_change : EmailChange → Option EmailChange
  validate_email_change b = with_email b.email (λ address. record b { email = address })

abbrev pub keep_if : {A : Type 0} → Bool → A → Option A
keep_if true a = some a
keep_if false a = none

unfoldable pub validate_verify : ChallengeVerifyRequest → Option ChallengeVerifyRequest
validate_verify b = keep_if (sized 4 12 b.code) b

unfoldable pub validate_introspect : SessionIntrospectRequest → Option SessionIntrospectRequest
validate_introspect b = keep_if (leb 1 (length b.session_ids) && leb (length b.session_ids) 100) b

unfoldable pub validate_reset_confirm : PasswordResetConfirm → Option PasswordResetConfirm
validate_reset_confirm b = keep_if (sized 8 256 b.new_password) b
