-- ===== src/Invariants/Steps/SignIn.antt =====
-- Signup, login, the sign-in challenge and the password reset keep such an invariant.
use mxtng_auth_services.Common.{String, Bool, Option, none, some}
use mxtng_auth_services.Models.{Db, Credential, SignInChallenge}
use mxtng_auth_services.World.{World}
use mxtng_auth_services.Services.Signup.{find_replay, insert_credential, create_credential}
use mxtng_auth_services.Services.Login.{
  refuse_unknown, refuse_disabled, refuse_wrong_password, authenticate_known, authenticate,
}
use mxtng_auth_services.Services.Challenge.{
  find_challenge, load_live_challenge, load_resendable_challenge, refuse_resend, check_resend,
  resend_challenge, refuse_code, check_verify, accept_code, verify_challenge,
}
use mxtng_auth_services.Services.Reset.{
  mint_reset_token, request_password_reset, check_reset, confirm_password_reset,
}
use mxtng_auth_services.Invariants.Keeps.{Keeps}
use mxtng_auth_services.Invariants.Lasting.Assignments.{assignment_rules}
use mxtng_auth_services.Invariants.Steps.{Steps, step_rules}
use mxtng_auth_services.Invariants.Mail.{Keeps-mail_sign_in_code, Keeps-send, Keeps-on_failure}

ruleset helper_rules = (step_rules, assignment_rules)

ruleset mail_rules = (helper_rules, Keeps-send, Keeps-on_failure, Keeps-mail_sign_in_code)

module _ {P : Db → Type 0} {w : World} (k : Steps P w) where
  find_replay-Keeps : (email : String) (key : Option String) → Keeps P w (find_replay email key)
  unfolding find_replay
  find_replay-Keeps email none = search helper_rules
  find_replay-Keeps email (some key) = search helper_rules depth 8

  insert_credential-Keeps :
      (email password : String) (key ip : Option String)
      → Keeps P w (insert_credential email password key ip)
  unfolding insert_credential
  insert_credential-Keeps email password key ip = search helper_rules depth 12

  pub Keeps-create_credential :
      (email password : String) (key ip : Option String)
      → Keeps P w (create_credential email password key ip)
  unfolding create_credential
  Keeps-create_credential email password key ip =
      search (helper_rules, find_replay-Keeps, insert_credential-Keeps)

  refuse_unknown-Keeps :
      (email password : String) (ip : Option String) → Keeps P w (refuse_unknown email password ip)
  unfolding refuse_unknown
  refuse_unknown-Keeps email password ip = search helper_rules depth 7

  refuse_disabled-Keeps :
      (y : Credential) (email : String) (ok : Bool) (ip : Option String)
      → Keeps P w (refuse_disabled y email ok ip)
  unfolding refuse_disabled
  refuse_disabled-Keeps y email ok ip = search helper_rules depth 7

  refuse_wrong_password-Keeps :
      (y : Credential) (email : String) (ip : Option String)
      → Keeps P w (refuse_wrong_password y email ip)
  unfolding refuse_wrong_password
  refuse_wrong_password-Keeps y email ip = search helper_rules depth 8

  authenticate_known-Keeps :
      (y : Credential) (email password : String) (ip : Option String)
      → Keeps P w (authenticate_known y email password ip)
  unfolding authenticate_known
  authenticate_known-Keeps y email password ip =
      search (helper_rules, refuse_disabled-Keeps, refuse_wrong_password-Keeps) depth 10

  pub Keeps-authenticate :
      (email password : String) (ip : Option String) → Keeps P w (authenticate email password ip)
  unfolding authenticate
  Keeps-authenticate email password ip =
      search (helper_rules, refuse_unknown-Keeps, authenticate_known-Keeps)

  find_challenge-Keeps : (id : String) → Keeps P w (find_challenge id)
  unfolding find_challenge
  find_challenge-Keeps id = search helper_rules

  load_resendable-Keeps : (id : String) → Keeps P w (load_resendable_challenge id)
  unfolding load_resendable_challenge
  load_resendable-Keeps id = search (helper_rules, find_challenge-Keeps) depth 9

  load_live-Keeps : (id : String) → Keeps P w (load_live_challenge id)
  unfolding load_live_challenge
  load_live-Keeps id = search (helper_rules, find_challenge-Keeps) depth 8

  check_resend-Keeps : (id : String) → Keeps P w (check_resend id)
  unfolding check_resend
  check_resend-Keeps id = search (helper_rules, load_resendable-Keeps) depth 12

  refuse_resend-Keeps :
      (y : Credential) (reason : String) (ip : Option String)
      → Keeps P w (refuse_resend y reason ip)
  unfolding refuse_resend
  refuse_resend-Keeps y reason ip = search helper_rules depth 7

  pub Keeps-resend_challenge :
      (id : String) (ip : Option String) → Keeps P w (resend_challenge id ip)
  unfolding resend_challenge
  Keeps-resend_challenge id ip =
      search (mail_rules, check_resend-Keeps, refuse_resend-Keeps) depth 16

  check_verify-Keeps : (id : String) → Keeps P w (check_verify id)
  unfolding check_verify
  check_verify-Keeps id = search (helper_rules, load_live-Keeps) depth 10

  refuse_code-Keeps :
      (x : SignInChallenge) (y : Credential) (ip : Option String) → Keeps P w (refuse_code x y ip)
  unfolding refuse_code
  refuse_code-Keeps x y ip = search helper_rules depth 9

  accept_code-Keeps :
      (x : SignInChallenge) (y : Credential) (ip : Option String) → Keeps P w (accept_code x y ip)
  unfolding accept_code
  accept_code-Keeps x y ip = search helper_rules depth 8

  mint_reset_token-Keeps :
      (y : Credential) (email : String) (ip : Option String)
      → Keeps P w (mint_reset_token y email ip)
  unfolding mint_reset_token
  mint_reset_token-Keeps y email ip = search mail_rules depth 14

  pub Keeps-request_password_reset :
      (email : String) (ip : Option String) → Keeps P w (request_password_reset email ip)
  unfolding request_password_reset
  Keeps-request_password_reset email ip = search (helper_rules, mint_reset_token-Keeps) depth 8

  check_reset-Keeps : (raw : String) → Keeps P w (check_reset raw)
  unfolding check_reset
  check_reset-Keeps raw = search helper_rules depth 12

  pub Keeps-confirm_password_reset :
      (raw password : String) (ip : Option String)
      → Keeps P w (confirm_password_reset raw password ip)
  unfolding confirm_password_reset
  Keeps-confirm_password_reset raw password ip = search (helper_rules, check_reset-Keeps) depth 12

  pub Keeps-verify_challenge :
      (id code : String) (ip ua : Option String) → Keeps P w (verify_challenge id code ip ua)
  unfolding verify_challenge
  Keeps-verify_challenge id code ip ua =
      search (helper_rules, check_verify-Keeps, refuse_code-Keeps, accept_code-Keeps) depth 10
