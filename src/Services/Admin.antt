-- ===== src/Services/Admin.antt =====
-- services.py, the admin identity mutations, which emit IdentityEvents.
use mxtng_auth_services.Common.{String, true, none, some, [], ◌∷◌, is_some}
use mxtng_auth_services.Models.{Credential}
use mxtng_auth_services.Errors.{email_already_registered}
use mxtng_auth_services.Action.{Action, raise, commit, when, ◌>>=◌, ◌>>◌}
use mxtng_auth_services.Events.{emit, email_changed, account_disabled}
use mxtng_auth_services.Services.Helpers.{normalize_email, audit, get_by_email, set_credential}
use mxtng_auth_services.Services.Refresh.{revoke_all_for_credential}

unfoldable pub set_email : String → Credential → Credential
set_email email c = record c { email = email }

unfoldable pub change_email : Credential → String → Action (Unit {0})
change_email credential address = do
  let new_email = normalize_email address
  taken ← get_by_email new_email
  when (is_some taken) (raise (email_already_registered "That email is already registered"))
  set_credential credential.id (set_email new_email)
  audit "email_changed" (some credential.id) (some new_email) none none
  commit
  emit email_changed credential.auth_user_id (("email", new_email) ∷ [])

unfoldable pub disable : Credential → Credential
disable c = record c { disabled = true }

unfoldable pub disable_credential : Credential → Action (Unit {0})
disable_credential credential = do
  set_credential credential.id disable
  audit "account_disabled" (some credential.id) none none none
  commit
  revoke_all_for_credential credential.id "account_disabled"
  emit account_disabled credential.auth_user_id []
