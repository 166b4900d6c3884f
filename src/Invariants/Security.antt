-- ===== src/Invariants/Security.antt =====
-- Hashes, tokens and codes touch no table, so they keep every invariant of the database.
use mxtng_auth_services.Common.{ℕ, String, Option, none, some, inl, inr, Option-cases}
use mxtng_auth_services.Models.{Db}
use mxtng_auth_services.World.{World}
use mxtng_auth_services.Security.{
  hash_password, check_password, verify_password, new_opaque_token, new_sign_in_code,
  hash_sign_in_code, verify_sign_in_code,
}
use mxtng_auth_services.Invariants.Keeps.{Keeps, keeps_rules}

module _ {P : Db → Type 0} {w : World} where
  pub Keeps-hash_password : (password : String) → Keeps P w (hash_password password)
  unfolding hash_password
  Keeps-hash_password password = search keeps_rules

  check_password-Keeps : (password hash : String) → Keeps P w (check_password password hash)
  unfolding check_password
  check_password-Keeps password hash = record {
    at = λ s c h. elim (Option-cases (w.checkpw password hash)) [
      | inl e ↦ rw (e, check_password) (c, h)
      | inr (b, e) ↦ rw (e, check_password) (c, h)
    ];
  }

  pub Keeps-verify_password :
      (password : String) (hash : Option String) → Keeps P w (verify_password password hash)
  unfolding verify_password
  Keeps-verify_password password none = search keeps_rules
  Keeps-verify_password password (some hash) = search (keeps_rules, check_password-Keeps)

  pub Keeps-new_opaque_token : Keeps P w new_opaque_token
  unfolding new_opaque_token
  Keeps-new_opaque_token = search keeps_rules

  pub Keeps-new_sign_in_code : (n : ℕ) → Keeps P w (new_sign_in_code n)
  unfolding new_sign_in_code
  Keeps-new_sign_in_code n = search keeps_rules

  pub Keeps-hash_sign_in_code : (code : String) → Keeps P w (hash_sign_in_code code)
  unfolding hash_sign_in_code
  Keeps-hash_sign_in_code code = search (keeps_rules, Keeps-hash_password)

  pub Keeps-verify_sign_in_code :
      (code : String) (hash : Option String) → Keeps P w (verify_sign_in_code code hash)
  unfolding verify_sign_in_code
  Keeps-verify_sign_in_code code hash = Keeps-verify_password code hash

pub ruleset security_rules = (
  keeps_rules, Keeps-hash_password, Keeps-verify_password, Keeps-new_opaque_token,
  Keeps-new_sign_in_code, Keeps-hash_sign_in_code, Keeps-verify_sign_in_code,
)
