-- ===== src/Security.antt =====
-- security.py: password hashing, opaque tokens and sign-in codes.
use mxtng_auth_services.Common.{
  ℕ, suc, ◌^◌, String, Bool, false, not, Option, none, some, truthy, if◌then◌else◌,
}
use mxtng_auth_services.Text.{show, zfill}
use mxtng_auth_services.Errors.{value_error}
use mxtng_auth_services.World.{World}
use mxtng_auth_services.Action.{Action, or_else, pure, throw, draw, ok, ◌>>=◌}

-- bcrypt refuses some passwords with a ValueError, which nothing catches here.
unfoldable pub hash_password : String → Action String
hash_password password = do
  hashed ← draw (λ w salt. w.hashpw password salt)
  or_else hashed (throw value_error)

-- One check by bcrypt; a ValueError counts as a refusal.
unfoldable pub check_password : String → String → Action Bool
check_password password password_hash w s =
    let s' = record s { bcrypt_calls = suc s.bcrypt_calls } in
    elim (w.checkpw password password_hash) [ none ↦ (ok false, s') | some b ↦ (ok b, s') ]

unfoldable pub verify_password : String → Option String → Action Bool
verify_password password none = pure false
verify_password password (some password_hash) =
    if not (truthy (some password_hash)) then pure false else check_password password password_hash

unfoldable pub new_opaque_token : Action String
new_opaque_token = draw (λ w n. w.token_urlsafe n)

unfoldable pub hash_opaque_token : World → String → String
hash_opaque_token w raw = w.sha256_hex raw

-- The text of a code, from the number that was drawn.
unfoldable pub code_text : ℕ → ℕ → String
code_text length n = zfill length (show n)

unfoldable pub new_sign_in_code : ℕ → Action String
new_sign_in_code length = draw (λ w n. code_text length (w.randbelow (10 ^ length) n))

unfoldable pub hash_sign_in_code : String → Action String
hash_sign_in_code code = hash_password code

unfoldable pub verify_sign_in_code : String → Option String → Action Bool
verify_sign_in_code code code_hash = verify_password code code_hash
