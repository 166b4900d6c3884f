-- ===== src/Services/Login/Admits.antt =====
-- The right password gets in, and a lockout comes to its end.
use mxtng_auth_services.Common.{
  ℕ, suc, ◌+◌, ◌≤◌, String, ◌≡◌, refl, true, false, Option, none, some, [], ◌∷◌, find?,
  find?-update, truthy, arith,
}
use mxtng_auth_services.Models.{Credential}
use mxtng_auth_services.World.{World}
use mxtng_auth_services.Action.{State, ok, pure, commit, ◌>>=◌}
use mxtng_auth_services.Security.{verify_password, check_password}
use mxtng_auth_services.Services.Helpers.{
  by_id, normalize_email, by_email, get_by_email, set_credential, audit,
}
use mxtng_auth_services.Services.Login.{is_locked, clear_failures, authenticate_known, authenticate}
use mxtng_auth_services.Api.{wait, step, run}

-- A hash that bcrypt checks the password against, with success.
pub record Accepts (w : World) (password : String) (hash : Option String) : Type 0 where
  pub text : String
  pub stored : hash ≡ some text
  pub full : truthy (some text) ≡ true
  pub accepted : w.checkpw password text ≡ some true

verify_password-Accepts :
    (w : World) (password : String) (hash : Option String) (s : State)
    → Accepts w password hash
    → verify_password password hash w s ≡ (ok true, record s { bcrypt_calls = suc s.bcrypt_calls })
unfolding verify_password check_password pure
verify_password-Accepts w password hash s r = rw (r.stored, r.full, check_password, r.accepted) refl

-- The account with no failed attempts and no lock.
abbrev pub reopened : Credential → Credential
reopened c = record c { failed_attempts = 0; locked_until = none }

-- What a sign-in's first step leaves behind.
pub record Admitted (w : World) (s : State) (address password : String) (ip : Option String)
    (c : Credential) : Type 0 where
  pub after : State
  pub admitted : authenticate address password ip w s ≡ (ok (reopened c), after)
  pub cleared :
      find? (by_email (normalize_email address)) after.committed.credentials ≡ some (reopened c)

-- The state once bcrypt is done and the sign-in is stored.
abbrev admitted_state : World → State → String → Option String → Credential → State
admitted_state w s email ip c =
    ((set_credential c.id clear_failures >>= λ _.
    audit "login_succeeded" (some c.id) (some email) ip none >>= λ _. commit)
      w (record s { bcrypt_calls = suc s.bcrypt_calls })).1

let_in :
    (w : World) (s : State) (address password : String) (ip : Option String) (c : Credential)
    → find? (by_email (normalize_email address)) s.working.credentials ≡ some c
    → c.disabled ≡ false
    → is_locked c.locked_until s.now ≡ false
    → Accepts w password c.password_hash
    → authenticate address password ip w s
      ≡ (ok (reopened c), admitted_state w s (normalize_email address) ip c)
unfolding authenticate get_by_email authenticate_known audit set_credential clear_failures ◌>>=◌
let_in w s address password ip c stored enabled unlocked right =
    rw (stored, unlocked, verify_password-Accepts w password c.password_hash s right, enabled) refl

admits :
    (w : World) (s : State) (address password : String) (ip : Option String) (c : Credential)
    → find? (by_email (normalize_email address)) s.working.credentials ≡ some c
    → c.disabled ≡ false
    → is_locked c.locked_until s.now ≡ false
    → Accepts w password c.password_hash
    → Admitted w s address password ip c
unfolding audit set_credential clear_failures ◌>>=◌
admits w s address password ip c stored enabled unlocked right = record {
  after = admitted_state w s (normalize_email address) ip c;
  admitted = let_in w s address password ip c stored enabled unlocked right;
  cleared =
      find?-update (by_email (normalize_email address)) (by_id c.id) clear_failures
        s.working.credentials c (λ y. refl) stored (ground arith);
}

-- A lockout ends: for an account that is enabled and locked until some time, once a wait has
-- brought the clock to that time, `authenticate` accepts the right password, and the stored account
-- is unlocked with no failed attempts.
pub lockout_ends :
    (w : World) (s : State) (address password : String) (ip : Option String) (c : Credential)
    (until delay : ℕ)
    → find? (by_email (normalize_email address)) s.working.credentials ≡ some c
    → c.disabled ≡ false
    → c.locked_until ≡ some until
    → Accepts w password c.password_hash
    → until ≤ s.now + delay
    → Admitted w (run w s (wait delay ∷ [])) address password ip c
unfolding run step
lockout_ends w s address password ip c until delay stored enabled locked right over =
    admits w (record s { now = s.now + delay }) address password ip c stored enabled
      (rw locked (ground arith)) right
