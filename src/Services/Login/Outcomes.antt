-- ===== src/Services/Login/Outcomes.antt =====
-- What a caller of `authenticate` learns, and what it costs in bcrypt checks.
use mxtng_auth_services.Common.{
  ℕ, suc, ◌+◌, String, ◌≡◌, ◌∙◌, ap, refl, true, false, Option, none, some, find?, str_eq, leb,
  truthy, arith, inl, inr, Bool-cases, find?-update, sym,
}
use mxtng_auth_services.Models.{Credential}
use mxtng_auth_services.Errors.{auth, invalid_credentials}
use mxtng_auth_services.Settings.{Settings}
use mxtng_auth_services.World.{World}
use mxtng_auth_services.Action.{State, ok, err, pure, ◌>>=◌}
use mxtng_auth_services.Security.{verify_password, check_password}
use mxtng_auth_services.Services.Helpers.{
  normalize_email, by_id, by_email, get_by_email, audit, set_credential,
}
use mxtng_auth_services.Services.Login.{
  dummy_password_hash, is_locked, refuse_unknown, refuse_wrong_password, authenticate_known,
  authenticate, count_failure,
}

-- A hash that bcrypt refuses for this password, after its full work.
pub record Refuses (w : World) (password : String) (hash : Option String) : Type 0 where
  pub text : String
  pub stored : hash ≡ some text
  pub full : truthy (some text) ≡ true
  pub refused : w.checkpw password text ≡ some false

verify_password-Refuses :
    (w : World) (password : String) (hash : Option String) (s : State)
    → Refuses w password hash
    → verify_password password hash w s ≡ (ok false, record s { bcrypt_calls = suc s.bcrypt_calls })
unfolding verify_password check_password pure
verify_password-Refuses w password hash s r = rw (r.stored, r.full, check_password, r.refused) refl

-- The account that a caller names, as far as a refusal reads it.
pub record Guessed (w : World) (s : State) (address password : String) (c : Credential)
    : Type 0 where
  pub stored : find? (by_email (normalize_email address)) s.working.credentials ≡ some c
  pub enabled : c.disabled ≡ false
  pub unlocked : is_locked c.locked_until s.now ≡ false
  pub wrong : Refuses w password c.password_hash

unknown-refused :
    (w : World) (s : State) (address password : String) (ip : Option String)
    → find? (by_email (normalize_email address)) s.working.credentials ≡ none
    → Refuses w password (dummy_password_hash w)
    → let (r, s') = authenticate address password ip w s in
      (r ≡ err (auth (invalid_credentials "Invalid email or password")))
      × (s'.bcrypt_calls ≡ suc s.bcrypt_calls)
unfolding authenticate get_by_email refuse_unknown audit ◌>>=◌
unknown-refused w s address password ip e r =
    rw (e, verify_password-Refuses w password (dummy_password_hash w) s r) (refl, refl)

count_failure-email :
    (cfg : Settings) (at : ℕ) (c : Credential) → (count_failure cfg at c).email ≡ c.email
unfolding count_failure
count_failure-email cfg at c =
    elim (Bool-cases (leb cfg.max_failed_logins (c.failed_attempts + 1))) [
      | inl e ↦ rw e refl
      | inr e ↦ rw e refl
    ]

-- What a wrong guess leaves behind.
pub record Counted (w : World) (s : State) (email : String) (c : Credential) (s' : State)
    : Type 0 where
  pub stored :
      find? (by_email email) s'.committed.credentials ≡ some (count_failure w.settings s.now c)
  pub clock : s'.now ≡ s.now
  pub cost : s'.bcrypt_calls ≡ suc s.bcrypt_calls

-- The state once bcrypt is done and the guess is counted.
abbrev counted_state : World → State → String → Option String → Credential → State
counted_state w s email ip c =
    (refuse_wrong_password c email ip w (record s { bcrypt_calls = suc s.bcrypt_calls })).1

guess-refused :
    (w : World) (s : State) (address password : String) (ip : Option String) (c : Credential)
    → Guessed w s address password c
    → authenticate address password ip w s ≡ (
      err (auth (invalid_credentials "Invalid email or password")),
      counted_state w s (normalize_email address) ip c,
    )
unfolding authenticate get_by_email authenticate_known refuse_wrong_password audit set_credential
    ◌>>=◌
guess-refused w s address password ip c g =
    rw
      (
        g.stored,
        g.unlocked,
        verify_password-Refuses w password c.password_hash s g.wrong,
        g.enabled,
      )
      refl

counted_state-Counted :
    (w : World) (s : State) (email : String) (ip : Option String) (c : Credential)
    → find? (by_email email) s.working.credentials ≡ some c
    → Counted w s email c (counted_state w s email ip c)
unfolding refuse_wrong_password audit set_credential ◌>>=◌
counted_state-Counted w s email ip c stored = record {
  stored =
      find?-update (by_email email) (by_id c.id) (count_failure w.settings s.now)
        s.working.credentials c
        (λ y. ap (λ e. str_eq e email) (count_failure-email w.settings s.now y)) stored
        (ground arith);
  clock = refl;
  cost = refl;
}

pub guess-Counted :
    (w : World) (s : State) (address password : String) (ip : Option String) (c : Credential)
    → Guessed w s address password c
    → (s' : State) × (authenticate address password ip w s
        ≡ (err (auth (invalid_credentials "Invalid email or password")), s'))
      × Counted w s (normalize_email address) c s'
guess-Counted w s address password ip c g = (
  counted_state w s (normalize_email address) ip c,
  guess-refused w s address password ip c g,
  counted_state-Counted w s (normalize_email address) ip c g.stored,
)

-- An address that has no account and a wrong password for an account that is enabled and not
-- locked are answered by the same error after the same number of bcrypt checks, one. The dummy
-- hash and the stored one are assumed to be texts that bcrypt checks and refuses.
pub unknown-like_wrong :
    (w : World) (s : State) (unknown known password password' : String) (ip ip' : Option String)
    (c : Credential)
    → find? (by_email (normalize_email unknown)) s.working.credentials ≡ none
    → Refuses w password (dummy_password_hash w)
    → Guessed w s known password' c
    → ((authenticate unknown password ip w s).0 ≡ (authenticate known password' ip' w s).0)
      × ((authenticate unknown password ip w s).1.bcrypt_calls
          ≡ (authenticate known password' ip' w s).1.bcrypt_calls)
unknown-like_wrong w s unknown known password password' ip ip' c none_ r g =
    let (same, cost) = unknown-refused w s unknown password ip none_ r in
    let (s', e, counted) = guess-Counted w s known password' ip' c g in
    (same ∙ ap (λ x. x.0) (sym e), cost ∙ sym (ap (λ x. x.1.bcrypt_calls) e ∙ counted.cost))
