-- ===== src/Api/Lockout.antt =====
-- The lockout of login_challenge, over a history of requests.
use mxtng_auth_services.Common.{
  ℕ, suc, ◌+◌, ◌<◌, ◌≤◌, String, ◌≡◌, ◌∙◌, sym, ap, refl, true, false, Option, none, some, List, [],
  ◌∷◌, length, find?, leb, arith,
}
use mxtng_auth_services.Models.{seconds, Credential}
use mxtng_auth_services.Errors.{auth, invalid_credentials, account_locked}
use mxtng_auth_services.Settings.{Settings}
use mxtng_auth_services.World.{World}
use mxtng_auth_services.Action.{State, err, ◌>>=◌}
use mxtng_auth_services.Services.Helpers.{normalize_email, by_email, get_by_email, audit}
use mxtng_auth_services.Services.Login.{is_locked, authenticate, authenticate_known, count_failure}
use mxtng_auth_services.Services.Login.Outcomes.{Refuses, Counted, guess-Counted}
use mxtng_auth_services.Api.{
  login_challenge, asks_challenge, handle, serve, Event, request, wait, step, run,
}

-- Guesses of one password for one address, after these delays.
abbrev pub guesses : String → String → Option String → List ℕ → List Event
guesses address password ip [] = []
guesses address password ip (d ∷ ds) =
    wait d ∷ request (asks_challenge address password none ip) ∷ guesses address password ip ds

-- An account that can be guessed at, between requests: a lock that it has is over.
pub record Target (w : World) (s : State) (address password : String) (c : Credential)
    : Type 0 where
  pub settled : s.working ≡ s.committed
  pub stored : find? (by_email (normalize_email address)) s.committed.credentials ≡ some c
  pub enabled : c.disabled ≡ false
  pub unlocked : (until : ℕ) → c.locked_until ≡ some until → until ≤ s.now
  pub wrong : Refuses w password c.password_hash

-- The account as a guess leaves it.
record Tried (w : World) (s : State) (address : String) (c : Credential) (d : ℕ) (s' : State)
    : Type 0 where
  settled : s'.working ≡ s'.committed
  stored :
      find? (by_email (normalize_email address)) s'.committed.credentials
      ≡ some (count_failure w.settings (s.now + d) c)
  clock : s'.now ≡ s.now + d

count_locks :
    (cfg : Settings) (at : ℕ) (c : Credential)
    → leb cfg.max_failed_logins (c.failed_attempts + 1) ≡ true
    → (count_failure cfg at c).locked_until ≡ some (at + seconds cfg.login_lockout_seconds)
unfolding count_failure
count_locks cfg at c e = rw e refl

count_adds :
    (cfg : Settings) (at : ℕ) (c : Credential)
    → leb cfg.max_failed_logins (c.failed_attempts + 1) ≡ false
    → count_failure cfg at c ≡ record c { failed_attempts = c.failed_attempts + 1 }
unfolding count_failure
count_adds cfg at c e = rw e refl

lock-over :
    (lock : Option ℕ) (at d : ℕ)
    → ((until : ℕ) → lock ≡ some until → until ≤ at)
    → is_locked lock (at + d) ≡ false
lock-over none at d h = refl
lock-over (some until) at d h = let over = h until refl in ground arith

module _ (w : World) (address password : String) (ip : Option String) where
  refused-Tried :
      (s s' : State) (c : Credential) (d : ℕ)
      → authenticate address password ip w (record s { now = s.now + d })
        ≡ (err (auth (invalid_credentials "Invalid email or password")), s')
      → Counted w (record s { now = s.now + d }) (normalize_email address) c s'
      → Tried w s address c d
          (step w (step w s (wait d)) (request (asks_challenge address password none ip)))
  unfolding step serve handle login_challenge ◌>>=◌
  refused-Tried s s' c d e counted =
      rw e (record { settled = refl; stored = counted.stored; clock = counted.clock })

  step-Tried :
      (s : State) (c : Credential) (d : ℕ)
      → Target w s address password c
      → Tried w s address c d
          (step w (step w s (wait d)) (request (asks_challenge address password none ip)))
  step-Tried s c d t =
      let (s', e, counted) =
        guess-Counted w (record s { now = s.now + d }) address password ip c
          (record {
            stored = rw t.settled t.stored;
            enabled = t.enabled;
            unlocked = lock-over c.locked_until s.now d t.unlocked;
            wrong = t.wrong;
          }) in
      refused-Tried s s' c d e counted

  -- The account is locked from now on, for the whole lockout.
  pub record Locked (s : State) : Type 0 where
    row : Credential
    stored : find? (by_email (normalize_email address)) s.committed.credentials ≡ some row
    settled : s.working ≡ s.committed
    until : row.locked_until ≡ some (s.now + seconds w.settings.login_lockout_seconds)

  guesses-Locked :
      (ds : List ℕ) (d : ℕ) (s : State) (c : Credential)
      → Target w s address password c
      → c.failed_attempts + suc (length ds) ≡ w.settings.max_failed_logins
      → Locked (run w s (guesses address password ip (d ∷ ds)))
  unfolding run
  guesses-Locked [] d s c t limit =
      let g = step-Tried s c d t in
      record {
        row = count_failure w.settings (s.now + d) c;
        stored = g.stored;
        settled = g.settled;
        until =
            count_locks w.settings (s.now + d) c (ground arith)
            ∙ ap (λ n. some (n + seconds w.settings.login_lockout_seconds)) (sym g.clock);
      }
  guesses-Locked (x ∷ xs) d s c t limit =
      let g = step-Tried s c d t in
      guesses-Locked xs x _ (record c { failed_attempts = c.failed_attempts + 1 })
        (record {
          settled = g.settled;
          stored = g.stored ∙ ap some (count_adds w.settings (s.now + d) c (ground arith));
          enabled = t.enabled;
          unlocked = λ u e. let over = t.unlocked u e in let clock = g.clock in omega arith;
          wrong = t.wrong;
        })
        (omega arith)

  Locked-refused :
      (s : State) (any_password : String) (ip' : Option String) (d : ℕ)
      → Locked s
      → d < seconds w.settings.login_lockout_seconds
      → (authenticate address any_password ip' w (step w s (wait d))).0
        ≡ err (auth (account_locked "Too many failed attempts. Try again later."))
  unfolding step authenticate authenticate_known get_by_email audit ◌>>=◌
  Locked-refused s any_password ip' d l soon =
      let now_locked : is_locked l.row.locked_until (s.now + d) ≡ true =
        rw l.until (ground arith) in
      rw (l.settled, l.stored, now_locked) refl

  -- Lockout: for an account that is enabled, whose last lock, if it had one, is over, and whose
  -- password is not the one guessed, as many requests of login_challenge as its failed attempts leave of MAX_FAILED_LOGINS,
  -- with any delays between them, lock it; until LOGIN_LOCKOUT_SECONDS after the last of them
  -- `authenticate` refuses every password with AccountLocked, the right one too.
  pub guesses-lock_out :
      (ds : List ℕ) (d : ℕ) (s : State) (c : Credential) (any_password : String)
      (ip' : Option String) (later : ℕ)
      → Target w s address password c
      → c.failed_attempts + suc (length ds) ≡ w.settings.max_failed_logins
      → later < seconds w.settings.login_lockout_seconds
      → (authenticate address any_password ip' w
          (step w (run w s (guesses address password ip (d ∷ ds))) (wait later))).0
        ≡ err (auth (account_locked "Too many failed attempts. Try again later."))
  guesses-lock_out ds d s c any_password ip' later t limit soon =
      Locked-refused (run w s (guesses address password ip (d ∷ ds))) any_password ip' later
        (guesses-Locked ds d s c t limit) soon
