-- ===== src/Invariants/OneChallenge.antt =====
-- An account never has two open sign-in challenges.
use mxtng_auth_services.Common.{
  ℕ, ◌≤◌, ◌==◌, ◌≡◌, refl, String, true, false, Option, none, some, List, [], ◌∷◌, ◌++◌, arith, any,
  ◌||◌, str_eq, count, update, count-append, count-update-le, count-update_self, inl, inr,
  Bool-cases,
}
use mxtng_auth_services.Models.{
  Db, Datetime, Credential, SignInChallenge, PasswordResetToken, Session, RefreshToken, OAuthState,
}
use mxtng_auth_services.World.{World}
use mxtng_auth_services.Errors.{value_error}
use mxtng_auth_services.Action.{init, or_else, throw, modify, ◌>>=◌}
use mxtng_auth_services.Security.{hash_password, hash_sign_in_code, new_sign_in_code}
use mxtng_auth_services.Services.Helpers.{
  audit, set_credential, set_challenge, set_reset_token, set_session, add_credential,
  add_refresh_token, add_reset_token, add_challenge, add_oauth_state, add_session,
}
use mxtng_auth_services.Services.OAuth.{burn_open}
use mxtng_auth_services.Services.Challenge.{consume, open_of, supersede_challenges, start_challenge}
use mxtng_auth_services.Api.{Event, run}
use mxtng_auth_services.Invariants.Keeps.{Keeps, Keeps-modify, keeps_rules}
use mxtng_auth_services.Invariants.Leads.{
  Leads, Leads-bind, Leads-draw, Leads-asks, Leads-now, Leads-Keeps, Keeps-Leads,
}
use mxtng_auth_services.Invariants.Mail.{Keeps-mail_sign_in_code, Keeps-on_failure}
use mxtng_auth_services.Invariants.Steps.{Steps}
use mxtng_auth_services.Invariants.Steps.Requests.{run-Keeps}
use mxtng_auth_services.Invariants.Lasting.Defs.{ChallengeLasts}
use mxtng_auth_services.Invariants.Closed.{Closed}
use mxtng_auth_services.Invariants.Closed.AsSteps.{Closed-Steps, retire_challenge-Keeps}

pub record OneChallenge (db : Db) : Type 0 where
  pub single : (c : ℕ) → count (open_of c) db.challenges ≤ 1

-- The challenge of `c` can be opened.
record Cleared (c : ℕ) (db : Db) : Type 0 where
  valid : OneChallenge db
  none_open : count (open_of c) db.challenges ≡ 0

-- An assignment opens no challenge, and gives it to nobody else.
still-open :
    (c : ℕ) (x y : SignInChallenge) → ChallengeLasts x y → open_of c y ≡ true → open_of c x ≡ true
still-open c x y k h = elim (Bool-cases x.consumed) [
  | inl e ↦ let dead = k.consumed e in ground arith
  | inr e ↦ let same = k.owner in ground arith
]

consume-not-open : (c : ℕ) (x : SignInChallenge) → open_of c (consume x) ≡ false
unfolding consume
consume-not-open c x = ground arith

consume-still-open :
    (c : ℕ) (x : SignInChallenge) → open_of c (consume x) ≡ true → open_of c x ≡ true
consume-still-open c x h = let dead = consume-not-open c x in cc

opened :
    (c c' : ℕ) (t : SignInChallenge) (xs : List SignInChallenge)
    → t.credential_id ≡ c
    → count (open_of c) xs ≡ 0
    → count (open_of c') xs ≤ 1
    → count (open_of c') (xs ++ t ∷ []) ≤ 1
opened c c' t xs e none_open single = ground (arith, count-append (open_of c') xs (t ∷ []))

superseded :
    (id : ℕ) (db : Db)
    → OneChallenge db
    → Cleared id (record db { challenges = update (open_of id) consume db.challenges })
superseded id db h = record {
  valid = record {
    single = λ c. omega (
      arith,
      count-update-le (open_of c) (open_of id) consume db.challenges (consume-still-open c),
      h.single c,
    );
  };
  none_open = count-update_self (open_of id) consume db.challenges (consume-not-open id);
}

OneChallenge-transport :
    (db db' : Db) → db.challenges ≡ db'.challenges → OneChallenge db → OneChallenge db'
OneChallenge-transport db db' e h = record { single = λ c. rw e at (h.single c) }

module _ {w : World} where
  Keeps-frame :
      (f : Db → Db)
      → ((db : Db) → db.challenges ≡ (f db).challenges)
      → Keeps OneChallenge w (modify f)
  Keeps-frame f e = Keeps-modify f (λ db h. OneChallenge-transport db (f db) (e db) h)

ruleset frame_rules = (keeps_rules, Keeps-frame, refl)

module _ {w : World} where
  audit-Keeps :
      (event : String) (id : Option ℕ) (email ip detail : Option String)
      → Keeps OneChallenge w (audit event id email ip detail)
  unfolding audit
  audit-Keeps event id email ip detail = search frame_rules

  set_credential-Keeps :
      (id : ℕ) (f : Credential → Credential) → Keeps OneChallenge w (set_credential id f)
  unfolding set_credential
  set_credential-Keeps id f = search frame_rules

  set_reset_token-Keeps :
      (id : ℕ) (f : PasswordResetToken → PasswordResetToken)
      → Keeps OneChallenge w (set_reset_token id f)
  unfolding set_reset_token
  set_reset_token-Keeps id f = search frame_rules

  set_session-Keeps : (id : ℕ) (f : Session → Session) → Keeps OneChallenge w (set_session id f)
  unfolding set_session
  set_session-Keeps id f = search frame_rules

  add_credential-Keeps : (x : Credential) → Keeps OneChallenge w (add_credential x)
  unfolding add_credential
  add_credential-Keeps x = search frame_rules

  add_refresh_token-Keeps : (x : RefreshToken) → Keeps OneChallenge w (add_refresh_token x)
  unfolding add_refresh_token
  add_refresh_token-Keeps x = search frame_rules

  add_reset_token-Keeps : (x : PasswordResetToken) → Keeps OneChallenge w (add_reset_token x)
  unfolding add_reset_token
  add_reset_token-Keeps x = search frame_rules

  add_oauth_state-Keeps : (x : OAuthState) → Keeps OneChallenge w (add_oauth_state x)
  unfolding add_oauth_state
  add_oauth_state-Keeps x = search frame_rules

  add_session-Keeps : (x : Session) → Keeps OneChallenge w (add_session x)
  unfolding add_session
  add_session-Keeps x = search frame_rules

  burn_open-Keeps : (hash : String) (at : ℕ) → Keeps OneChallenge w (burn_open hash at)
  unfolding burn_open
  burn_open-Keeps hash at = search frame_rules

  set_challenge-Keeps :
      (id : ℕ) (f : SignInChallenge → SignInChallenge)
      → ((x : SignInChallenge) → ChallengeLasts x (f x))
      → Keeps OneChallenge w (set_challenge id f)
  unfolding set_challenge
  set_challenge-Keeps id f k = Keeps-modify _ (λ db h. record {
    single = λ c. omega (
      arith,
      count-update-le (open_of c) (λ x. x.id == id) f db.challenges
          (λ x. still-open c x (f x) (k x)),
      h.single c,
    );
  })

  supersede_challenges-Keeps : (id : ℕ) → Keeps OneChallenge w (supersede_challenges id)
  unfolding supersede_challenges
  supersede_challenges-Keeps id = Keeps-modify _ (λ db h. (superseded id db h).valid)

  supersede-Leads :
      (id : ℕ) → Leads OneChallenge OneChallenge (λ _. Cleared id) w (supersede_challenges id)
  unfolding supersede_challenges modify
  supersede-Leads id = record { at = λ s c h. (c, superseded id s.working h) }

  hashed :
      (Pre : Db → Type 0) (o : Option String)
      → Leads OneChallenge Pre (λ _. Pre) w (or_else o (throw value_error))
  unfolding or_else throw
  hashed Pre none = record { at = λ s c h. c }
  hashed Pre (some h) = record { at = λ s c k. (c, k) }

  -- A bcrypt hash touches no row.
  hash-Leads :
      (Pre : Db → Type 0) (code : String)
      → Leads OneChallenge Pre (λ _. Pre) w (hash_sign_in_code code)
  unfolding hash_sign_in_code hash_password
  hash-Leads Pre code = Leads-draw _ _ _ λ n. hashed Pre (w.hashpw code n)

  add-Leads :
      (x : SignInChallenge)
      → Leads OneChallenge (Cleared x.credential_id) (λ _. OneChallenge) w (add_challenge x)
  unfolding add_challenge ◌>>=◌
  add-Leads x = record {
    at = λ s c h.
        elim (Bool-cases
          (any (λ o. o.id == x.id || str_eq o.challenge_id x.challenge_id) s.working.challenges)) [
            | inl taken ↦ rw taken c
            | inr free ↦ rw free (
              c,
              record {
                single = λ c'.
                    opened x.credential_id c' x s.working.challenges refl h.none_open
                      (h.valid.single c');
              },
            )
          ];
  }

  OneChallenge-Closed : Closed OneChallenge w
  OneChallenge-Closed = record {
    keeps_audit = audit-Keeps;
    keeps_set_credential = λ id f k. set_credential-Keeps id f;
    keeps_set_challenge = set_challenge-Keeps;
    keeps_set_reset_token = λ id f k. set_reset_token-Keeps id f;
    keeps_set_session = λ id f k. set_session-Keeps id f;
    keeps_update_tokens = λ p f k. Keeps-frame _ (λ db. refl);
    keeps_revoked = λ id reason at ss. Keeps-frame _ (λ db. refl);
    keeps_add_credential = add_credential-Keeps;
    keeps_add_refresh_token = add_refresh_token-Keeps;
    keeps_add_reset_token = add_reset_token-Keeps;
    keeps_add_oauth_state = add_oauth_state-Keeps;
    keeps_add_session = add_session-Keeps;
    keeps_burn_open = burn_open-Keeps;
    keeps_supersede_challenges = supersede_challenges-Keeps;
  }

  start_challenge-Keeps :
      (y : Credential) (requested : String) (ip : Option String)
      → Keeps OneChallenge w (start_challenge y requested ip)
  unfolding start_challenge new_sign_in_code
  start_challenge-Keeps y requested ip = Leads-Keeps (
      Leads-asks _ _ _ (
        Leads-bind _ (λ _. Cleared y.id) _ _ _ (supersede-Leads y.id)
          λ _. Leads-draw _ _ _ λ n.
            Leads-bind _ (λ _. Cleared y.id) _ _ _ (hash-Leads _ _)
              λ hash. Leads-draw _ _ _ λ id. Leads-draw _ _ _ λ cid. Leads-now _ _ λ at.
                Leads-bind _ (λ _. OneChallenge) _ _ _ (add-Leads _)
                  λ _. Keeps-Leads (
                    search
                      (
                        keeps_rules,
                        audit-Keeps,
                        Keeps-mail_sign_in_code,
                        Keeps-on_failure,
                        retire_challenge-Keeps OneChallenge-Closed,
                      )
                      depth 14)))

  OneChallenge-Steps : Steps OneChallenge w
  OneChallenge-Steps = Closed-Steps OneChallenge-Closed start_challenge-Keeps

-- Whatever requests the service handles from an empty database on, whatever their order and the
-- time between them, and however many of them fail, no credential ever has two open sign-in
-- challenges among the stored rows.
pub one_open_challenge :
    (w : World) (t : Datetime) (es : List Event) (c : ℕ)
    → count (open_of c) (run w (init t) es).committed.challenges ≤ 1
one_open_challenge w t es c =
    (run-Keeps {P = OneChallenge} w OneChallenge-Steps (init t) es
        (record { single = λ c. omega arith }) refl).single
      c
