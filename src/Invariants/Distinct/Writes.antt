-- ===== src/Invariants/Distinct/Writes.antt =====
-- Every write keeps the columns unique: an insert by its check, an assignment because it leaves the
-- key alone.
use mxtng_auth_services.Common.{
  ℕ, String, ◌==◌, ◌≡◌, refl, Bool, false, ◌||◌, Option, List, [], ◌∷◌, inl, inr, arith, Bool-cases,
  any, str_eq, truthy, some, none,
}
use mxtng_auth_services.Models.{
  Db, Credential, RefreshToken, SignInChallenge, PasswordResetToken, OAuthState, Session,
}
use mxtng_auth_services.World.{World}
use mxtng_auth_services.Action.{modify, ◌>>=◌}
use mxtng_auth_services.Services.Helpers.{
  audit, set_credential, set_challenge, set_reset_token, set_session, add_credential,
  add_refresh_token, add_reset_token, add_challenge, add_oauth_state, add_session,
}
use mxtng_auth_services.Services.OAuth.{is_open, burn, burn_open}
use mxtng_auth_services.Services.Challenge.{open_of, consume, supersede_challenges}
use mxtng_auth_services.Services.Sessions.{
  live_of, end_session, in_family, revoke_token, revoke_behind, revoke_families,
}
use mxtng_auth_services.Invariants.Keeps.{Keeps, Keeps-modify, keeps_rules}
use mxtng_auth_services.Invariants.Closed.{Closed}
use mxtng_auth_services.Invariants.Lasting.Defs.{SessionLasts, ChallengeLasts, ResetLasts}
use mxtng_auth_services.Invariants.Distinct.Keys.{Distinct, Distinct-append, Distinct-update}
use mxtng_auth_services.Invariants.Distinct.Defs.{
  token_key, session_key, challenge_key, reset_key, state_key, Unique, Unique-transport,
}

any-right :
    {A : Type 0} (p q : A → Bool) (xs : List A)
    → any (λ x. p x || q x) xs ≡ false
    → any q xs ≡ false
any-right p q [] h = refl
any-right p q (x ∷ xs) h = ground (arith, any-right p q xs)

revoke_behind-Distinct :
    (f : Option String) (ts : List RefreshToken)
    → Distinct token_key ts
    → Distinct token_key (revoke_behind f ts)
unfolding revoke_behind revoke_token
revoke_behind-Distinct none ts h = h
revoke_behind-Distinct (some f) ts h = elim (Bool-cases (truthy (some f))) [
  | inl e ↦ rw e (Distinct-update token_key (in_family f) revoke_token (λ t. refl) ts h)
  | inr e ↦ rw e h
]

revoke_families-Distinct :
    (ss : List Session) (ts : List RefreshToken)
    → Distinct token_key ts
    → Distinct token_key (revoke_families ss ts)
unfolding revoke_families
revoke_families-Distinct [] ts h = h
revoke_families-Distinct (s ∷ ss) ts h =
    revoke_families-Distinct ss (revoke_behind s.family_id ts)
      (revoke_behind-Distinct s.family_id ts h)

module _ {w : World} where
  Keeps-frame :
      (f : Db → Db)
      → ((db : Db) → db.refresh_tokens ≡ (f db).refresh_tokens)
      → ((db : Db) → db.sessions ≡ (f db).sessions)
      → ((db : Db) → db.challenges ≡ (f db).challenges)
      → ((db : Db) → db.reset_tokens ≡ (f db).reset_tokens)
      → ((db : Db) → db.oauth_states ≡ (f db).oauth_states)
      → Keeps Unique w (modify f)
  Keeps-frame f et es ec er eo =
      Keeps-modify f (λ db h. Unique-transport db (f db) (et db) (es db) (ec db) (er db) (eo db) h)

  audit-Keeps :
      (event : String) (id : Option ℕ) (email ip detail : Option String)
      → Keeps Unique w (audit event id email ip detail)
  unfolding audit
  audit-Keeps event id email ip detail = search (keeps_rules, Keeps-frame)

  set_credential-Keeps :
      (id : ℕ) (f : Credential → Credential) → Keeps Unique w (set_credential id f)
  unfolding set_credential
  set_credential-Keeps id f = search (keeps_rules, Keeps-frame)

  add_credential-Keeps : (x : Credential) → Keeps Unique w (add_credential x)
  unfolding add_credential
  add_credential-Keeps x = search (keeps_rules, Keeps-frame)

  add_refresh_token-Keeps : (x : RefreshToken) → Keeps Unique w (add_refresh_token x)
  unfolding add_refresh_token ◌>>=◌
  add_refresh_token-Keeps x = record {
    at = λ s c h.
        elim (Bool-cases
          (any (λ o. o.id == x.id || str_eq o.token_hash x.token_hash) s.working.refresh_tokens)) [
            | inl e ↦ rw e c
            | inr e ↦ rw e (
              c,
              record {
                tokens =
                    Distinct-append token_key s.working.refresh_tokens x h.tokens
                      (any-right _ _ s.working.refresh_tokens e);
                sessions = h.sessions;
                challenges = h.challenges;
                resets = h.resets;
                states = h.states;
              },
            )
          ];
  }

  add_session-Keeps : (x : Session) → Keeps Unique w (add_session x)
  unfolding add_session ◌>>=◌
  add_session-Keeps x = record {
    at = λ s c h.
        elim (Bool-cases
          (any (λ o. o.id == x.id || str_eq o.session_id x.session_id) s.working.sessions)) [
            | inl e ↦ rw e c
            | inr e ↦ rw e (
              c,
              record {
                tokens = h.tokens;
                sessions =
                    Distinct-append session_key s.working.sessions x h.sessions
                      (any-right _ _ s.working.sessions e);
                challenges = h.challenges;
                resets = h.resets;
                states = h.states;
              },
            )
          ];
  }

  pub add_challenge-Keeps : (x : SignInChallenge) → Keeps Unique w (add_challenge x)
  unfolding add_challenge ◌>>=◌
  add_challenge-Keeps x = record {
    at = λ s c h.
        elim (Bool-cases
          (any (λ o. o.id == x.id || str_eq o.challenge_id x.challenge_id) s.working.challenges)) [
            | inl e ↦ rw e c
            | inr e ↦ rw e (
              c,
              record {
                tokens = h.tokens;
                sessions = h.sessions;
                challenges =
                    Distinct-append challenge_key s.working.challenges x h.challenges
                      (any-right _ _ s.working.challenges e);
                resets = h.resets;
                states = h.states;
              },
            )
          ];
  }

  add_reset_token-Keeps : (x : PasswordResetToken) → Keeps Unique w (add_reset_token x)
  unfolding add_reset_token ◌>>=◌
  add_reset_token-Keeps x = record {
    at = λ s c h.
        elim (Bool-cases
          (any (λ o. o.id == x.id || str_eq o.token_hash x.token_hash) s.working.reset_tokens)) [
            | inl e ↦ rw e c
            | inr e ↦ rw e (
              c,
              record {
                tokens = h.tokens;
                sessions = h.sessions;
                challenges = h.challenges;
                resets =
                    Distinct-append reset_key s.working.reset_tokens x h.resets
                      (any-right _ _ s.working.reset_tokens e);
                states = h.states;
              },
            )
          ];
  }

  add_oauth_state-Keeps : (x : OAuthState) → Keeps Unique w (add_oauth_state x)
  unfolding add_oauth_state ◌>>=◌
  add_oauth_state-Keeps x = record {
    at = λ s c h.
        elim (Bool-cases
          (any (λ o. o.id == x.id || str_eq o.state_hash x.state_hash) s.working.oauth_states)) [
            | inl e ↦ rw e c
            | inr e ↦ rw e (
              c,
              record {
                tokens = h.tokens;
                sessions = h.sessions;
                challenges = h.challenges;
                resets = h.resets;
                states =
                    Distinct-append state_key s.working.oauth_states x h.states
                      (any-right _ _ s.working.oauth_states e);
              },
            )
          ];
  }

  set_session-Keeps :
      (id : ℕ) (f : Session → Session)
      → ((x : Session) → SessionLasts x (f x))
      → Keeps Unique w (set_session id f)
  unfolding set_session
  set_session-Keeps id f k = Keeps-modify _ (λ db h. record {
    tokens = h.tokens;
    sessions =
        Distinct-update session_key (λ c. c.id == id) f (λ x. (k x).session_id) db.sessions
          h.sessions;
    challenges = h.challenges;
    resets = h.resets;
    states = h.states;
  })

  set_challenge-Keeps :
      (id : ℕ) (f : SignInChallenge → SignInChallenge)
      → ((x : SignInChallenge) → ChallengeLasts x (f x))
      → Keeps Unique w (set_challenge id f)
  unfolding set_challenge
  set_challenge-Keeps id f k = Keeps-modify _ (λ db h. record {
    tokens = h.tokens;
    sessions = h.sessions;
    challenges =
        Distinct-update challenge_key (λ c. c.id == id) f (λ x. (k x).challenge_id) db.challenges
          h.challenges;
    resets = h.resets;
    states = h.states;
  })

  set_reset_token-Keeps :
      (id : ℕ) (f : PasswordResetToken → PasswordResetToken)
      → ((x : PasswordResetToken) → ResetLasts x (f x))
      → Keeps Unique w (set_reset_token id f)
  unfolding set_reset_token
  set_reset_token-Keeps id f k = Keeps-modify _ (λ db h. record {
    tokens = h.tokens;
    sessions = h.sessions;
    challenges = h.challenges;
    resets =
        Distinct-update reset_key (λ c. c.id == id) f (λ x. (k x).token_hash) db.reset_tokens
          h.resets;
    states = h.states;
  })

  pub Unique-Closed : Closed Unique w
  unfolding burn_open supersede_challenges burn consume end_session
  Unique-Closed = record {
    keeps_audit = audit-Keeps;
    keeps_set_credential = λ id f k. set_credential-Keeps id f;
    keeps_set_challenge = set_challenge-Keeps;
    keeps_set_reset_token = set_reset_token-Keeps;
    keeps_set_session = set_session-Keeps;
    keeps_update_tokens = λ p f k. Keeps-modify _ (λ db h. record {
      tokens = Distinct-update token_key p f (λ x. (k x).token_hash) db.refresh_tokens h.tokens;
      sessions = h.sessions;
      challenges = h.challenges;
      resets = h.resets;
      states = h.states;
    });
    keeps_revoked = λ id reason at ss. Keeps-modify _ (λ db h. record {
      tokens = revoke_families-Distinct ss db.refresh_tokens h.tokens;
      sessions =
          Distinct-update session_key (live_of id) (end_session reason at) (λ t. refl) db.sessions
            h.sessions;
      challenges = h.challenges;
      resets = h.resets;
      states = h.states;
    });
    keeps_add_credential = add_credential-Keeps;
    keeps_add_refresh_token = add_refresh_token-Keeps;
    keeps_add_reset_token = add_reset_token-Keeps;
    keeps_add_oauth_state = add_oauth_state-Keeps;
    keeps_add_session = add_session-Keeps;
    keeps_burn_open = λ hash at. Keeps-modify _ (λ db h. record {
      tokens = h.tokens;
      sessions = h.sessions;
      challenges = h.challenges;
      resets = h.resets;
      states =
          Distinct-update state_key (is_open hash at) burn (λ t. refl) db.oauth_states h.states;
    });
    keeps_supersede_challenges = λ id. Keeps-modify _ (λ db h. record {
      tokens = h.tokens;
      sessions = h.sessions;
      challenges =
          Distinct-update challenge_key (open_of id) consume (λ t. refl) db.challenges h.challenges;
      resets = h.resets;
      states = h.states;
    });
  }
