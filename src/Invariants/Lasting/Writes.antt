-- ===== src/Invariants/Lasting/Writes.antt =====
-- Every way in which the services write to a table keeps what lasts.
use mxtng_auth_services.Common.{
  ℕ, String, refl, ◌==◌, Bool, Option, none, some, List, [], ◌∷◌, update, truthy, inl, inr,
  Bool-cases,
}
use mxtng_auth_services.Models.{
  Db, Credential, RefreshToken, PasswordResetToken, SignInChallenge, OAuthState, Session,
}
use mxtng_auth_services.World.{World}
use mxtng_auth_services.Action.{modify}
use mxtng_auth_services.Services.Helpers.{
  audit, set_credential, set_challenge, set_session, set_reset_token, add_credential,
  add_refresh_token, add_reset_token, add_challenge, add_oauth_state, add_session, by_id,
}
use mxtng_auth_services.Services.Sessions.{
  in_family, revoke_token, end_session, revoke_behind, revoke_families,
}
use mxtng_auth_services.Services.OAuth.{is_open, burn, burn_open}
use mxtng_auth_services.Services.Challenge.{open_of, consume, supersede_challenges}
use mxtng_auth_services.Services.Sessions.{live_of}
use mxtng_auth_services.Invariants.Closed.{Closed}
use mxtng_auth_services.Invariants.Keeps.{Keeps, Keeps-modify, keeps_rules}
use mxtng_auth_services.Invariants.Lasting.Rows.{
  Grows, Grows-refl, Grows-trans, Grows-append, Grows-update,
}
use mxtng_auth_services.Invariants.Lasting.Assignments.{
  revoke_token-Lasts, end_session-Lasts, consume-Lasts, burn-Lasts,
}
use mxtng_auth_services.Invariants.Lasting.Tables.{
  credentials-Lasts, tokens-Lasts, reset_tokens-Lasts, challenges-Lasts, states-Lasts, audit-Lasts,
  sessions-Lasts,
}
use mxtng_auth_services.Invariants.Lasting.Defs.{
  Lasts-refl, TokenLasts-trans, CredentialLasts, SessionLasts, TokenLasts, ChallengeLasts,
  ResetLasts, StateLasts, Same, Lasts, CredentialLasts-refl, SessionLasts-refl, TokenLasts-refl,
  ChallengeLasts-refl, ResetLasts-refl, StateLasts-refl, Lasts-trans,
}

pub revoking :
    (p : RefreshToken → Bool) (ts : List RefreshToken)
    → Grows TokenLasts ts (update p revoke_token ts)
revoking p ts = Grows-update TokenLasts TokenLasts-refl p revoke_token revoke_token-Lasts ts

revoke_behind-Grows :
    (f : Option String) (ts : List RefreshToken) → Grows TokenLasts ts (revoke_behind f ts)
unfolding revoke_behind
revoke_behind-Grows none ts = Grows-refl TokenLasts TokenLasts-refl ts
revoke_behind-Grows (some f) ts = elim (Bool-cases (truthy (some f))) [
  | inl e ↦ rw e (revoking (in_family f) ts)
  | inr e ↦ rw e (Grows-refl TokenLasts TokenLasts-refl ts)
]

pub revoke_families-Grows :
    (ss : List Session) (ts : List RefreshToken) → Grows TokenLasts ts (revoke_families ss ts)
unfolding revoke_families
revoke_families-Grows [] ts = Grows-refl TokenLasts TokenLasts-refl ts
revoke_families-Grows (s ∷ ss) ts =
    Grows-trans TokenLasts TokenLasts-trans _ _ _ (revoke_behind-Grows s.family_id ts)
      (revoke_families-Grows ss (revoke_behind s.family_id ts))

revoked-Lasts :
    (id : ℕ) (reason : String) (at : ℕ) (ss : List Session) (db : Db)
    → Lasts db (record db {
      sessions = update (live_of id) (end_session reason at) db.sessions;
      refresh_tokens = revoke_families ss db.refresh_tokens;
    })
revoked-Lasts id reason at ss db =
    let same = Lasts-refl db in
    record {
      credentials = same.credentials;
      refresh_tokens = revoke_families-Grows ss db.refresh_tokens;
      reset_tokens = same.reset_tokens;
      challenges = same.challenges;
      oauth_states = same.oauth_states;
      audit_log = same.audit_log;
      sessions =
          Grows-update SessionLasts SessionLasts-refl (live_of id) (end_session reason at)
            (end_session-Lasts reason at) db.sessions;
    }

module _ {c : Db} {w : World} where
  -- A write that the database survives.
  pub Keeps-write : (f : Db → Db) → ((db : Db) → Lasts db (f db)) → Keeps (Lasts c) w (modify f)
  Keeps-write f k = Keeps-modify f (λ db h. Lasts-trans c db (f db) h (k db))

  pub Keeps-audit :
      (event : String) (id : Option ℕ) (email ip detail : Option String)
      → Keeps (Lasts c) w (audit event id email ip detail)
  unfolding audit
  Keeps-audit event id email ip detail =
      search (keeps_rules, Keeps-write, audit-Lasts, Grows-append Same (λ r. refl))

  pub Keeps-set_credential :
      (id : ℕ) (f : Credential → Credential)
      → ((x : Credential) → CredentialLasts x (f x))
      → Keeps (Lasts c) w (set_credential id f)
  unfolding set_credential
  Keeps-set_credential id f k = Keeps-write _ (λ db.
      credentials-Lasts db _
        (Grows-update CredentialLasts CredentialLasts-refl (by_id id) f k db.credentials))

  pub Keeps-set_challenge :
      (id : ℕ) (f : SignInChallenge → SignInChallenge)
      → ((x : SignInChallenge) → ChallengeLasts x (f x))
      → Keeps (Lasts c) w (set_challenge id f)
  unfolding set_challenge
  Keeps-set_challenge id f k = Keeps-write _ (λ db.
      challenges-Lasts db _
        (Grows-update ChallengeLasts ChallengeLasts-refl (λ r. r.id == id) f k db.challenges))

  pub Keeps-set_session :
      (id : ℕ) (f : Session → Session)
      → ((x : Session) → SessionLasts x (f x))
      → Keeps (Lasts c) w (set_session id f)
  unfolding set_session
  Keeps-set_session id f k = Keeps-write _ (λ db.
      sessions-Lasts db _
        (Grows-update SessionLasts SessionLasts-refl (λ r. r.id == id) f k db.sessions))

  pub Keeps-set_reset_token :
      (id : ℕ) (f : PasswordResetToken → PasswordResetToken)
      → ((x : PasswordResetToken) → ResetLasts x (f x))
      → Keeps (Lasts c) w (set_reset_token id f)
  unfolding set_reset_token
  Keeps-set_reset_token id f k = Keeps-write _ (λ db.
      reset_tokens-Lasts db _
        (Grows-update ResetLasts ResetLasts-refl (λ r. r.id == id) f k db.reset_tokens))

  pub Keeps-add_credential : (x : Credential) → Keeps (Lasts c) w (add_credential x)
  unfolding add_credential
  Keeps-add_credential x =
      search
        (
          keeps_rules,
          Keeps-write,
          credentials-Lasts,
          Grows-append CredentialLasts CredentialLasts-refl,
        )
        depth 8

  pub Keeps-add_refresh_token : (x : RefreshToken) → Keeps (Lasts c) w (add_refresh_token x)
  unfolding add_refresh_token
  Keeps-add_refresh_token x =
      search (keeps_rules, Keeps-write, tokens-Lasts, Grows-append TokenLasts TokenLasts-refl) depth
        8

  pub Keeps-add_reset_token : (x : PasswordResetToken) → Keeps (Lasts c) w (add_reset_token x)
  unfolding add_reset_token
  Keeps-add_reset_token x =
      search (keeps_rules, Keeps-write, reset_tokens-Lasts, Grows-append ResetLasts ResetLasts-refl)
        depth 8

  pub Keeps-add_challenge : (x : SignInChallenge) → Keeps (Lasts c) w (add_challenge x)
  unfolding add_challenge
  Keeps-add_challenge x =
      search
        (
          keeps_rules,
          Keeps-write,
          challenges-Lasts,
          Grows-append ChallengeLasts ChallengeLasts-refl,
        )
        depth 8

  pub Keeps-add_oauth_state : (x : OAuthState) → Keeps (Lasts c) w (add_oauth_state x)
  unfolding add_oauth_state
  Keeps-add_oauth_state x =
      search (keeps_rules, Keeps-write, states-Lasts, Grows-append StateLasts StateLasts-refl) depth
        8

  pub Keeps-add_session : (x : Session) → Keeps (Lasts c) w (add_session x)
  unfolding add_session
  Keeps-add_session x =
      search (keeps_rules, Keeps-write, sessions-Lasts, Grows-append SessionLasts SessionLasts-refl)
        depth 8

  pub Lasts-Closed : Closed (Lasts c) w
  unfolding burn_open supersede_challenges
  Lasts-Closed = record {
    keeps_audit = Keeps-audit;
    keeps_set_credential = Keeps-set_credential;
    keeps_set_challenge = Keeps-set_challenge;
    keeps_set_reset_token = Keeps-set_reset_token;
    keeps_set_session = Keeps-set_session;
    keeps_update_tokens = λ p f k.
        Keeps-write _ (λ db.
          tokens-Lasts db _ (Grows-update TokenLasts TokenLasts-refl p f k db.refresh_tokens));
    keeps_revoked = λ id reason at ss. Keeps-write _ (revoked-Lasts id reason at ss);
    keeps_add_credential = Keeps-add_credential;
    keeps_add_refresh_token = Keeps-add_refresh_token;
    keeps_add_reset_token = Keeps-add_reset_token;
    keeps_add_oauth_state = Keeps-add_oauth_state;
    keeps_add_session = Keeps-add_session;
    keeps_burn_open = λ hash at. Keeps-write _ (λ db. states-Lasts db _ (
        Grows-update StateLasts StateLasts-refl (is_open hash at) burn burn-Lasts db.oauth_states));
    keeps_supersede_challenges = λ id. Keeps-write _ (λ db. challenges-Lasts db _ (
        Grows-update ChallengeLasts ChallengeLasts-refl (open_of id) consume consume-Lasts
          db.challenges));
  }
