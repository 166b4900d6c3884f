-- ===== src/Invariants/OneSession/Revoke.antt =====
-- Revocation and logout only end sessions and refresh tokens.
use mxtng_auth_services.Common.{
  ℕ, String, inl, inr, Bool-cases, ◌==◌, ◌≡◌, refl, Bool, true, Option, none, some, List, [], ◌∷◌,
  arith, truthy, update,
}
use mxtng_auth_services.Models.{Db, RefreshToken, Session}
use mxtng_auth_services.World.{World}
use mxtng_auth_services.Action.{modify}
use mxtng_auth_services.Services.Helpers.{set_session}
use mxtng_auth_services.Services.Sessions.{
  live_of, revoke_token, in_family, revoke_family, end_session, revoke_behind, revoke_families,
  revoke_sessions_for_credential, audit_superseded, supersede_sessions,
}
use mxtng_auth_services.Services.Refresh.{
  claimable, get_session_by_family, claim, refuse_reuse, logout_session, logout_token,
  revoke_by_raw, revoke_all_for_credential, revoke_all_by_raw,
}
use mxtng_auth_services.Invariants.Keeps.{Keeps, Keeps-modify, Keeps-bind, keeps_rules}
use mxtng_auth_services.Invariants.OneSession.Defs.{
  OneSession, OneSession-tokens, OneSession-sessions,
}
use mxtng_auth_services.Invariants.OneSession.Helpers.{helper_rules}

revoke_behind-OneSession :
    (f : Option String) (db : Db)
    → OneSession db
    → OneSession (record db { refresh_tokens = revoke_behind f db.refresh_tokens })
unfolding revoke_behind
revoke_behind-OneSession none db h = record {
  single = h.single;
  bound = h.bound;
  families = h.families;
}
revoke_behind-OneSession (some f) db h = elim (Bool-cases (truthy (some f))) [
  | inl e ↦
      rw e (OneSession-tokens (in_family f) revoke_token (λ t. unfold revoke_token in refl) db h)
  | inr e ↦ rw e (record { single = h.single; bound = h.bound; families = h.families })
]

revoke_families-OneSession :
    (ts : List Session) (db : Db)
    → OneSession db
    → OneSession (record db { refresh_tokens = revoke_families ts db.refresh_tokens })
unfolding revoke_families
revoke_families-OneSession [] db h = record {
  single = h.single;
  bound = h.bound;
  families = h.families;
}
revoke_families-OneSession (t ∷ ts) db h =
    revoke_families-OneSession ts
      (record db { refresh_tokens = revoke_behind t.family_id db.refresh_tokens })
      (revoke_behind-OneSession t.family_id db h)

end_session-dead :
    (reason : String) (at c : ℕ) (t : Session)
    → live_of c (end_session reason at t) ≡ true
    → live_of c t ≡ true
unfolding end_session
end_session-dead reason at c t h = ground arith

pub revoke-OneSession :
    (c : ℕ) (reason : String) (at : ℕ) (ts : List Session) (db : Db)
    → OneSession db
    → OneSession (record db {
      sessions = update (live_of c) (end_session reason at) db.sessions;
      refresh_tokens = revoke_families ts db.refresh_tokens;
    })
unfolding end_session
revoke-OneSession c reason at ts db h =
    OneSession-sessions (live_of c) (end_session reason at) (λ t. refl)
      (λ c' t. end_session-dead reason at c' t)
      (record db { refresh_tokens = revoke_families ts db.refresh_tokens })
      (revoke_families-OneSession ts db h)

module _ {w : World} where
  pub Keeps-revoke_family : (f : String) → Keeps OneSession w (revoke_family f)
  unfolding revoke_family revoke_token
  Keeps-revoke_family f = Keeps-modify _ (OneSession-tokens (in_family f) revoke_token (λ t. refl))

  revoke_step-Keeps :
      (c : ℕ) (reason : String) (at : ℕ) (ts : List Session)
      → Keeps OneSession w (
          modify (λ db. record db {
            sessions = update (live_of c) (end_session reason at) db.sessions;
            refresh_tokens = revoke_families ts db.refresh_tokens;
          }))
  revoke_step-Keeps c reason at ts = Keeps-modify _ (revoke-OneSession c reason at ts)

  pub Keeps-revoke_sessions :
      (c : ℕ) (reason : String) → Keeps OneSession w (revoke_sessions_for_credential c reason)
  unfolding revoke_sessions_for_credential
  Keeps-revoke_sessions c reason = search (keeps_rules, revoke_step-Keeps)

  end_step-Keeps :
      (id : ℕ) (reason : String) (at : ℕ)
      → Keeps OneSession w (set_session id (end_session reason at))
  unfolding set_session end_session
  end_step-Keeps id reason at = Keeps-modify _ (
      OneSession-sessions (λ c. c.id == id) (end_session reason at) (λ t. refl)
        (λ c t. end_session-dead reason at c t))

  logout_session-Keeps : (o : Option Session) → Keeps OneSession w (logout_session o)
  unfolding logout_session
  logout_session-Keeps none = search keeps_rules
  logout_session-Keeps (some t) = search (keeps_rules, end_step-Keeps)

  get_session_by_family-Keeps : (f : String) → Keeps OneSession w (get_session_by_family f)
  unfolding get_session_by_family
  get_session_by_family-Keeps f = search keeps_rules

  logout_token-Keeps : (t : RefreshToken) → Keeps OneSession w (logout_token t)
  unfolding logout_token
  logout_token-Keeps t =
      search (helper_rules, Keeps-revoke_family, get_session_by_family-Keeps, logout_session-Keeps)

  -- Logout keeps the invariant.
  pub Keeps-revoke_by_raw : (raw : String) → Keeps OneSession w (revoke_by_raw raw)
  unfolding revoke_by_raw
  Keeps-revoke_by_raw raw = search (helper_rules, logout_token-Keeps)

  revoke_tokens-Keeps :
      (p : RefreshToken → Bool)
      → Keeps OneSession w
          (modify (λ db. record db { refresh_tokens = update p revoke_token db.refresh_tokens }))
  unfolding revoke_token
  revoke_tokens-Keeps p = Keeps-modify _ (OneSession-tokens p revoke_token (λ t. refl))

  pub Keeps-revoke_all :
      (c : ℕ) (reason : String) → Keeps OneSession w (revoke_all_for_credential c reason)
  unfolding revoke_all_for_credential
  Keeps-revoke_all c reason = search (helper_rules, revoke_tokens-Keeps, Keeps-revoke_sessions)

  pub Keeps-revoke_all_by_raw : (raw : String) → Keeps OneSession w (revoke_all_by_raw raw)
  unfolding revoke_all_by_raw
  Keeps-revoke_all_by_raw raw = search (helper_rules, Keeps-revoke_all) depth 9

  pub Keeps-refuse_reuse :
      (t : RefreshToken) (ip : Option String) → Keeps OneSession w (refuse_reuse t ip)
  unfolding refuse_reuse
  Keeps-refuse_reuse t ip = search (helper_rules, Keeps-revoke_family)

  claim_step-Keeps :
      (token_hash : String)
      → Keeps OneSession w (
          modify (λ db. record db {
            refresh_tokens =
                update (claimable token_hash) (λ t. record t { rotated = true }) db.refresh_tokens;
          }))
  claim_step-Keeps token_hash =
      Keeps-modify _
        (OneSession-tokens (claimable token_hash) (λ t. record t { rotated = true }) (λ t. refl))

  pub Keeps-claim : (token_hash : String) → Keeps OneSession w (claim token_hash)
  unfolding claim
  Keeps-claim token_hash = search (keeps_rules, claim_step-Keeps)

  audit_superseded-Keeps :
      (c : ℕ) (ip : Option String) (ts : List Session)
      → Keeps OneSession w (audit_superseded c ip ts)
  unfolding audit_superseded
  audit_superseded-Keeps c ip [] = search keeps_rules
  audit_superseded-Keeps c ip (t ∷ ts) =
      Keeps-bind _ (λ _. audit_superseded c ip ts) (search helper_rules)
        (λ _. audit_superseded-Keeps c ip ts)

  pub Keeps-supersede : (c : ℕ) (ip : Option String) → Keeps OneSession w (supersede_sessions c ip)
  unfolding supersede_sessions
  Keeps-supersede c ip = search (keeps_rules, Keeps-revoke_sessions, audit_superseded-Keeps)
