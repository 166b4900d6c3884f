-- ===== src/Invariants/Distinct/States.antt =====
-- The `state` of Sign-in-with-Google is consumed once.
use mxtng_auth_services.Common.{
  String, ◌≡◌, ◌∙◌, ap, sym, refl, true, false, not, ◌&&◌, Option, some, List, inl, inr, arith,
  Bool-cases, Option-cases, find?, find?-test, find?-update, any, update, str_eq, ltb,
}
use mxtng_auth_services.Models.{Db, OAuthState, Datetime}
use mxtng_auth_services.Errors.{auth, invalid_oauth_state}
use mxtng_auth_services.World.{World}
use mxtng_auth_services.Action.{State, ok, err, close, ◌>>=◌}
use mxtng_auth_services.Security.{hash_opaque_token}
use mxtng_auth_services.Services.Helpers.{audit}
use mxtng_auth_services.Services.OAuth.{
  is_open, burn, burn_open, burn_state, refuse_missing_state, consume_oauth_state,
}
use mxtng_auth_services.Invariants.Keeps.{Keeps-returned}
use mxtng_auth_services.Invariants.Steps.Requests.{
  consume_oauth_state-Keeps, run-Keeps, run-settled,
}
use mxtng_auth_services.Invariants.Lasting.Rows.{Grows-find?}
use mxtng_auth_services.Invariants.Lasting.Defs.{StateLasts}
use mxtng_auth_services.Invariants.Lasting.Requests.{run-Lasts}
use mxtng_auth_services.Invariants.Distinct.Keys.{has, Distinct, any-found, any-missing}
use mxtng_auth_services.Invariants.Distinct.Defs.{Unique, state_key}
use mxtng_auth_services.Invariants.Distinct.Reachable.{
  Unique-Steps, Reachable, Reachable-Unique, Reachable-settled,
}
use mxtng_auth_services.Api.{Event, run}

-- The row of a state that was consumed.
pub record Consumed (hash : String) (db : Db) : Type 0 where
  pub row : OAuthState
  pub stored : find? (has state_key hash) db.oauth_states ≡ some row
  pub consumed : row.consumed ≡ true

-- A state that no open row has is refused.
not_open-raises :
    (state : String) (ip : Option String) (w : World) (s : State)
    → any (is_open (hash_opaque_token w state) s.now) s.working.oauth_states ≡ false
    → (burn_state state ip w s).0
      ≡ err (auth (invalid_oauth_state "Invalid or expired OAuth state"))
unfolding burn_state burn_open audit ◌>>=◌
not_open-raises state ip w s e = rw e refl

raised :
    (state : String) (ip : Option String) (w : World) (s s' : State)
    → (burn_state state ip w s).0
      ≡ err (auth (invalid_oauth_state "Invalid or expired OAuth state"))
    → ¬ (burn_state state ip w s ≡ (ok tt, s'))
raised state ip w s s' e h = let bad = sym e ∙ ap (λ x. x.0) h in cc

burn_state-open :
    (state : String) (ip : Option String) (w : World) (s s' : State)
    → burn_state state ip w s ≡ (ok tt, s')
    → (any (is_open (hash_opaque_token w state) s.now) s.working.oauth_states ≡ true)
      × (s'.committed.oauth_states
          ≡ update (is_open (hash_opaque_token w state) s.now) burn s.working.oauth_states)
unfolding burn_state burn_open audit ◌>>=◌
burn_state-open state ip w s s' h =
    elim (Bool-cases (any (is_open (hash_opaque_token w state) s.now) s.working.oauth_states)) [
      | inl e ↦ (e, ap (λ (t : State). t.committed.oauth_states) (sym (ap (λ x. x.1) (rw e at h))))
      | inr e ↦ absurd (raised state ip w s s' (not_open-raises state ip w s e) h)
    ]

burnt-Consumed :
    (hash : String) (at : Datetime) (db db' : Db)
    → Distinct state_key db.oauth_states
    → any (is_open hash at) db.oauth_states ≡ true
    → db'.oauth_states ≡ update (is_open hash at) burn db.oauth_states
    → Consumed hash db'
unfolding burn
burnt-Consumed hash at db db' d found same =
    elim (Option-cases (find? (has state_key hash) db.oauth_states)) [
      | inl e ↦ absurd (
          ground (
            arith,
            any-missing state_key hash (λ t. not t.consumed && ltb at t.expires_at) db.oauth_states
                e,
          ))
      | inr (r, e) ↦
          let fresh =
            sym (
              any-found state_key hash (λ t. not t.consumed && ltb at t.expires_at) db.oauth_states
                r d e)
            ∙ found in
          record {
            row = burn r;
            stored = rw same (
                find?-update (has state_key hash) (is_open hash at) burn db.oauth_states r
                  (λ y. refl) e
                  (rw (find?-test (has state_key hash) db.oauth_states r e, fresh) refl));
            consumed = refl;
          }
    ]

Consumed-not_open :
    (hash : String) (at : Datetime) (db : Db)
    → Distinct state_key db.oauth_states
    → Consumed hash db
    → any (is_open hash at) db.oauth_states ≡ false
Consumed-not_open hash at db d c =
    any-found state_key hash (λ t. not t.consumed && ltb at t.expires_at) db.oauth_states c.row d
      c.stored
    ∙ rw c.consumed refl

later-Consumed :
    (hash : String) (w : World) (s : State) (es : List Event)
    → s.working ≡ s.committed
    → Consumed hash s.committed
    → Consumed hash (run w s es).committed
later-Consumed hash w s es settled c =
    let (u, found, lasts) =
      Grows-find? StateLasts (has state_key hash) (λ x y r. ap (λ k. str_eq k hash) r.state_hash)
        s.committed.oauth_states (run w s es).committed.oauth_states c.row
        (run-Lasts w s es settled).oauth_states c.stored in
    record { row = u; stored = found; consumed = lasts.consumed c.consumed }

-- A state of Sign-in-with-Google is used once: after `consume_oauth_state` accepted it in a state
-- that the service reaches, and whatever requests follow, consuming it again raises
-- InvalidOAuthState.
pub oauth_state-single_use :
    (state : String) (ip ip' : Option String) (w : World) (s s' : State) (es : List Event)
    → Reachable w s
    → consume_oauth_state (some state) ip w s ≡ (ok tt, s')
    → (consume_oauth_state (some state) ip' w (run w (close s') es)).0
      ≡ err (auth (invalid_oauth_state "Invalid or expired OAuth state"))
unfolding consume_oauth_state refuse_missing_state audit ◌>>=◌
oauth_state-single_use state ip ip' w s s' es reachable h =
    let settled = Reachable-settled w s reachable in
    let unique = Reachable-Unique w s reachable in
    let hash = hash_opaque_token w state in
    elim (Bool-cases (not (str_eq state ""))) [
      | inl e ↦
          let burnt = burn_state-open state ip w s s' (rw e at h) in
          let kept =
            (Keeps-returned (consume_oauth_state (some state) ip) s s' tt
              (consume_oauth_state-Keeps Unique-Steps (some state) ip) h unique
              (rw settled unique)).0 in
          let c =
            burnt-Consumed hash s.now s.working s'.committed (rw settled unique.states) burnt.0
              burnt.1 in
          let late = run-Keeps {P = Unique} w Unique-Steps (close s') es kept refl in
          let settled' = run-settled w (close s') es refl in
          let gone =
            Consumed-not_open hash (run w (close s') es).now (run w (close s') es).committed
              late.states (later-Consumed hash w (close s') es refl c) in
          rw e (not_open-raises state ip' w (run w (close s') es) (rw settled' gone))
      | inr e ↦ let bad = ap (λ x. x.0) (rw e at h) in cc
    ]
