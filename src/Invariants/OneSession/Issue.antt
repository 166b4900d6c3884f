-- ===== src/Invariants/OneSession/Issue.antt =====
-- Issuing tokens: a sign-in opens the one live session of its account, and a refresh opens none.
use mxtng_auth_services.Common.{
  ℕ, ◌≤◌, ◌≡◌, refl, sym, inl, inr, ◌||◌, String, Bool, true, false, Option, none, some, List, [],
  ◌∷◌, ◌++◌, arith, ◌==◌, str_eq, eq_refl, any, count, select, update, truthy, All-mono, All-append,
  Bool-cases, any-append, count-append, count-update_self,
}
use mxtng_auth_services.Models.{Db, RefreshToken, Session, Credential}
use mxtng_auth_services.World.{World}
use mxtng_auth_services.Action.{State, ok, when, commit, pure, ◌>>=◌, ◌>>◌}
use mxtng_auth_services.Security.{new_opaque_token}
use mxtng_auth_services.Tokens.{mint_access_token}
use mxtng_auth_services.Services.Helpers.{audit, add_session, add_refresh_token, set_session}
use mxtng_auth_services.Services.Sessions.{
  live_of, end_session, revoke_families, supersede_sessions, start_session,
}
use mxtng_auth_services.Services.Sessions.Supersede.{supersede_sessions_lem}
use mxtng_auth_services.Services.Refresh.{
  of_family, session_for, family_for, bind_family, mint_tokens, issue_tokens,
}
use mxtng_auth_services.Invariants.Keeps.{Keeps}
use mxtng_auth_services.Invariants.Leads.{Leads, Leads-Keeps, Reached, Leads-bind, Leads-asks}
use mxtng_auth_services.Invariants.OneSession.Defs.{
  OneSession, OneSession-transport, IsBound, HasFamily,
}
use mxtng_auth_services.Invariants.OneSession.Revoke.{revoke-OneSession}

-- The policy is on, and a UUID is no empty text.
pub record Policy (w : World) : Type 0 where
  pub single : w.settings.single_session_per_credential ≡ true
  pub uuid : (n : ℕ) → truthy (some (w.uuid4 n)) ≡ true

-- A row that is written to right after it was added, by its primary key.
update-new :
    (g : Session → Session) (q : Session → Bool) (t : Session) (xs : List Session)
    → any (λ o. o.id == t.id || q o) xs ≡ false
    → update (λ o. o.id == t.id) g (xs ++ t ∷ []) ≡ xs ++ g t ∷ []
update-new g q t [] h = ground arith
update-new g q t (x ∷ xs) h = ground (arith, update-new g q t xs)

live-count :
    (c c' : ℕ) (t : Session) (xs : List Session)
    → t.credential_id ≡ c
    → count (live_of c) xs ≡ 0
    → count (live_of c') xs ≤ 1
    → count (live_of c') (xs ++ t ∷ []) ≤ 1
live-count c c' t xs e none_live single = ground (arith, count-append (live_of c') xs (t ∷ []))

-- A session with its first refresh token, added where its account has no live session.
opened-OneSession :
    (db : Db) (t : Session) (r : RefreshToken)
    → OneSession db
    → count (live_of t.credential_id) db.sessions ≡ 0
    → truthy (some r.family_id) ≡ true
    → t.family_id ≡ some r.family_id
    → OneSession (record db {
      sessions = db.sessions ++ t ∷ [];
      refresh_tokens = db.refresh_tokens ++ r ∷ [];
    })
opened-OneSession db t r h none_live nonempty same = record {
  single = λ c'. live-count t.credential_id c' t db.sessions refl none_live (h.single c');
  bound =
      All-append (IsBound (db.sessions ++ t ∷ [])) db.refresh_tokens (r ∷ [])
        (All-mono (IsBound db.sessions) (IsBound (db.sessions ++ t ∷ [])) db.refresh_tokens
          (λ x b.
            (b.0, ground (arith, any-append (of_family x.family_id) db.sessions (t ∷ []), b.1)))
          h.bound)
        (
          (
            nonempty,
            rw (any-append (of_family r.family_id) db.sessions (t ∷ []), same, eq_refl r.family_id)
                (ground arith),
          ),
          tt,
        );
  families = All-append HasFamily db.sessions (t ∷ []) h.families (rw same nonempty, tt);
}

-- A session of `c` was added, with no family yet, to sessions of which none of `c` is live.
pub record Opened (c : ℕ) (t : Session) (db : Db) : Type 0 where
  pub before : List Session
  pub added : db.sessions ≡ before ++ t ∷ []
  pub valid : OneSession (record db { sessions = before })
  pub none_live : count (live_of c) before ≡ 0
  pub unused : any (λ o. o.id == t.id || str_eq o.session_id t.session_id) before ≡ false
  pub owner : t.credential_id ≡ c
  pub unbound : t.family_id ≡ none

end_session-not-live :
    (reason : String) (at c : ℕ) (t : Session) → live_of c (end_session reason at t) ≡ false
unfolding end_session
end_session-not-live reason at c t = ground arith

-- No session of `c` is live.
pub record Free (c : ℕ) (db : Db) : Type 0 where
  pub valid : OneSession db
  pub none_live : count (live_of c) db.sessions ≡ 0

freed :
    (c : ℕ) (db db' : Db) (at : ℕ)
    → OneSession db
    → db'.sessions ≡ update (live_of c) (end_session "superseded" at) db.sessions
    → db'.refresh_tokens ≡ revoke_families (select (live_of c) db.sessions) db.refresh_tokens
    → Free c db'
freed c db db' at h es et = record {
  valid =
      OneSession-transport
        (record db {
          sessions = update (live_of c) (end_session "superseded" at) db.sessions;
          refresh_tokens = revoke_families (select (live_of c) db.sessions) db.refresh_tokens;
        })
        db' (sym es) (sym et) (revoke-OneSession c "superseded" at _ db h);
  none_live = rw es (
      count-update_self (live_of c) (end_session "superseded" at) db.sessions
        (end_session-not-live "superseded" at c));
}

module _ (w : World) where
  add_session-Opened :
      (c : ℕ) (t : Session) (event : String) (id : Option ℕ) (email ip detail : Option String)
      (s : State)
      → OneSession s.committed
      → Free c s.working
      → t.credential_id ≡ c
      → t.family_id ≡ none
      → Reached OneSession
          (Opened c)
          ((add_session t >> (audit event id email ip detail >> pure t)) w s)
  unfolding add_session audit ◌>>=◌
  add_session-Opened c t event id email ip detail s hc free owner unbound =
      elim (Bool-cases
        (any (λ o. o.id == t.id || str_eq o.session_id t.session_id) s.working.sessions)) [
          | inl taken ↦ rw taken hc
          | inr unused ↦ rw unused (
            hc,
            record {
              before = s.working.sessions;
              added = refl;
              valid = record {
                single = free.valid.single;
                bound = free.valid.bound;
                families = free.valid.families;
              };
              none_live = free.none_live;
              unused = unused;
              owner = owner;
              unbound = unbound;
            },
          )
        ]

-- What the row count of sessions looks like once the new one has its family.
bound-OneSession :
    (c : ℕ) (t : Session) (r : RefreshToken) (db : Db)
    → Opened c t db
    → truthy (some r.family_id) ≡ true
    → OneSession (record db {
      sessions =
          update (λ o. o.id == t.id) (λ o. record o { family_id = some r.family_id }) db.sessions;
      refresh_tokens = db.refresh_tokens ++ r ∷ [];
    })
bound-OneSession c t r db o nonempty =
    let g : Session → Session = λ x. record x { family_id = some r.family_id } in
    OneSession-transport
      (record db { sessions = o.before ++ g t ∷ []; refresh_tokens = db.refresh_tokens ++ r ∷ [] })
      _
      (rw o.added (sym (update-new g (λ x. str_eq x.session_id t.session_id) t o.before o.unused)))
      refl
      (opened-OneSession (record db { sessions = o.before }) (g t) r o.valid
        (rw o.owner o.none_live) nonempty refl)

-- The session that the tokens are for was opened just now.
abbrev OpenedFor : ℕ → Option Session → Db → Type 0
OpenedFor c none db = ⊥
OpenedFor c (some t) db = Opened c t db

module _ {A : Type 0} (w : World) where
  store_token-OneSession :
      (c : ℕ) (o : Option Session) (r : RefreshToken) (a : A) (s : State)
      → OneSession s.committed
      → OpenedFor c o s.working
      → truthy (some r.family_id) ≡ true
      → Reached OneSession
          (λ _. OneSession)
          ((add_refresh_token r >> (bind_family o r.family_id >> (commit >> pure a))) w s)
  unfolding add_refresh_token bind_family set_session ◌>>=◌
  store_token-OneSession c none r a s hc o nonempty = absurd o
  store_token-OneSession c (some t) r a s hc o nonempty =
      elim (Bool-cases
        (any (λ x. x.id == r.id || str_eq x.token_hash r.token_hash) s.working.refresh_tokens)) [
          | inl taken ↦ rw taken hc
          | inr unused ↦
              rw unused (ground (arith, o.unbound, bound-OneSession c t r s.working o nonempty))
        ]

module _ (w : World) (p : Policy w) where
  superseding :
      (c : ℕ) (ip : Option String) (s s1 : State)
      → supersede_sessions c ip w s ≡ (ok tt, s1)
      → when w.settings.single_session_per_credential (supersede_sessions c ip) w s ≡ (ok tt, s1)
  unfolding when
  superseding c ip s s1 e = ground (arith, p.single)

  start_session-Opened :
      (c : Credential) (audience : String) (ip ua : Option String)
      → Leads OneSession OneSession (Opened c.id) w (start_session c audience ip ua true)
  unfolding start_session add_session audit ◌>>=◌
  start_session-Opened c audience ip ua = record {
    at = λ s hc hw.
        let (s1, e, same, sessions, tokens) = supersede_sessions_lem c.id ip w s in
        rw (superseding c.id ip s s1 e) (
          add_session-Opened w c.id _ "session_started" (some c.id) none ip _ _ (rw same hc)
            (freed c.id s.working s1.working s.now hw sessions tokens) refl refl);
  }

  session_for-Opened :
      (c : Credential) (audience : String) (ip ua : Option String)
      → Leads OneSession OneSession
          (λ x. OpenedFor c.id x.0)
          w
          (session_for c audience none ip ua true)
  unfolding session_for pure
  session_for-Opened c audience ip ua =
      Leads-bind OneSession (Opened c.id) (λ x. OpenedFor c.id x.0) _ _
        (start_session-Opened c audience ip ua) (λ t. record { at = λ s hc h. (hc, h) })

  mint_tokens-OneSession :
      (c : Credential) (audience : String) (x : Option Session × String)
      → Leads OneSession (OpenedFor c.id x.0) (λ _. OneSession) w (mint_tokens c audience none x)
  unfolding mint_tokens mint_access_token new_opaque_token family_for ◌>>=◌
  mint_tokens-OneSession c audience (o, sid) = record {
    at = λ s hc h. store_token-OneSession w c.id o _ _ _ hc h (p.uuid _);
  }

  -- A sign-in keeps the invariant: it opens the one live session of its account.
  pub Keeps-sign_in :
      (c : Credential) (requested : String) (ip ua : Option String)
      → Keeps OneSession w (issue_tokens c requested none none ip ua true)
  unfolding issue_tokens
  Keeps-sign_in c requested ip ua = Leads-Keeps (
      Leads-asks _ _ _ (
        Leads-bind OneSession (λ x. OpenedFor c.id x.0) (λ _. OneSession) _ _
          (session_for-Opened c _ ip ua) (λ x. mint_tokens-OneSession c _ x)))
