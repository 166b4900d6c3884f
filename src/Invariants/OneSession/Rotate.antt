-- ===== src/Invariants/OneSession/Rotate.antt =====
-- A refresh opens no session: it finds the one that its token belongs to.
use mxtng_auth_services.Common.{
  ℕ, ◌≡◌, refl, ◌∙◌, inl, inr, String, Bool, false, Option, none, some, [], ◌∷◌, ◌++◌, arith,
  All-find?, All-append, any, find?, find?-none, update, any-update, Bool-cases, ◌==◌, str_eq, ◌||◌,
}
use mxtng_auth_services.Models.{Db, RefreshToken, Session, Credential}
use mxtng_auth_services.World.{World}
use mxtng_auth_services.Action.{State, ◌>>=◌, ◌>>◌, commit, rollback, raise, on_option, pure}
use mxtng_auth_services.Errors.{AuthError}
use mxtng_auth_services.Security.{new_opaque_token}
use mxtng_auth_services.Tokens.{mint_access_token}
use mxtng_auth_services.Services.Helpers.{audit, get_credential, add_refresh_token, set_session}
use mxtng_auth_services.Services.Sessions.{by_session_id, get_session, revoke_family}
use mxtng_auth_services.Services.Refresh.{
  by_hash, of_family, get_session_by_family, session_id_of, touch, session_for, family_for,
  bind_family, mint_tokens, issue_tokens, refuse_reuse, check_claimed, rotate_refresh,
}
use mxtng_auth_services.Invariants.Keeps.{Keeps}
use mxtng_auth_services.Invariants.Leads.{
  Leads, Reached, Leads-Keeps, Keeps-Leads, Leads-bind, Leads-asks, Leads-now, Leads-query,
  Leads-or_else, Leads-refuse, Leads-raise, Leads-pure, Leads-weaken,
}
use mxtng_auth_services.Invariants.OneSession.Helpers.{helper_rules}
use mxtng_auth_services.Invariants.OneSession.Defs.{
  OneSession, IsBound, HasFamily, OneSession-sessions,
}
use mxtng_auth_services.Invariants.OneSession.Revoke.{Keeps-refuse_reuse, Keeps-claim}

-- The token at hand belongs to a session.
abbrev Held : RefreshToken → Db → Type 0
Held t db = OneSession db × IsBound db.sessions t

-- And that session was found.
abbrev Owned : RefreshToken → Option Session → Db → Type 0
Owned t o db = Held t db × (find? (of_family t.family_id) db.sessions ≡ o)

module _ {w : World} where
  refuse_reuse-raises :
      (t : RefreshToken) (ip : Option String)
      → Leads OneSession (Held t) (λ _ _. ⊥) w (refuse_reuse t ip)
  unfolding refuse_reuse revoke_family audit ◌>>=◌
  refuse_reuse-raises t ip = record { at = λ s hc h. (Keeps-refuse_reuse {w = w} t ip).at s hc h.0 }

  check_claimed-Owned :
      (t : RefreshToken) → Leads OneSession (Held t) (λ x. Owned t x.1) w (check_claimed t)
  unfolding check_claimed get_credential get_session_by_family
  check_claimed-Owned t = Leads-now _ _ λ at. Leads-refuse _ _ _ _ (Leads-raise _ _) λ _.
      Leads-query _ _ _ λ found. Leads-or_else _ _ _ _ (Leads-raise _ _) λ c _.
        Leads-refuse _ _ _ _ (Leads-raise _ _) λ _.
          Leads-query _ _ _
            λ o. Leads-refuse _ _ _ _ (Leads-raise _ _) λ _. Leads-pure _ _ λ db h. (h.0.0, h.1)

abbrev HasFamilyIf : Option Session → Type 0
HasFamilyIf none = Unit
HasFamilyIf (some t) = HasFamily t

found-HasFamilyIf :
    (db : Db) (sid : String) (o : Option Session)
    → OneSession db
    → find? (by_session_id sid) db.sessions ≡ o
    → HasFamilyIf o
found-HasFamilyIf db sid none h e = tt
found-HasFamilyIf db sid (some t) h e =
    (All-find? HasFamily (by_session_id sid) db.sessions t h.families e).1

touch-Held :
    (r : RefreshToken) (id at : ℕ) (db : Db)
    → Held r db
    → Held r (record db { sessions = update (λ c. c.id == id) (touch at) db.sessions })
unfolding touch
touch-Held r id at db h = (
  OneSession-sessions (λ c. c.id == id) (touch at) (λ t. refl) (λ c t e. e) db h.0,
  (
    h.1.0,
    rw (any-update (of_family r.family_id) (λ c. c.id == id) (touch at) db.sessions (λ x. refl))
        h.1.1,
  ),
)

abbrev token_taken : RefreshToken → Db → Bool
token_taken r db = any (λ x. x.id == r.id || str_eq x.token_hash r.token_hash) db.refresh_tokens

-- The next token of a family that has its session.
next-OneSession :
    (r : RefreshToken) (db : Db)
    → Held r db
    → OneSession (record db { refresh_tokens = db.refresh_tokens ++ r ∷ [] })
next-OneSession r db h = record {
  single = h.0.single;
  bound = All-append (IsBound db.sessions) db.refresh_tokens (r ∷ []) h.0.bound (h.1, tt);
  families = h.0.families;
}

module _ (w : World) where
  store_next-OneSession :
      {A : Type 0} (o : Option Session) (r : RefreshToken) (a : A) (s : State)
      → OneSession s.committed
      → Held r s.working
      → HasFamilyIf o
      → Reached OneSession
          (λ _. OneSession)
          ((add_refresh_token r >> (bind_family o r.family_id >> (commit >> pure a))) w s)
  unfolding add_refresh_token bind_family ◌>>=◌
  store_next-OneSession none r a s hc h fam = elim (Bool-cases (token_taken r s.working)) [
    | inl taken ↦ rw taken hc
    | inr unused ↦ rw unused (ground (arith, next-OneSession r s.working h))
  ]
  store_next-OneSession (some t) r a s hc h fam = elim (Bool-cases (token_taken r s.working)) [
    | inl taken ↦ rw taken hc
    | inr unused ↦ rw unused (ground (arith, next-OneSession r s.working h))
  ]

  mint_tokens-OneSession :
      (c : Credential) (audience : String) (r : RefreshToken) (x : Option Session × String)
      → Leads OneSession
          (λ db. Held r db × HasFamilyIf x.0)
          (λ _. OneSession)
          w
          (mint_tokens c audience (some r.family_id) x)
  unfolding mint_tokens mint_access_token new_opaque_token family_for ◌>>=◌
  mint_tokens-OneSession c audience r (o, sid) = record {
    at = λ s hc h. rw h.0.1.0 (store_next-OneSession o _ _ _ hc h.0 h.1);
  }

found-Held :
    (token_hash : String) (r : RefreshToken) (db : Db)
    → OneSession db
    → find? (by_hash token_hash) db.refresh_tokens ≡ some r
    → Held r db
found-Held token_hash r db h e =
    (h, (All-find? (IsBound db.sessions) (by_hash token_hash) db.refresh_tokens r h.bound e).1)

-- The family of a stored token always has a session.
unowned : (r : RefreshToken) (db : Db) → ¬ Owned r none db
unowned r db h = cc (h.0.1.1, find?-none (of_family r.family_id) db.sessions h.1)

module _ {w : World} where
  touching :
      (r : RefreshToken) (sid : String) (at : ℕ) (o : Option Session)
      → Leads OneSession
          (λ db. Held r db × (find? (by_session_id sid) db.sessions ≡ o))
          (λ (x : Option Session × String) db. Held r db × HasFamilyIf x.0)
          w
          (on_option o (pure tt) (λ t. set_session t.id (touch at)) >> pure (o, sid))
  unfolding set_session ◌>>=◌
  touching r sid at none = record { at = λ s hc h. (hc, (h.0, tt)) }
  touching r sid at (some t) = record {
    at = λ s hc h. (
      hc,
      (touch-Held r t.id at s.working h.0, found-HasFamilyIf s.working sid (some t) h.0.0 h.1),
    );
  }

  session_for-Held :
      (c : Credential) (audience : String) (r : RefreshToken) (sid : String) (ip ua : Option String)
      (b : Bool)
      → Leads OneSession
          (Held r)
          (λ (x : Option Session × String) db. Held r db × HasFamilyIf x.0)
          w
          (session_for c audience (some sid) ip ua b)
  unfolding session_for get_session
  session_for-Held c audience r sid ip ua b =
      Leads-query _ _ _ λ o. Leads-now _ _ λ at. touching r sid at o

  issue_next-OneSession :
      (c : Credential) (requested : String) (r : RefreshToken) (o : Option Session)
      (ip ua : Option String) (b : Bool)
      → Leads OneSession
          (Owned r o)
          (λ _. OneSession)
          w
          (issue_tokens c requested (some r.family_id) (session_id_of o) ip ua b)
  unfolding issue_tokens
  issue_next-OneSession c requested r none ip ua b = record {
    at = λ s hc h. absurd (unowned r s.working h);
  }
  issue_next-OneSession c requested r (some t) ip ua b = Leads-asks _ _ _ (
      Leads-bind (Owned r (some t)) (λ x db. Held r db × HasFamilyIf x.0) (λ _. OneSession) _ _
        (record { at = λ s hc h. (session_for-Held c _ r t.session_id ip ua b).at s hc h.0 })
        (λ x. mint_tokens-OneSession w c _ r x))

  commit-Owned :
      (r : RefreshToken) (o : Option Session)
      → Leads OneSession (Owned r o) (λ _. Owned r o) w commit
  unfolding commit
  commit-Owned r o = record { at = λ s hc h. (h.0.0, h) }

  missing-raises :
      (A : Type 0) (Pre : Db → Type 0) (e : AuthError)
      → Leads OneSession Pre (λ (_ : A) _. ⊥) w (rollback >> raise e)
  unfolding ◌>>=◌
  missing-raises A Pre e = record { at = λ s hc h. hc }

  -- Rotation keeps the invariant: a stored token has its session, so no session is opened.
  pub Keeps-rotate_refresh :
      (raw : String) (ip : Option String) → Keeps OneSession w (rotate_refresh raw ip)
  unfolding rotate_refresh
  Keeps-rotate_refresh raw ip = Leads-Keeps (
      Leads-asks _ _ _ (
        Leads-bind OneSession (λ _. OneSession) _ _ _ (Keeps-Leads (Keeps-claim _))
          λ won. Leads-query _ _ _ λ found. Leads-or_else _ _ _ _ (missing-raises _ _ _) λ r e.
            Leads-weaken {Pre' = Held r} (λ db h. found-Held _ r db h.0 (h.1 ∙ e))
              (Leads-refuse _ _ _ _ (refuse_reuse-raises r ip) λ _.
                Leads-bind (Held r) (λ x. Owned r x.1) _ _ _ (check_claimed-Owned r)
                  λ x.
                    Leads-bind (Owned r x.1) (λ _. Owned r x.1) _ _ _ (commit-Owned r x.1)
                      λ _.
                        Leads-bind (Owned r x.1) (λ _. OneSession) _ _ _
                          (issue_next-OneSession x.0 _ r x.1 ip none false)
                          λ tokens. Keeps-Leads (search helper_rules))))
