-- ===== src/Invariants/Distinct/Rotation.antt =====
-- A refresh token is used once, and a second use burns its family.
use mxtng_auth_services.Common.{
  ℕ, String, ◌≡◌, ◌∙◌, ap, subst, refl, Bool, true, false, not, ◌&&◌, Option, none, some, inl, inr,
  arith, Bool-cases, Option-cases, find?, any, str_eq, find?-update, find?-test, List,
}
use mxtng_auth_services.Models.{Db, RefreshToken, Session, Credential}
use mxtng_auth_services.Errors.{auth, invalid_refresh}
use mxtng_auth_services.World.{World}
use mxtng_auth_services.Action.{Action, State, Result, ok, err, close, commit, pure, ◌>>=◌, ◌>>◌}
use mxtng_auth_services.Action.Inversion.{bind-Returned}
use mxtng_auth_services.Security.{hash_opaque_token}
use mxtng_auth_services.Services.Helpers.{audit}
use mxtng_auth_services.Services.Sessions.{in_family, revoke_token, revoke_family}
use mxtng_auth_services.Services.Refresh.{
  by_hash, claimable, claim, refuse_reuse, rotate_refresh, check_claimed, issue_tokens,
  session_id_of, get_session_by_family,
}
use mxtng_auth_services.Services.Helpers.{get_credential}
use mxtng_auth_services.Invariants.Keeps.{Keeps, Keeps-bind, Keeps-returned, keeps_rules}
use mxtng_auth_services.Invariants.Leads.{
  Leads, Leads-now, Leads-refuse, Leads-raise, Leads-query, Leads-or_else, Leads-pure,
}
use mxtng_auth_services.Invariants.Closed.Tokens.{Keeps-issue_tokens, Keeps-rotate_refresh}
use mxtng_auth_services.Invariants.Distinct.Reachable.{Unique-Steps}
use mxtng_auth_services.Invariants.Steps.Requests.{run-Keeps, run-settled}
use mxtng_auth_services.Invariants.Lasting.Requests.{run-Lasts}
use mxtng_auth_services.Invariants.Distinct.Writes.{Unique-Closed}
use mxtng_auth_services.Api.{Event, run}
use mxtng_auth_services.Invariants.Lasting.Defs.{Lasts, Lasts-refl, TokenLasts}
use mxtng_auth_services.Invariants.Lasting.Rows.{Grows-find?}
use mxtng_auth_services.Invariants.Lasting.Writes.{Lasts-Closed, Keeps-audit}
use mxtng_auth_services.Invariants.Distinct.Keys.{
  Distinct, any-found, any-missing, update-none, any-update_self,
}
use mxtng_auth_services.Invariants.Distinct.Defs.{Unique, token_key}

-- A refresh token of a family that is not revoked.
abbrev pub unrevoked_in : String → RefreshToken → Bool
unrevoked_in family t = in_family family t && not t.revoked

-- The token was rotated or revoked before.
abbrev pub Spent : RefreshToken → Type 0
Spent r = (not r.rotated && not r.revoked) ≡ false

revoked-dead : (f : String) (t : RefreshToken) → unrevoked_in f (revoke_token t) ≡ false
unfolding revoke_token
revoked-dead f t = ground arith

-- What a request with a spent token answers, and what it stores.
pub record ReuseRefused (w : World) (s : State) (raw : String) (ip : Option String)
    (family : String) : Type 0 where
  pub after : State
  pub refused :
      rotate_refresh raw ip w s
      ≡ (err (auth (invalid_refresh "Refresh token reuse detected")), after)
  pub burnt : any (unrevoked_in family) after.committed.refresh_tokens ≡ false

Spent-ReuseRefused :
    (raw : String) (ip : Option String) (w : World) (s : State) (r : RefreshToken)
    → Distinct token_key s.working.refresh_tokens
    → find? (by_hash (hash_opaque_token w raw)) s.working.refresh_tokens ≡ some r
    → Spent r
    → ReuseRefused w s raw ip r.family_id
unfolding rotate_refresh claim refuse_reuse revoke_family audit ◌>>=◌
Spent-ReuseRefused raw ip w s r d found spent =
    let hash = hash_opaque_token w raw in
    let lost =
      any-found token_key hash (λ t. not t.rotated && not t.revoked) s.working.refresh_tokens r d
        found
      ∙ spent in
    let same =
      update-none (claimable hash) (λ t. record t { rotated = true }) s.working.refresh_tokens
        lost in
    record {
      after = (rotate_refresh raw ip w s).1;
      refused = rw (lost, same, found) refl;
      burnt =
          rw (lost, same, found)
            (any-update_self (unrevoked_in r.family_id) (in_family r.family_id) revoke_token
              (revoked-dead r.family_id) (λ x h. ground (arith, h)) s.working.refresh_tokens);
    }

-- A refresh token that was rotated or revoked before, presented again where no transaction is open
-- and the unique columns hold no value twice, as in every state that the service reaches:
-- InvalidRefresh is raised, and no refresh token of its family is left unrevoked among the stored
-- rows.
pub reuse-burns_family :
    (raw : String) (ip : Option String) (w : World) (s : State) (r : RefreshToken)
    → s.working ≡ s.committed
    → Unique s.committed
    → find? (by_hash (hash_opaque_token w raw)) s.committed.refresh_tokens ≡ some r
    → Spent r
    → ReuseRefused w s raw ip r.family_id
reuse-burns_family raw ip w s r settled unique found spent =
    Spent-ReuseRefused raw ip w s r (rw settled unique.tokens) (rw settled found) spent

-- What follows a successful claim, in the order of the source.
abbrev issue_next :
    RefreshToken → Option String → Credential × Option Session → Action (String × ℕ × String)
issue_next r ip x =
    issue_tokens x.0 r.audience (some r.family_id) (session_id_of x.1) ip none false >>= λ tokens.
    audit "refresh_rotated" (some x.0.id) none ip none >> (commit >> pure tokens)

check_claimed-reads :
    (r : RefreshToken) (w : World) (c : Db)
    → Leads (λ _. Unit {0}) (λ db. db ≡ c) (λ _ db. db ≡ c) w (check_claimed r)
unfolding check_claimed get_credential get_session_by_family
check_claimed-reads r w c = Leads-now _ _ λ at. Leads-refuse _ _ _ _ (Leads-raise _ _) λ _.
    Leads-query _ _ _ λ found. Leads-or_else _ _ _ _ (Leads-raise _ _) λ x _.
      Leads-refuse _ _ _ _ (Leads-raise _ _) λ _.
        Leads-query _ _ _
          λ o. Leads-refuse _ _ _ _ (Leads-raise _ _) λ _. Leads-pure _ _ λ db h. h.0.0

issue_next-Keeps :
    (r : RefreshToken) (ip : Option String) (x : Credential × Option Session) (c : Db) (w : World)
    → Keeps (Lasts c) w (issue_next r ip x)
issue_next-Keeps r ip x c w =
    Keeps-bind _ _ (Keeps-issue_tokens Lasts-Closed _ _ _ _ _ _ _)
      λ tokens. search (keeps_rules, Keeps-audit) depth 8

after_commit :
    {A : Type 0} (m : Action A) (w : World) (s : State) (r : Result A × State)
    → (commit >> m) w s ≡ r
    → m w (record s { committed = s.working }) ≡ r
unfolding ◌>>=◌
after_commit m w s r h = h

issued-Lasts :
    (r : RefreshToken) (ip : Option String) (x : Credential × Option Session) (w : World)
    (s s' : State) (tokens : String × ℕ × String)
    → issue_next r ip x w (record s { committed = s.working }) ≡ (ok tokens, s')
    → Lasts s.working s'.committed
issued-Lasts r ip x w s s' tokens h =
    let same = Lasts-refl s.working in
    (Keeps-returned _ (record s { committed = s.working }) s' tokens
      (issue_next-Keeps r ip x s.working w) h same same).0

claimed-Lasts :
    (r : RefreshToken) (ip : Option String) (w : World) (s s' : State)
    (tokens : String × ℕ × String)
    → (check_claimed r >>= λ x. commit >> issue_next r ip x) w s ≡ (ok tokens, s')
    → Lasts s.working s'.committed
claimed-Lasts r ip w s s' tokens h =
    let t = bind-Returned (check_claimed r) (λ x. commit >> issue_next r ip x) w s tokens s' h in
    let reached = (check_claimed-reads r w s.working).at s tt refl in
    let kept = rw t.first at reached in
    subst (λ db. Lasts db s'.committed) kept.1
      (issued-Lasts r ip t.value w t.between s' tokens
        (after_commit (issue_next r ip t.value) w t.between _ t.second))

-- The token of a request that was answered with tokens is stored as rotated.
rotated-stored :
    (raw : String) (ip : Option String) (w : World) (s s' : State) (tokens : String × ℕ × String)
    → Distinct token_key s.working.refresh_tokens
    → rotate_refresh raw ip w s ≡ (ok tokens, s')
    → (x r : RefreshToken) × (find? (by_hash (hash_opaque_token w raw)) s.working.refresh_tokens
        ≡ some x)
      × (find? (by_hash (hash_opaque_token w raw)) s'.committed.refresh_tokens ≡ some r)
      × (r.rotated ≡ true)
      × (r.family_id ≡ x.family_id)
unfolding rotate_refresh claim ◌>>=◌
rotated-stored raw ip w s s' tokens d h =
    let hash = hash_opaque_token w raw in
    elim (Option-cases (find? (by_hash hash) s.working.refresh_tokens)) [
      | inl e ↦
          let lost =
            any-missing token_key hash (λ t. not t.rotated && not t.revoked)
              s.working.refresh_tokens e in
          let same =
            update-none (claimable hash) (λ t. record t { rotated = true }) s.working.refresh_tokens
              lost in
          let bad = rw (lost, same, e) at h in ground arith
      | inr (x, e) ↦ elim (Bool-cases (not x.rotated && not x.revoked)) [
        | inl fresh ↦
            let found =
              find?-update (by_hash hash) (claimable hash) (λ t. record t { rotated = true })
                s.working.refresh_tokens x (λ y. refl) e
                (rw (find?-test (by_hash hash) s.working.refresh_tokens x e, fresh) refl) in
            let won =
              any-found token_key hash (λ t. not t.rotated && not t.revoked)
                s.working.refresh_tokens x d e
              ∙ fresh in
            let claimed = claimed-Lasts _ ip w _ s' tokens (rw (won, found) at h) in
            let (u, stored, lasts) =
              Grows-find? TokenLasts (by_hash hash) (λ x y r. ap (λ k. str_eq k hash) r.token_hash)
                _ s'.committed.refresh_tokens _ claimed.refresh_tokens found in
            (x, u, e, stored, lasts.rotated refl, lasts.family)
        | inr spent ↦ let refused = (Spent-ReuseRefused raw ip w s x d e spent).refused in cc
      ]
    ]

-- A refresh token buys one rotation: after it was answered with new tokens, where no transaction
-- was open and the unique columns held no value twice, and whatever requests follow, presenting it
-- again raises InvalidRefresh, and no refresh token is left unrevoked among the stored rows of the
-- family that the token was stored with before the rotation.
pub refresh-rotates_once :
    (raw : String) (ip ip' : Option String) (w : World) (s s' : State)
    (tokens : String × ℕ × String) (es : List Event)
    → s.working ≡ s.committed
    → Unique s.committed
    → rotate_refresh raw ip w s ≡ (ok tokens, s')
    → (r : RefreshToken) × (find? (by_hash (hash_opaque_token w raw)) s.committed.refresh_tokens
        ≡ some r)
      × ReuseRefused w (run w (close s') es) raw ip' r.family_id
refresh-rotates_once raw ip ip' w s s' tokens es settled unique h =
    let kept =
      (Keeps-returned (rotate_refresh raw ip) s s' tokens
        (Keeps-rotate_refresh Unique-Closed raw ip) h unique (rw settled unique)).0 in
    let (x, r, held, stored, rotated, family) =
      rotated-stored raw ip w s s' tokens (rw settled unique.tokens) h in
    let (u, found, lasts) =
      Grows-find? TokenLasts (by_hash (hash_opaque_token w raw))
        (λ x y k. ap (λ v. str_eq v (hash_opaque_token w raw)) k.token_hash)
        s'.committed.refresh_tokens _ r (run-Lasts w (close s') es refl).refresh_tokens stored in
    let later = run-settled w (close s') es refl in
    (
      x,
      rw (← settled) held,
      rw (← family, ← lasts.family)
          (Spent-ReuseRefused raw ip' w (run w (close s') es) u
            (rw later (run-Keeps {P = Unique} w Unique-Steps (close s') es kept refl).tokens)
            (rw later found) (rw (lasts.rotated rotated) refl)),
    )
