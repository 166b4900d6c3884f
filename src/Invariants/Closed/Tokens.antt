-- ===== src/Invariants/Closed/Tokens.antt =====
-- Sessions and refresh tokens: their issue, rotation and revocation keep such an invariant.
use mxtng_auth_services.Common.{ℕ, String, Bool, Option, none, some, List, [], ◌∷◌, update}
use mxtng_auth_services.Models.{Db, Credential, RefreshToken, Session}
use mxtng_auth_services.World.{World}
use mxtng_auth_services.Action.{modify}
use mxtng_auth_services.Text.{concat}
use mxtng_auth_services.Tokens.{mint_access_token}
use mxtng_auth_services.Services.Helpers.{audit}
use mxtng_auth_services.Services.Sessions.{
  in_family, revoke_token, revoke_family, revoke_sessions_for_credential, audit_superseded,
  supersede_sessions, start_session, get_session,
}
use mxtng_auth_services.Services.Refresh.{
  session_for, family_for, bind_family, mint_tokens, issue_tokens, get_session_by_family, claimable,
  claim, refuse_reuse, check_claimed, rotate_refresh, logout_session, logout_token, revoke_by_raw,
  revoke_all_for_credential, revoke_all_by_raw,
}
use mxtng_auth_services.Invariants.Keeps.{Keeps, Keeps-bind, keeps_rules}
use mxtng_auth_services.Invariants.Lasting.Assignments.{
  assignment_rules, revoke_token-Lasts, rotated-Lasts,
}
use mxtng_auth_services.Invariants.Closed.{
  Closed, closed_rules, audit-Keeps, update_tokens-Keeps, revoked-Keeps,
}

ruleset token_rules = (closed_rules, assignment_rules)

module _ {P : Db → Type 0} {w : World} (k : Closed P w) where
  revoke_sessions-Keeps :
      (id : ℕ) (reason : String) → Keeps P w (revoke_sessions_for_credential id reason)
  unfolding revoke_sessions_for_credential
  revoke_sessions-Keeps id reason = Keeps-bind _ _ (search keeps_rules) λ revoked.
      Keeps-bind _ _ (search keeps_rules)
        λ at. Keeps-bind _ _ (revoked-Keeps k id reason at revoked) λ _. search keeps_rules

  audit_superseded-Keeps :
      (id : ℕ) (ip : Option String) (ss : List Session) → Keeps P w (audit_superseded id ip ss)
  unfolding audit_superseded
  audit_superseded-Keeps id ip [] = search keeps_rules
  audit_superseded-Keeps id ip (s ∷ ss) =
      Keeps-bind
        (audit "session_superseded" (some id) none ip
          (some (concat ("session=" ∷ s.session_id ∷ []))))
        (λ _. audit_superseded id ip ss) (audit-Keeps k _ _ _ _ _)
        (λ _. audit_superseded-Keeps id ip ss)

  supersede-Keeps : (id : ℕ) (ip : Option String) → Keeps P w (supersede_sessions id ip)
  unfolding supersede_sessions
  supersede-Keeps id ip = search (keeps_rules, revoke_sessions-Keeps, audit_superseded-Keeps)

  start_session-Keeps :
      (x : Credential) (audience : String) (ip ua : Option String) (b : Bool)
      → Keeps P w (start_session x audience ip ua b)
  unfolding start_session
  start_session-Keeps x audience ip ua b = search (token_rules, supersede-Keeps) depth 12

  get_session-Keeps : (id : String) → Keeps P w (get_session id)
  unfolding get_session
  get_session-Keeps id = search keeps_rules

  session_for-Keeps :
      (x : Credential) (audience : String) (o ip ua : Option String) (b : Bool)
      → Keeps P w (session_for x audience o ip ua b)
  unfolding session_for
  session_for-Keeps x audience none ip ua b = search (token_rules, start_session-Keeps)
  session_for-Keeps x audience (some id) ip ua b = search (token_rules, get_session-Keeps) depth 9

  family_for-Keeps : (o : Option String) → Keeps P w (family_for o)
  unfolding family_for
  family_for-Keeps none = search keeps_rules
  family_for-Keeps (some f) = search keeps_rules

  bind_family-Keeps : (o : Option Session) (f : String) → Keeps P w (bind_family o f)
  unfolding bind_family
  bind_family-Keeps none f = search keeps_rules
  bind_family-Keeps (some t) f = search token_rules

  mint_access_token-Keeps :
      (id email audience : String) (sid : Option String)
      → Keeps P w (mint_access_token id email audience sid)
  unfolding mint_access_token
  mint_access_token-Keeps id email audience sid = search keeps_rules

  mint_tokens-Keeps :
      (x : Credential) (audience : String) (f : Option String) (o : Option Session × String)
      → Keeps P w (mint_tokens x audience f o)
  unfolding mint_tokens
  mint_tokens-Keeps x audience f (o, sid) =
      search (token_rules, family_for-Keeps, bind_family-Keeps, mint_access_token-Keeps) depth 14

  pub Keeps-issue_tokens :
      (x : Credential) (requested : String) (f sid ip ua : Option String) (b : Bool)
      → Keeps P w (issue_tokens x requested f sid ip ua b)
  unfolding issue_tokens
  Keeps-issue_tokens x requested f sid ip ua b =
      search (token_rules, session_for-Keeps, mint_tokens-Keeps) depth 8

  revoke_family-Keeps : (f : String) → Keeps P w (revoke_family f)
  unfolding revoke_family
  revoke_family-Keeps f = update_tokens-Keeps k (in_family f) revoke_token revoke_token-Lasts

  get_session_by_family-Keeps : (f : String) → Keeps P w (get_session_by_family f)
  unfolding get_session_by_family
  get_session_by_family-Keeps f = search keeps_rules

  claim-Keeps : (hash : String) → Keeps P w (claim hash)
  unfolding claim
  claim-Keeps hash = Keeps-bind _ _ (search keeps_rules) λ won.
      Keeps-bind _ _ (update_tokens-Keeps k (claimable hash) _ rotated-Lasts)
        λ _. search keeps_rules

  refuse_reuse-Keeps : (t : RefreshToken) (ip : Option String) → Keeps P w (refuse_reuse t ip)
  unfolding refuse_reuse
  refuse_reuse-Keeps t ip = search (token_rules, revoke_family-Keeps) depth 8

  check_claimed-Keeps : (t : RefreshToken) → Keeps P w (check_claimed t)
  unfolding check_claimed
  check_claimed-Keeps t = search (token_rules, get_session_by_family-Keeps) depth 12

  pub Keeps-rotate_refresh : (raw : String) (ip : Option String) → Keeps P w (rotate_refresh raw ip)
  unfolding rotate_refresh
  Keeps-rotate_refresh raw ip =
      search (token_rules, claim-Keeps, refuse_reuse-Keeps, check_claimed-Keeps, Keeps-issue_tokens)
        depth 14

  logout_session-Keeps : (o : Option Session) → Keeps P w (logout_session o)
  unfolding logout_session
  logout_session-Keeps none = search keeps_rules
  logout_session-Keeps (some t) = search token_rules

  logout_token-Keeps : (t : RefreshToken) → Keeps P w (logout_token t)
  unfolding logout_token
  logout_token-Keeps t =
      search (token_rules, revoke_family-Keeps, get_session_by_family-Keeps, logout_session-Keeps)
        depth 9

  pub Keeps-revoke_by_raw : (raw : String) → Keeps P w (revoke_by_raw raw)
  unfolding revoke_by_raw
  Keeps-revoke_by_raw raw = search (token_rules, logout_token-Keeps)

  revoke_tokens-Keeps :
      (p : RefreshToken → Bool)
      → Keeps P w
          (modify (λ db. record db { refresh_tokens = update p revoke_token db.refresh_tokens }))
  revoke_tokens-Keeps p = update_tokens-Keeps k p revoke_token revoke_token-Lasts

  pub Keeps-revoke_all :
      (id : ℕ) (reason : String) → Keeps P w (revoke_all_for_credential id reason)
  unfolding revoke_all_for_credential
  Keeps-revoke_all id reason =
      search (token_rules, revoke_tokens-Keeps, revoke_sessions-Keeps) depth 8

  pub Keeps-revoke_all_by_raw : (raw : String) → Keeps P w (revoke_all_by_raw raw)
  unfolding revoke_all_by_raw
  Keeps-revoke_all_by_raw raw = search (token_rules, Keeps-revoke_all) depth 8
