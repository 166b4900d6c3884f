-- ===== src/Services/Sessions/Supersede.antt =====
-- What the one-session policy does to the two tables before a new session is added.
use mxtng_auth_services.Common.{
  ℕ, String, ◌≡◌, refl, Option, none, some, List, [], ◌∷◌, select, update,
}
use mxtng_auth_services.Text.{concat}
use mxtng_auth_services.Models.{Session}
use mxtng_auth_services.World.{World}
use mxtng_auth_services.Action.{State, ok, ◌>>=◌}
use mxtng_auth_services.Services.Helpers.{audit}
use mxtng_auth_services.Services.Sessions.{
  live_of, end_session, revoke_families, revoke_sessions_for_credential, audit_superseded,
  supersede_sessions,
}

-- Only the audit trail and the draws differ.
pub record SameTables (s s' : State) : Type 0 where
  pub committed : s'.committed ≡ s.committed
  pub sessions : s'.working.sessions ≡ s.working.sessions
  pub tokens : s'.working.refresh_tokens ≡ s.working.refresh_tokens
  pub now : s'.now ≡ s.now

audit_superseded_lem :
    (c : ℕ) (ip : Option String) (ts : List Session) (w : World) (s : State)
    → (s' : State) × (audit_superseded c ip ts w s ≡ (ok tt, s')) × SameTables s s'
unfolding audit_superseded audit ◌>>=◌
audit_superseded_lem c ip [] w s =
    (s, refl, record { committed = refl; sessions = refl; tokens = refl; now = refl })
audit_superseded_lem c ip (t ∷ ts) w s =
    let s1 =
      (audit "session_superseded" (some c) none ip (some (concat ("session=" ∷ t.session_id ∷ [])))
        w s).1 in
    let (s2, e, same) = audit_superseded_lem c ip ts w s1 in
    (
      s2,
      e,
      record {
        committed = same.committed;
        sessions = same.sessions;
        tokens = same.tokens;
        now = same.now;
      },
    )

pub supersede_sessions_lem :
    (c : ℕ) (ip : Option String) (w : World) (s : State)
    → (s' : State) × (supersede_sessions c ip w s ≡ (ok tt, s'))
      × (s'.committed ≡ s.committed)
      × (s'.working.sessions
          ≡ update (live_of c) (end_session "superseded" s.now) s.working.sessions)
      × (s'.working.refresh_tokens
          ≡ revoke_families (select (live_of c) s.working.sessions) s.working.refresh_tokens)
unfolding supersede_sessions revoke_sessions_for_credential ◌>>=◌
supersede_sessions_lem c ip w s =
    let (r, s1) = revoke_sessions_for_credential c "superseded" w s in
    let (s2, e, same) = audit_superseded_lem c ip (select (live_of c) s.working.sessions) w s1 in
    (s2, e, same.committed, same.sessions, same.tokens)
