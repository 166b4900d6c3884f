-- ===== src/Invariants/OneSession/Defs.antt =====
-- The invariant behind the one-session policy, and how updates of the two tables keep it.
use mxtng_auth_services.Common.{
  ℕ, ◌≤◌, ◌≡◌, refl, Bool, true, false, Option, none, some, List, [], ◌∷◌, ◌++◌, arith, All, any,
  count, update, truthy, All-mono, All-update, any-update, count-update, count-update-le,
}
use mxtng_auth_services.World.{World}
use mxtng_auth_services.Action.{modify}
use mxtng_auth_services.Invariants.Keeps.{Keeps, Keeps-modify, keeps_rules}
use mxtng_auth_services.Models.{Db, RefreshToken, Session}
use mxtng_auth_services.Services.Sessions.{live_of}
use mxtng_auth_services.Services.Refresh.{of_family}

-- A token names a family that some session carries.
abbrev pub IsBound : List Session → RefreshToken → Type 0
IsBound sessions t =
    (truthy (some t.family_id) ≡ true) × (any (of_family t.family_id) sessions ≡ true)

abbrev pub HasFamily : Session → Type 0
HasFamily t = truthy t.family_id ≡ true

-- A credential has one live session at most, a session has a refresh family, and a refresh token
-- belongs to the family of a session.
pub record OneSession (db : Db) : Type 0 where
  pub single : (c : ℕ) → count (live_of c) db.sessions ≤ 1
  pub bound : All (IsBound db.sessions) db.refresh_tokens
  pub families : All HasFamily db.sessions

-- An update of the tokens that keeps their families.
pub OneSession-tokens :
    (p : RefreshToken → Bool) (f : RefreshToken → RefreshToken)
    → ((t : RefreshToken) → (f t).family_id ≡ t.family_id)
    → (db : Db) → OneSession db
    → OneSession (record db { refresh_tokens = update p f db.refresh_tokens })
OneSession-tokens p f same db h = record {
  single = h.single;
  bound = All-update (IsBound db.sessions) p f db.refresh_tokens (λ t b. rw (same t) b) h.bound;
  families = h.families;
}

-- An update of sessions that keeps their families and revives none of them.
pub OneSession-sessions :
    (p : Session → Bool) (f : Session → Session)
    → ((t : Session) → (f t).family_id ≡ t.family_id)
    → ((c : ℕ) (t : Session) → live_of c (f t) ≡ true → live_of c t ≡ true)
    → (db : Db) → OneSession db
    → OneSession (record db { sessions = update p f db.sessions })
OneSession-sessions p f same dead db h = record {
  single = λ c. omega (arith, count-update-le (live_of c) p f db.sessions (dead c), h.single c);
  bound =
      All-mono (IsBound db.sessions) (IsBound (update p f db.sessions)) db.refresh_tokens
        (λ t b.
          (b.0, rw (any-update (of_family t.family_id) p f db.sessions (λ x. rw (same x))) b.1))
        h.bound;
  families = All-update HasFamily p f db.sessions (λ t b. rw (same t) b) h.families;
}

-- The invariant speaks of the two tables alone.
pub OneSession-transport :
    (db db' : Db)
    → db.sessions ≡ db'.sessions
    → db.refresh_tokens ≡ db'.refresh_tokens
    → OneSession db
    → OneSession db'
OneSession-transport db db' es et h = record {
  single = λ c. rw es at (h.single c);
  bound = rw et at (rw es at h.bound);
  families = rw es at h.families;
}

pub Keeps-frame :
    {w : World} (f : Db → Db)
    → ((db : Db) → db.sessions ≡ (f db).sessions)
    → ((db : Db) → db.refresh_tokens ≡ (f db).refresh_tokens)
    → Keeps OneSession w (modify f)
Keeps-frame f es et = Keeps-modify f (λ db h. OneSession-transport db (f db) (es db) (et db) h)

pub ruleset frame_rules = (keeps_rules, Keeps-frame, refl)
