-- ===== src/Services/Refresh/Everywhere.antt =====
-- What `revoke_all_for_credential` leaves of an account.
use mxtng_auth_services.Common.{
  ℕ, ◌==◌, String, ◌≡◌, refl, Bool, false, not, ◌&&◌, Option, none, some, List, [], ◌∷◌, inl, inr,
  arith, Bool-cases, count, update, select, truthy, count-update_self, count-update-le,
}
use mxtng_auth_services.Models.{RefreshToken, Session}
use mxtng_auth_services.World.{World}
use mxtng_auth_services.Action.{State, ok, ◌>>=◌}
use mxtng_auth_services.Services.Helpers.{audit}
use mxtng_auth_services.Services.Sessions.{
  live_of, end_session, revoke_token, in_family, revoke_behind, revoke_families,
  revoke_sessions_for_credential,
}
use mxtng_auth_services.Services.Refresh.{revoke_all_for_credential}

-- The refresh tokens of an account that are not revoked.
abbrev pub unrevoked_of : ℕ → RefreshToken → Bool
unrevoked_of id t = t.credential_id == id && not t.revoked

ended_not-live :
    (reason : String) (at id : ℕ) (t : Session) → live_of id (end_session reason at t) ≡ false
unfolding end_session
ended_not-live reason at id t = ground arith

revoked_not-unrevoked : (id : ℕ) (t : RefreshToken) → unrevoked_of id (revoke_token t) ≡ false
unfolding revoke_token
revoked_not-unrevoked id t = ground arith

-- Revoking more of them leaves none of an account that had none.
revoke_behind-none :
    (id : ℕ) (f : Option String) (ts : List RefreshToken)
    → count (unrevoked_of id) ts ≡ 0
    → count (unrevoked_of id) (revoke_behind f ts) ≡ 0
unfolding revoke_behind
revoke_behind-none id none ts h = h
revoke_behind-none id (some f) ts h = elim (Bool-cases (truthy (some f))) [
  | inl e ↦ rw e (
      omega (
        arith,
        h,
        count-update-le (unrevoked_of id) (in_family f) revoke_token ts
            (λ t k. cc (k, revoked_not-unrevoked id t)),
      ))
  | inr e ↦ rw e h
]

revoke_families-none :
    (id : ℕ) (ss : List Session) (ts : List RefreshToken)
    → count (unrevoked_of id) ts ≡ 0
    → count (unrevoked_of id) (revoke_families ss ts) ≡ 0
unfolding revoke_families
revoke_families-none id [] ts h = h
revoke_families-none id (s ∷ ss) ts h =
    revoke_families-none id ss (revoke_behind s.family_id ts)
      (revoke_behind-none id s.family_id ts h)

all_tokens-none :
    (id : ℕ) (ts : List RefreshToken)
    → count (unrevoked_of id) (update (λ t. t.credential_id == id) revoke_token ts) ≡ 0
unfolding revoke_token
all_tokens-none id [] = refl
all_tokens-none id (t ∷ ts) = ground (arith, all_tokens-none id ts)

-- `revoke_all_for_credential` always returns, and then no stored session of the account is live and
-- none of its stored refresh tokens is unrevoked.
pub revoke_all_for_credential_lem :
    (id : ℕ) (reason : String) (w : World) (s : State)
    → (s' : State) × (revoke_all_for_credential id reason w s ≡ (ok tt, s'))
      × (count (live_of id) s'.committed.sessions ≡ 0)
      × (count (unrevoked_of id) s'.committed.refresh_tokens ≡ 0)
unfolding revoke_all_for_credential revoke_sessions_for_credential audit ◌>>=◌
revoke_all_for_credential_lem id reason w s = (
  _,
  refl,
  count-update_self (live_of id) (end_session reason s.now) s.working.sessions
      (ended_not-live reason s.now id),
  revoke_families-none id (select (live_of id) s.working.sessions) _
      (all_tokens-none id s.working.refresh_tokens),
)
