-- ===== src/Services/Reset/Confirmed.antt =====
-- What a password reset leaves behind.
use mxtng_auth_services.Common.{
  ℕ, suc, ◌==◌, String, ◌≡◌, ◌∙◌, sym, ap, refl, true, false, ◌||◌, Option, none, some, find?,
  find?-update, count, ltb, arith,
}
use mxtng_auth_services.Models.{Credential, PasswordResetToken}
use mxtng_auth_services.World.{World}
use mxtng_auth_services.Action.{State, ok, commit, ◌>>=◌}
use mxtng_auth_services.Security.{hash_opaque_token, hash_password}
use mxtng_auth_services.Services.Helpers.{
  by_id, get_credential, set_credential, set_reset_token, audit,
}
use mxtng_auth_services.Services.Sessions.{live_of, revoke_sessions_for_credential}
use mxtng_auth_services.Services.Refresh.{revoke_all_for_credential}
use mxtng_auth_services.Services.Refresh.Everywhere.{unrevoked_of, revoke_all_for_credential_lem}
use mxtng_auth_services.Services.Reset.{
  by_reset_hash, check_reset, set_password, use_token, confirm_password_reset,
}

-- A reset that can be confirmed: the token is stored, unused and in time, its account is stored,
-- and bcrypt takes the password.
pub record Confirmable (raw new_password : String) (w : World) (s : State) (t : PasswordResetToken)
    (c : Credential) : Type 0 where
  pub hash : String
  pub token : find? (by_reset_hash (hash_opaque_token w raw)) s.working.reset_tokens ≡ some t
  pub fresh : (t.used || ltb t.expires_at s.now) ≡ false
  pub owner : find? (by_id t.credential_id) s.working.credentials ≡ some c
  pub hashed : w.hashpw new_password s.draws ≡ some hash

-- The state in which the sessions of the account are about to be ended.
abbrev updated : World → State → PasswordResetToken → Credential → String → Option String → State
updated w s t c hash ip =
    ((set_credential c.id (set_password hash) >>= λ _. set_reset_token t.id use_token >>= λ _.
    audit "password_reset_confirmed" (some c.id) none ip none >>= λ _. commit)
      w (record s { draws = suc s.draws })).1

reaches :
    (raw new_password : String) (ip : Option String) (w : World) (s : State)
    (t : PasswordResetToken) (c : Credential)
    → (k : Confirmable raw new_password w s t c)
    → confirm_password_reset raw new_password ip w s
      ≡ revoke_all_for_credential c.id "password_reset" w (updated w s t c k.hash ip)
unfolding confirm_password_reset check_reset get_credential hash_password set_credential
    set_reset_token audit ◌>>=◌
reaches raw new_password ip w s t c k = rw (k.token, k.fresh, k.owner, k.hashed) refl

-- Ending the sessions touches neither the account nor the reset tokens.
rest_same :
    (id : ℕ) (reason : String) (w : World) (s : State)
    → ((revoke_all_for_credential id reason w s).1.committed.credentials ≡ s.working.credentials)
      × ((revoke_all_for_credential id reason w s).1.committed.reset_tokens
          ≡ s.working.reset_tokens)
unfolding revoke_all_for_credential revoke_sessions_for_credential audit ◌>>=◌
rest_same id reason w s = (refl, refl)

-- The account with this hash, no failed attempts and no lock.
abbrev pub rehashed : String → Credential → Credential
rehashed hash c = record c { password_hash = some hash; failed_attempts = 0; locked_until = none }

-- What a confirmed reset leaves.
pub record Confirmed (raw new_password : String) (ip : Option String) (w : World) (s : State)
    (t : PasswordResetToken) (c : Credential) (hash : String) : Type 0 where
  pub after : State
  pub returned : confirm_password_reset raw new_password ip w s ≡ (ok tt, after)
  pub account : find? (by_id t.credential_id) after.committed.credentials ≡ some (rehashed hash c)
  pub token :
      find? (by_reset_hash (hash_opaque_token w raw)) after.committed.reset_tokens
      ≡ some (record t { used = true })
  pub no_session : count (live_of c.id) after.committed.sessions ≡ 0
  pub no_refresh : count (unrevoked_of c.id) after.committed.refresh_tokens ≡ 0

-- Confirming a reset with a token that is stored, unused and in time, for an account that is stored
-- and with a password that bcrypt takes, succeeds: the account is stored with the new hash and
-- unlocked, the token is stored as used, no session of the account is live and none of its refresh
-- tokens is unrevoked.
pub confirm_password_reset-Confirmed :
    (raw new_password : String) (ip : Option String) (w : World) (s : State)
    (t : PasswordResetToken) (c : Credential)
    → (k : Confirmable raw new_password w s t c) → Confirmed raw new_password ip w s t c k.hash
unfolding set_credential set_reset_token set_password use_token audit ◌>>=◌
confirm_password_reset-Confirmed raw new_password ip w s t c k =
    let s1 = updated w s t c k.hash ip in
    let (s', ended, no_session, no_refresh) =
      revoke_all_for_credential_lem c.id "password_reset" w s1 in
    let same : (revoke_all_for_credential c.id "password_reset" w s1).1 ≡ s' =
      ap (λ x. x.1) ended in
    let (creds, resets) = rest_same c.id "password_reset" w s1 in
    record {
      after = s';
      returned = reaches raw new_password ip w s t c k ∙ ended;
      account =
          ap (λ (x : State). find? (by_id t.credential_id) x.committed.credentials) (sym same)
          ∙ (ap (find? (by_id t.credential_id)) creds
              ∙ find?-update (by_id t.credential_id) (by_id c.id) (set_password k.hash)
                  s.working.credentials c (λ y. refl) k.owner (ground arith));
      token =
          ap
            (λ (x : State).
              find? (by_reset_hash (hash_opaque_token w raw)) x.committed.reset_tokens)
            (sym same)
          ∙ (ap (find? (by_reset_hash (hash_opaque_token w raw))) resets
              ∙ find?-update (by_reset_hash (hash_opaque_token w raw)) (λ r. r.id == t.id) use_token
                  s.working.reset_tokens t (λ y. refl) k.token (ground arith));
      no_session = no_session;
      no_refresh = no_refresh;
    }
