-- ===== src/Invariants/Lasting/Tables.antt =====
-- A write to one table, which leaves the others alone.
use mxtng_auth_services.Common.{List}
use mxtng_auth_services.Models.{
  Db, Credential, RefreshToken, PasswordResetToken, SignInChallenge, OAuthState, AuthAuditLog,
  Session,
}
use mxtng_auth_services.Invariants.Lasting.Rows.{Grows}
use mxtng_auth_services.Invariants.Lasting.Defs.{
  CredentialLasts, SessionLasts, TokenLasts, ChallengeLasts, ResetLasts, StateLasts, Same, Lasts,
  Lasts-refl,
}

pub credentials-Lasts :
    (db : Db) (xs : List Credential)
    → Grows CredentialLasts db.credentials xs
    → Lasts db (record db { credentials = xs })
credentials-Lasts db xs h =
    let same = Lasts-refl db in
    record {
      credentials = h;
      refresh_tokens = same.refresh_tokens;
      reset_tokens = same.reset_tokens;
      challenges = same.challenges;
      oauth_states = same.oauth_states;
      audit_log = same.audit_log;
      sessions = same.sessions;
    }

pub tokens-Lasts :
    (db : Db) (xs : List RefreshToken)
    → Grows TokenLasts db.refresh_tokens xs
    → Lasts db (record db { refresh_tokens = xs })
tokens-Lasts db xs h =
    let same = Lasts-refl db in
    record {
      credentials = same.credentials;
      refresh_tokens = h;
      reset_tokens = same.reset_tokens;
      challenges = same.challenges;
      oauth_states = same.oauth_states;
      audit_log = same.audit_log;
      sessions = same.sessions;
    }

pub reset_tokens-Lasts :
    (db : Db) (xs : List PasswordResetToken)
    → Grows ResetLasts db.reset_tokens xs
    → Lasts db (record db { reset_tokens = xs })
reset_tokens-Lasts db xs h =
    let same = Lasts-refl db in
    record {
      credentials = same.credentials;
      refresh_tokens = same.refresh_tokens;
      reset_tokens = h;
      challenges = same.challenges;
      oauth_states = same.oauth_states;
      audit_log = same.audit_log;
      sessions = same.sessions;
    }

pub challenges-Lasts :
    (db : Db) (xs : List SignInChallenge)
    → Grows ChallengeLasts db.challenges xs
    → Lasts db (record db { challenges = xs })
challenges-Lasts db xs h =
    let same = Lasts-refl db in
    record {
      credentials = same.credentials;
      refresh_tokens = same.refresh_tokens;
      reset_tokens = same.reset_tokens;
      challenges = h;
      oauth_states = same.oauth_states;
      audit_log = same.audit_log;
      sessions = same.sessions;
    }

pub states-Lasts :
    (db : Db) (xs : List OAuthState)
    → Grows StateLasts db.oauth_states xs
    → Lasts db (record db { oauth_states = xs })
states-Lasts db xs h =
    let same = Lasts-refl db in
    record {
      credentials = same.credentials;
      refresh_tokens = same.refresh_tokens;
      reset_tokens = same.reset_tokens;
      challenges = same.challenges;
      oauth_states = h;
      audit_log = same.audit_log;
      sessions = same.sessions;
    }

pub audit-Lasts :
    (db : Db) (xs : List AuthAuditLog)
    → Grows Same db.audit_log xs
    → Lasts db (record db { audit_log = xs })
audit-Lasts db xs h =
    let same = Lasts-refl db in
    record {
      credentials = same.credentials;
      refresh_tokens = same.refresh_tokens;
      reset_tokens = same.reset_tokens;
      challenges = same.challenges;
      oauth_states = same.oauth_states;
      audit_log = h;
      sessions = same.sessions;
    }

pub sessions-Lasts :
    (db : Db) (xs : List Session)
    → Grows SessionLasts db.sessions xs
    → Lasts db (record db { sessions = xs })
sessions-Lasts db xs h =
    let same = Lasts-refl db in
    record {
      credentials = same.credentials;
      refresh_tokens = same.refresh_tokens;
      reset_tokens = same.reset_tokens;
      challenges = same.challenges;
      oauth_states = same.oauth_states;
      audit_log = same.audit_log;
      sessions = h;
    }
