-- ===== src/Services/Signup/Replay.antt =====
-- Signup is idempotent on the client's key.
use mxtng_auth_services.Common.{
  String, ◌≡◌, refl, Bool, true, ◌&&◌, Option, none, some, List, [], ◌∷◌, ◌++◌, inl, inr, arith,
  Bool-cases, Option-cases, find?, any, truthy, eq_refl, str_eq, ◌==◌, ◌||◌,
}
use mxtng_auth_services.Models.{Db, Credential}
use mxtng_auth_services.World.{World}
use mxtng_auth_services.Action.{State, ok, pure, commit, ◌>>=◌, ◌>>◌}
use mxtng_auth_services.Security.{hash_password}
use mxtng_auth_services.Services.Helpers.{
  normalize_email, audit, same_value, by_email, get_by_email, add_credential,
}
use mxtng_auth_services.Services.Signup.{has_key, find_replay, insert_credential, create_credential}

-- The row that a request with this key and address replays.
abbrev pub replayed : String → String → Db → Option Credential
replayed key email db = find? (λ c. has_key key c && by_email email c) db.credentials

find?-append :
    (p : Credential → Bool) (xs : List Credential) (x : Credential)
    → find? p xs ≡ none
    → p x ≡ true
    → find? p (xs ++ x ∷ []) ≡ some x
find?-append p [] x e hit = rw hit refl
find?-append p (y ∷ ys) x e hit = ground (arith, find?-append p ys x)

replays :
    (address password key : String) (ip : Option String) (w : World) (s : State) (c : Credential)
    → truthy (some key) ≡ true
    → replayed key (normalize_email address) s.working ≡ some c
    → create_credential address password (some key) ip w s ≡ (ok c, s)
unfolding create_credential find_replay ◌>>=◌
replays address password key ip w s c full e = rw (full, e) refl

abbrev taken : Credential → List Credential → Bool
taken c = any (λ o.
    o.id == c.id
    || (str_eq o.email c.email
        || (str_eq o.auth_user_id c.auth_user_id || same_value o.google_sub c.google_sub)))

stored-replayed :
    (email key : String) (ip : Option String) (w : World) (s s' : State) (c x : Credential)
    → replayed key email s.working ≡ none
    → (has_key key x && by_email email x) ≡ true
    → (add_credential x >> (audit "signup" none (some email) ip none >> (commit >> pure x))) w s
      ≡ (ok c, s')
    → replayed key email s'.working ≡ some c
unfolding add_credential audit ◌>>=◌
stored-replayed email key ip w s s' c x fresh hit h =
    elim (Bool-cases (taken x s.working.credentials)) [
      | inl e ↦ let bad = rw e at h in ground arith
      | inr e ↦
          let good = rw e at h in
          let same : x ≡ c = ground arith in
          let rows : s.working.credentials ++ x ∷ [] ≡ s'.working.credentials = ground arith in
          rw (← rows, ← same) (find?-append _ s.working.credentials x fresh hit)
    ]

insert-replayed :
    (email password key : String) (ip : Option String) (w : World) (s s' : State) (c : Credential)
    → replayed key email s.working ≡ none
    → insert_credential email password (some key) ip w s ≡ (ok c, s')
    → replayed key email s'.working ≡ some c
unfolding insert_credential get_by_email hash_password ◌>>=◌
insert-replayed email password key ip w s s' c fresh h =
    elim (Option-cases (find? (by_email email) s.working.credentials)) [
      | inr (x, e) ↦ let bad = rw e at h in ground arith
      | inl e ↦ elim (Option-cases (w.hashpw password s.draws)) [
        | inl fails ↦ let bad = rw (e, fails) at h in ground arith
        | inr (hash, works) ↦
            let good = rw (e, works) at h in
            stored-replayed email key ip w _ s' c _ fresh (rw (eq_refl key, eq_refl email) refl)
              good
      ]
    ]

created-replayed :
    (address password key : String) (ip : Option String) (w : World) (s s' : State) (c : Credential)
    → truthy (some key) ≡ true
    → create_credential address password (some key) ip w s ≡ (ok c, s')
    → replayed key (normalize_email address) s'.working ≡ some c
unfolding create_credential find_replay ◌>>=◌
created-replayed address password key ip w s s' c full h =
    let email = normalize_email address in
    elim (Option-cases (replayed key email s.working)) [
      | inr (x, e) ↦
          let good = rw (full, e) at h in
          let same : x ≡ c = ground arith in
          let still : s ≡ s' = ground arith in rw (← still, ← same) e
      | inl e ↦ elim (Bool-cases (any (has_key key) s.working.credentials)) [
        | inl clash ↦ let bad = rw (full, e, clash) at h in ground arith
        | inr clear ↦
            let good = rw (full, e, clear) at h in
            insert-replayed email password key ip w s s' c e good
      ]
    ]

-- Signup is idempotent: once `create_credential` returned an account for a key that is not empty,
-- repeating it with the key and the address, whatever the password, returns that same account and
-- changes nothing.
pub create_credential_idem :
    (address password password' key : String) (ip ip' : Option String) (w : World) (s s' : State)
    (c : Credential)
    → truthy (some key) ≡ true
    → create_credential address password (some key) ip w s ≡ (ok c, s')
    → create_credential address password' (some key) ip' w s' ≡ (ok c, s')
create_credential_idem address password password' key ip ip' w s s' c full h =
    replays address password' key ip' w s' c full
      (created-replayed address password key ip w s s' c full h)
