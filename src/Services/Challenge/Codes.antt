-- ===== src/Services/Challenge/Codes.antt =====
-- What a caller learns from `verify_challenge`, and what it leaves behind.
use mxtng_auth_services.Common.{
  ◌==◌, String, ◌≡◌, ◌∙◌, ap, refl, true, false, Option, some, find?, ltb, arith, inl, inr,
  Bool-cases, Option-cases, truthy, find?-update,
}
use mxtng_auth_services.Models.{Db, SignInChallenge, Credential}
use mxtng_auth_services.World.{World}
use mxtng_auth_services.Action.{State, ok, pure, ◌>>=◌}
use mxtng_auth_services.Security.{verify_sign_in_code, verify_password, check_password}
use mxtng_auth_services.Services.Helpers.{
  by_id, get_credential, audit, set_challenge, set_credential,
}
use mxtng_auth_services.Services.Login.{is_locked}
use mxtng_auth_services.Services.Challenge.{
  by_challenge_id, find_challenge, load_live_challenge, check_verify, refuse_code, accept_code,
  consume,
}

-- The challenge may be used: it is open and in time, and its account is enabled and not locked.
pub record Usable (id : String) (s : State) (ch : SignInChallenge) (c : Credential) : Type 0 where
  pub stored : find? (by_challenge_id id) s.working.challenges ≡ some ch
  pub unconsumed : ch.consumed ≡ false
  pub in_time : ltb ch.expires_at s.now ≡ false
  pub owner : find? (by_id ch.credential_id) s.working.credentials ≡ some c
  pub enabled : c.disabled ≡ false
  pub unlocked : is_locked c.locked_until s.now ≡ false

module _ (id : String) (w : World) (s s' : State) (ch : SignInChallenge) (c : Credential) where
  -- The last guards, on the account.
  account-Usable :
      (x : SignInChallenge) (y : Credential)
      → find? (by_challenge_id id) s.working.challenges ≡ some x
      → x.consumed ≡ false
      → ltb x.expires_at s.now ≡ false
      → find? (by_id x.credential_id) s.working.credentials ≡ some y
      → check_verify id w s ≡ (ok (ch, c), s')
      → (s' ≡ s) × Usable id s ch c
  unfolding check_verify load_live_challenge find_challenge get_credential ◌>>=◌
  account-Usable x y e consumed late owner h = elim (Bool-cases y.disabled) [
    | inl disabled ↦ let bad = rw (e, consumed, late, owner, disabled) at h in ground arith
    | inr enabled ↦ elim (Bool-cases (is_locked y.locked_until s.now)) [
      | inl locked ↦ let bad = rw (e, consumed, late, owner, enabled, locked) at h in ground arith
      | inr unlocked ↦
          let good = rw (e, consumed, late, owner, enabled, unlocked) at h in
          let same : x ≡ ch = ground arith in
          let same' : y ≡ c = ground arith in
          (
            ground arith,
            record {
              stored = e ∙ ap some same;
              unconsumed = rw (← same) consumed;
              in_time = rw (← same) late;
              owner = rw (← same) (owner ∙ ap some same');
              enabled = rw (← same') enabled;
              unlocked = rw (← same') unlocked;
            },
          )
    ]
  ]

  pub check_verify-Usable : check_verify id w s ≡ (ok (ch, c), s') → (s' ≡ s) × Usable id s ch c
  unfolding check_verify load_live_challenge find_challenge get_credential ◌>>=◌
  check_verify-Usable h = elim (Option-cases (find? (by_challenge_id id) s.working.challenges)) [
    | inl e ↦ let bad = rw e at h in ground arith
    | inr (x, e) ↦ elim (Bool-cases x.consumed) [
      | inl consumed ↦ let bad = rw (e, consumed) at h in ground arith
      | inr consumed ↦ elim (Bool-cases (ltb x.expires_at s.now)) [
        | inl late ↦ let bad = rw (e, consumed, late) at h in ground arith
        | inr late ↦ elim (Option-cases (find? (by_id x.credential_id) s.working.credentials)) [
          | inl missing ↦ let bad = rw (e, consumed, late, missing) at h in ground arith
          | inr (y, owner) ↦ account-Usable x y e consumed late owner h
        ]
      ]
    ]
  ]

-- The code opens the challenge.
abbrev pub Matches : World → String → SignInChallenge → Type 0
Matches w code ch = w.checkpw code ch.code_hash ≡ some true

pub right_code :
    (code hash : String) (w : World) (s s' : State)
    → verify_sign_in_code code (some hash) w s ≡ (ok true, s')
    → (w.checkpw code hash ≡ some true) × (s'.working ≡ s.working) × (s'.now ≡ s.now)
unfolding verify_sign_in_code verify_password check_password pure
right_code code hash w s s' h = elim (Bool-cases (truthy (some hash))) [
  | inr empty ↦ let bad = rw empty at h in ground arith
  | inl full ↦ elim (Option-cases (w.checkpw code hash)) [
    | inl none_ ↦ let bad = rw (full, check_password, none_) at h in ground arith
    | inr (b, e) ↦
        let good = rw (full, check_password, e) at h in
        (e ∙ ap some (ground arith), ground arith, ground arith)
  ]
]

pub refuse_code-raises :
    (ch : SignInChallenge) (c : Credential) (ip : Option String) (w : World) (s s' : State)
    → ¬ (refuse_code ch c ip w s ≡ (ok tt, s'))
unfolding refuse_code audit set_challenge set_credential ◌>>=◌
refuse_code-raises ch c ip w s s' h = ground arith

-- The challenge is burnt for good.
pub record Burnt (id : String) (db : Db) : Type 0 where
  pub row : SignInChallenge
  pub stored : find? (by_challenge_id id) db.challenges ≡ some row
  pub consumed : row.consumed ≡ true

pub accepted-Burnt :
    (id : String) (ch : SignInChallenge) (c : Credential) (ip : Option String) (w : World)
    (s : State)
    → find? (by_challenge_id id) s.working.challenges ≡ some ch
    → (s' : State) × (accept_code ch c ip w s ≡ (ok tt, s'))
      × (s'.committed ≡ s'.working)
      × Burnt id s'.working
unfolding accept_code audit set_challenge set_credential consume ◌>>=◌
accepted-Burnt id ch c ip w s found = (
  (accept_code ch c ip w s).1,
  refl,
  refl,
  record {
    row = consume ch;
    stored =
        find?-update (by_challenge_id id) (λ x. x.id == ch.id) consume s.working.challenges ch
          (λ y. refl) found (ground arith);
    consumed = refl;
  },
)
