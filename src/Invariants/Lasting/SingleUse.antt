-- ===== src/Invariants/Lasting/SingleUse.antt =====
-- A sign-in code opens a session once.
use mxtng_auth_services.Common.{
  ℕ, String, ◌≡◌, ◌∙◌, sym, ap, refl, Bool, true, false, not, Option, none, List, find?, arith,
  str_eq, subst,
}
use mxtng_auth_services.Models.{Db, SignInChallenge, Credential}
use mxtng_auth_services.Errors.{auth, invalid_challenge}
use mxtng_auth_services.World.{World}
use mxtng_auth_services.Action.{Action, State, ok, err, when, close}
use mxtng_auth_services.Action.Inversion.{bind-Returned}
use mxtng_auth_services.Services.Refresh.{issue_tokens}
use mxtng_auth_services.Services.Challenge.{by_challenge_id, verify_challenge}
use mxtng_auth_services.Services.Challenge.Codes.{
  Usable, Matches, Burnt, check_verify-Usable, right_code, refuse_code-raises, accepted-Burnt,
}
use mxtng_auth_services.Invariants.Keeps.{Keeps}
use mxtng_auth_services.Invariants.Lasting.Rows.{Grows-find?}
use mxtng_auth_services.Invariants.Lasting.Defs.{Lasts, Lasts-refl, ChallengeLasts}
use mxtng_auth_services.Invariants.Closed.Tokens.{Keeps-issue_tokens}
use mxtng_auth_services.Invariants.Lasting.Writes.{Lasts-Closed}
use mxtng_auth_services.Invariants.Lasting.Consequences.{consumed_challenge-refused}
use mxtng_auth_services.Api.{Event, run}

Lasts-Burnt : (id : String) (c d : Db) → Lasts c d → Burnt id c → Burnt id d
Lasts-Burnt id c d lasts b =
    let (u, stored, same) =
      Grows-find? ChallengeLasts (by_challenge_id id)
        (λ x y r. ap (λ k. str_eq k id) r.challenge_id) c.challenges d.challenges b.row
        lasts.challenges b.stored in
    record { row = u; stored = stored; consumed = same.consumed b.consumed }

issued-Burnt :
    (id : String) (c : Credential) (requested : String) (ip ua : Option String) (w : World)
    (s s' : State) (tokens : String × ℕ × String)
    → s.committed ≡ s.working
    → Burnt id s.working
    → issue_tokens c requested none none ip ua true w s ≡ (ok tokens, s')
    → Burnt id s'.committed
issued-Burnt id c requested ip ua w s s' tokens settled burnt h =
    let k : Keeps (Lasts s.working) w (issue_tokens c requested none none ip ua true) =
      Keeps-issue_tokens Lasts-Closed c requested none none ip ua true in
    let same = Lasts-refl s.working in
    let out = k.at s (rw settled same) same in
    Lasts-Burnt id s.working s'.committed ((rw h at out).0) burnt

-- What a test that raises leaves open.
passed :
    (b : Bool) (m : Action (Unit {0})) (w : World) (s s' : State)
    → ((t : State) → ¬ (m w s ≡ (ok tt, t)))
    → when (not b) m w s ≡ (ok tt, s')
    → (b ≡ true) × (s' ≡ s)
unfolding when
passed true m w s s' k h = (refl, ground arith)
passed false m w s s' k h = absurd (k s' h)

-- If `verify_challenge` returns tokens, then the challenge was stored, open and in time, its
-- account was enabled and not locked, the code was the one it holds the hash of, and the challenge
-- is stored as consumed from then on.
pub verify_challenge-succeeds :
    (id code : String) (ip ua : Option String) (w : World) (s s' : State)
    (tokens : String × ℕ × String)
    → verify_challenge id code ip ua w s ≡ (ok tokens, s')
    → (ch : SignInChallenge) × (c : Credential) × Usable id s ch c
      × Matches w code ch
      × Burnt id s'.committed
unfolding verify_challenge
verify_challenge-succeeds id code ip ua w s s' tokens h =
    let r = bind-Returned _ _ w s tokens s' h in
    let (ch, c) = r.value in
    let (e1, usable) = check_verify-Usable id w s r.between ch c r.first in
    let q = bind-Returned _ _ w r.between tokens s' r.second in
    let p = bind-Returned _ _ w q.between tokens s' q.second in
    let (is_right, e3) =
      passed q.value _ w q.between p.between (λ t. refuse_code-raises ch c ip w q.between t)
        p.first in
    let (matches, working, e2) =
      right_code code ch.code_hash w r.between q.between
        (q.first ∙ ap (λ b. (ok b, q.between)) is_right) in
    let z = bind-Returned _ _ w p.between tokens s' p.second in
    let unchanged = ap (λ (t : State). t.working) e3 ∙ working ∙ ap (λ (t : State). t.working) e1 in
    let (s4, e4, settled, burnt) =
      accepted-Burnt id ch c ip w p.between
        (ap (λ (db : Db). find? (by_challenge_id id) db.challenges) unchanged ∙ usable.stored) in
    let same : s4 ≡ z.between = ap (λ x. x.1) (sym e4 ∙ z.first) in
    (
      ch,
      c,
      usable,
      matches,
      issued-Burnt id c ch.audience ip ua w z.between s' tokens
          (subst (λ (t : State). t.committed ≡ t.working) same settled)
          (subst (λ (t : State). Burnt id t.working) same burnt) z.second,
    )

-- A sign-in code is used once: after `verify_challenge` returned tokens for a challenge, and
-- whatever requests follow the one it served, verifying any code against that challenge raises
-- InvalidChallenge and changes nothing.
pub code-single_use :
    (id code : String) (ip ua : Option String) (w : World) (s s' : State)
    (tokens : String × ℕ × String) (es : List Event) (code' : String) (ip' ua' : Option String)
    → verify_challenge id code ip ua w s ≡ (ok tokens, s')
    → verify_challenge id code' ip' ua' w (run w (close s') es)
      ≡ (err (auth (invalid_challenge "Invalid or expired sign-in code")), run w (close s') es)
code-single_use id code ip ua w s s' tokens es code' ip' ua' h =
    let (ch, c, usable, matches, burnt) = verify_challenge-succeeds id code ip ua w s s' tokens h in
    consumed_challenge-refused w (close s') es refl id burnt.row code' ip' ua' burnt.stored
      burnt.consumed
