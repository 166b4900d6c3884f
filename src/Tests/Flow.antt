-- ===== src/Tests/Flow.antt =====
-- Two sign-ins of one account, and the theorems on runs applied to them.
use text.Mathlib.TextLemmas.{cons≢nil}
use mxtng_auth_services.Common.{
  ℕ, ◌≤◌, ◌≡◌, refl, true, Bool-cases, inl, inr, eq_iff, str_eq, truthy, none, some, List, [], ◌∷◌,
  count,
}
use mxtng_auth_services.Action.{init}
use mxtng_auth_services.Services.Sessions.{live_of}
use mxtng_auth_services.Api.{Event, request, wait, run, signs_up, asks_challenge, verifies}
use mxtng_auth_services.Invariants.OneSession.Issue.{Policy}
use mxtng_auth_services.Invariants.OneSession.Requests.{one_live_session}
use mxtng_auth_services.Services.Challenge.{open_of}
use mxtng_auth_services.Invariants.OneChallenge.{one_open_challenge}
use mxtng_auth_services.Tests.{demo, name}

pub name-truthy : (n : ℕ) → truthy (some (name n)) ≡ true
name-truthy n = elim (Bool-cases (str_eq (name n) "")) [
  | inl e ↦ absurd (cons≢nil ((eq_iff (name n) "").0 e))
  | inr e ↦ rw e refl
]

pub demo-Policy : Policy demo
demo-Policy = record { single = refl; uuid = name-truthy }

-- A signup, a sign-in, and a second sign-in a minute later.
abbrev pub sign_in_twice : List Event
sign_in_twice =
    request (signs_up "Ann@x.com" "pw" none none)
    ∷ request (asks_challenge "ann@x.com" "pw" none none)
    ∷ request (verifies "u9" "000006" none none)
    ∷ wait 60000000
    ∷ request (asks_challenge "ann@x.com" "pw" none none)
    ∷ request (verifies "u23" "000020" none none)
    ∷ []

one_live_session_example :
    count (live_of 2) (run demo (init 0) sign_in_twice).committed.sessions ≤ 1
one_live_session_example = one_live_session demo demo-Policy 0 sign_in_twice 2

one_open_challenge_example :
    count (open_of 2) (run demo (init 0) sign_in_twice).committed.challenges ≤ 1
one_open_challenge_example = one_open_challenge demo 0 sign_in_twice 2
