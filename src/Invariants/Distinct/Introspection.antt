-- ===== src/Invariants/Distinct/Introspection.antt =====
-- The batch check of sessions against the check of one.
use mxtng_auth_services.Common.{
  String, ◌≡◌, ◌∙◌, sym, ap, refl, Bool, true, not, ◌&&◌, List, [], ◌∷◌, inl, inr, arith,
  Bool-cases, Option-cases, find?, any, select, str_eq, eq_refl, eq_iff,
}
use mxtng_auth_services.Models.{Session}
use mxtng_auth_services.World.{World}
use mxtng_auth_services.Action.{State, ok, ◌>>=◌}
use mxtng_auth_services.Services.Sessions.{
  by_session_id, is_live, get_session, is_session_live, unique_ids, has_live, live_session_ids,
}
use mxtng_auth_services.Invariants.Distinct.Keys.{has, Distinct, any-found, any-missing}
use mxtng_auth_services.Invariants.Distinct.Defs.{session_key}
use mxtng_auth_services.Invariants.Distinct.Reachable.{
  Reachable, Reachable-Unique, Reachable-settled,
}

abbrev pub itself : String → String
itself x = x

str_eq_comm : (x y : String) → str_eq x y ≡ str_eq y x
str_eq_comm x y = ground (arith, eq_iff x y, eq_iff y x)

seen-same :
    (x id : String) (seen : List String)
    → str_eq x id ≡ true
    → any (str_eq x) seen ≡ any (str_eq id) seen
seen-same x id seen e = ap (λ v. any (str_eq v) seen) ((eq_iff x id).0 e)

pub unique_ids-mem :
    (id : String) (seen xs : List String)
    → any (has itself id) (unique_ids seen xs)
      ≡ (any (has itself id) xs && not (any (str_eq id) seen))
unfolding unique_ids
unique_ids-mem id seen [] = refl
unique_ids-mem id seen (x ∷ xs) = ground (
  arith,
  unique_ids-mem id seen xs,
  unique_ids-mem id (x ∷ seen) xs,
  seen-same x id seen,
  str_eq_comm x id,
)

same-test : (p : String → Bool) (x id : String) → str_eq x id ≡ true → p x ≡ p id
same-test p x id e = ap p ((eq_iff x id).0 e)

select-mem :
    (p : String → Bool) (id : String) (xs : List String)
    → any (has itself id) (select p xs) ≡ (any (has itself id) xs && p id)
select-mem p id [] = refl
select-mem p id (x ∷ xs) = ground (arith, select-mem p id xs, same-test p x id)

pub unique_ids-Distinct : (seen xs : List String) → Distinct itself (unique_ids seen xs)
unfolding unique_ids
unique_ids-Distinct seen [] = tt
unique_ids-Distinct seen (x ∷ xs) = elim (Bool-cases (any (str_eq x) seen)) [
  | inl old ↦ rw old (unique_ids-Distinct seen xs)
  | inr new ↦ rw new (
    unique_ids-mem x (x ∷ seen) xs ∙ ground (arith, eq_refl x),
    unique_ids-Distinct (x ∷ seen) xs,
  )
]

select-Distinct :
    (p : String → Bool) (xs : List String) → Distinct itself xs → Distinct itself (select p xs)
select-Distinct p [] d = tt
select-Distinct p (x ∷ xs) d = elim (Bool-cases (p x)) [
  | inl e ↦ rw e (select-mem p x xs ∙ ground (arith, d.0), select-Distinct p xs d.1)
  | inr e ↦ rw e (select-Distinct p xs d.1)
]

-- The test of the batch query, for one id.
has_live-is_live :
    (id : String) (ts : List Session)
    → Distinct session_key ts
    → has_live ts id ≡ is_live (find? (by_session_id id) ts)
has_live-is_live id ts d = elim (Option-cases (find? (by_session_id id) ts)) [
  | inl e ↦ any-missing session_key id (λ t. not t.revoked) ts e ∙ sym (ap is_live e)
  | inr (t, e) ↦ any-found session_key id (λ t. not t.revoked) ts t d e ∙ sym (ap is_live e)
]

-- An answer of the batch check, against the check of single sessions.
pub record Agrees (w : World) (s : State) (ids answer : List String) : Type 0 where
  pub answered : live_session_ids ids w s ≡ (ok answer, s)
  pub once : Distinct itself answer
  pub live : (id : String) → Bool
  pub checked : (id : String) → is_session_live id w s ≡ (ok (live id), s)
  pub member : (id : String) → any (has itself id) answer ≡ (any (has itself id) ids && live id)

-- After any history of requests, the batch check of sessions agrees with the check of one: it
-- changes nothing, answers each id once at most, and answers exactly those ids among the ones asked
-- for of which the check of one session says that they are live.
pub live_session_ids-Agrees :
    (ids : List String) (w : World) (s : State)
    → Reachable w s
    → (answer : List String) × Agrees w s ids answer
unfolding live_session_ids is_session_live get_session ◌>>=◌
live_session_ids-Agrees ids w s r =
    let settled = Reachable-settled w s r in
    let distinct : Distinct session_key s.working.sessions =
      rw settled (Reachable-Unique w s r).sessions in
    let test = has_live s.working.sessions in
    (
      select test (unique_ids [] ids),
      record {
        answered = refl;
        once = select-Distinct test (unique_ids [] ids) (unique_ids-Distinct [] ids);
        live = λ id. is_live (find? (by_session_id id) s.working.sessions);
        checked = λ id. refl;
        member = λ id.
            select-mem test id (unique_ids [] ids)
            ∙ ground
                (arith, unique_ids-mem id [] ids, has_live-is_live id s.working.sessions distinct);
      },
    )
