-- ===== src/Ratelimit/Unswept.antt =====
-- The sweep is only housekeeping: the limiter answers as one that never forgets a window.
use mxtng_auth_services.Common.{
  ℕ, ◌+◌, ◌≤◌, ◌≡◌, ◌∙◌, sym, ap, refl, String, Bool, true, Option, none, some, List, [], ◌∷◌, ltb,
  leb, str_eq, ◌&&◌, if◌then◌else◌, inl, inr, arith, Bool-cases,
}
use mxtng_auth_services.Models.{seconds}
use mxtng_auth_services.Ratelimit.{
  Window, Limiter, is_finished, keep_running, sweep, assign, count_hit, hit,
}

-- A limiter with no sweep: a window for every slot that was ever hit.
abbrev pub Slots : Type 0
Slots = String → String → Option Window

-- What a running window, or none, becomes by a hit, and whether the hit is let through.
abbrev pub next_window : ℕ → Option Window → Window
next_window now none = record { started_at = now; count = 1 }
next_window now (some w) = record w { count = w.count + 1 }

abbrev pub lets_through : ℕ → Option Window → Bool
lets_through limit none = true
lets_through limit (some w) = leb (w.count + 1) limit

abbrev pub put : String → String → Window → Slots → Slots
put bucket key w slots b k = if str_eq b bucket && str_eq k key then some w else slots b k

abbrev pub plain_hit : ℕ → String → String → ℕ → ℕ → Slots → Bool × Slots
plain_hit now bucket key limit n slots =
    let running = keep_running now n (slots bucket key) in
    (lets_through limit running, put bucket key (next_window now running) slots)

-- A hit after a delay.
pub record Hit : Type 0 where
  pub delay : ℕ
  pub bucket : String
  pub key : String
  pub limit : ℕ

abbrev pub answers : ℕ → ℕ → List Hit → Limiter → List Bool
answers now n [] l = []
answers now n (h ∷ hs) l =
    let (answer, l') = hit (now + h.delay) h.bucket h.key h.limit n l in
    answer ∷ answers (now + h.delay) n hs l'

abbrev pub plain_answers : ℕ → ℕ → List Hit → Slots → List Bool
plain_answers now n [] slots = []
plain_answers now n (h ∷ hs) slots =
    let (answer, slots') = plain_hit (now + h.delay) h.bucket h.key h.limit n slots in
    answer ∷ plain_answers (now + h.delay) n hs slots'

-- The windows that run now are the same.
abbrev pub Agree : ℕ → ℕ → Slots → Slots → Type 0
Agree now n f g = (b k : String) → keep_running now n (f b k) ≡ keep_running now n (g b k)

keep-later :
    (now later n : ℕ) (o : Option Window)
    → now ≤ later
    → keep_running later n (keep_running now n o) ≡ keep_running later n o
unfolding keep_running is_finished
keep-later now later n none h = refl
keep-later now later n (some w) h = ground arith

swept-Agree : (now n : ℕ) (l : Limiter) → Agree now n (sweep now n l).windows l.windows
unfolding sweep
swept-Agree now n l b k = elim (Bool-cases (ltb now (l.last_sweep + seconds n))) [
  | inl e ↦ rw e refl
  | inr e ↦ rw e (keep-later now now n (l.windows b k) (omega arith))
]

later-Agree : (now later n : ℕ) (f g : Slots) → now ≤ later → Agree now n f g → Agree later n f g
later-Agree now later n f g h same b k =
    sym (keep-later now later n (f b k) h)
    ∙ (ap (keep_running later n) (same b k) ∙ keep-later now later n (g b k) h)

put-Agree :
    (now n : ℕ) (bucket key : String) (w : Window) (f g : Slots)
    → Agree now n f g
    → Agree now n (put bucket key w f) (put bucket key w g)
put-Agree now n bucket key w f g same b k = elim (Bool-cases (str_eq b bucket && str_eq k key)) [
  | inl e ↦ rw e refl
  | inr e ↦ rw e (same b k)
]

-- What a hit reads of its slot is the running window.
count_hit-running :
    (now : ℕ) (bucket key : String) (limit n : ℕ) (o : Option Window) (l : Limiter)
    → count_hit now bucket key limit n o l ≡ (
      lets_through limit (keep_running now n o),
      assign bucket key (next_window now (keep_running now n o)) l,
    )
unfolding count_hit keep_running
count_hit-running now bucket key limit n none l = refl
count_hit-running now bucket key limit n (some w) l = elim (Bool-cases (is_finished now n w)) [
  | inl e ↦ rw e refl
  | inr e ↦ rw e refl
]

hit-Agree :
    (now at n : ℕ) (bucket key : String) (limit : ℕ) (l : Limiter) (slots : Slots)
    → now ≤ at
    → Agree now n l.windows slots
    → ((hit at bucket key limit n l).0 ≡ (plain_hit at bucket key limit n slots).0)
      × Agree at n (hit at bucket key limit n l).1.windows (plain_hit at bucket key limit n slots).1
unfolding hit assign
hit-Agree now at n bucket key limit l slots h same =
    let swept = sweep at n l in
    let agree : Agree at n swept.windows slots =
      λ b k. swept-Agree at n l b k ∙ later-Agree now at n l.windows slots h same b k in
    let running = keep_running at n (slots bucket key) in
    let step : hit at bucket key limit n l
        ≡ (lets_through limit running, assign bucket key (next_window at running) swept) =
      count_hit-running at bucket key limit n (swept.windows bucket key) swept
      ∙ ap (λ o. (lets_through limit o, assign bucket key (next_window at o) swept))
          (agree bucket key) in
    (
      ap (λ x. x.0) step,
      λ b k.
          ap (λ (x : Bool × Limiter). keep_running at n (x.1.windows b k)) step
          ∙ put-Agree at n bucket key (next_window at running) swept.windows slots agree b k,
    )

-- The sweep never changes an answer: from agreeing windows on, and whatever hits follow, of any
-- slots, with any delays and any limits, the limiter answers each of them as a limiter that never
-- drops a window.
pub answers-unswept :
    (now n : ℕ) (hs : List Hit) (l : Limiter) (slots : Slots)
    → Agree now n l.windows slots
    → answers now n hs l ≡ plain_answers now n hs slots
answers-unswept now n [] l slots same = refl
answers-unswept now n (h ∷ hs) l slots same =
    let at = now + h.delay in
    let (answer, agree) = hit-Agree now at n h.bucket h.key h.limit l slots (omega arith) same in
    let rest =
      answers-unswept at n hs (hit at h.bucket h.key h.limit n l).1
        (plain_hit at h.bucket h.key h.limit n slots).1 agree in
    ap (λ a. a ∷ answers at n hs (hit at h.bucket h.key h.limit n l).1) answer
    ∙ ap (λ r. (plain_hit at h.bucket h.key h.limit n slots).0 ∷ r) rest
