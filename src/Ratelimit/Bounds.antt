-- ===== src/Ratelimit/Bounds.antt =====
-- What the limiter promises of one slot: the sweep is unobservable, other slots do not matter, and
-- one window lets a bounded number of requests through.
use mxtng_auth_services.Common.{
  ℕ, suc, ◌+◌, ◌*◌, ◌≤◌, ◌<◌, max, ◌≡◌, ◌∙◌, ap, refl, String, Bool, true, false, ◌&&◌, Option,
  none, some, List, [], ◌∷◌, inl, inr, arith, All, eq_refl, eq_iff, Bool-cases, ltb, leb, str_eq,
  if◌then◌else◌,
}
use mxtng_auth_services.Models.{seconds}
use mxtng_auth_services.Settings.{Settings}
use mxtng_auth_services.Ratelimit.{
  Window, Limiter, is_finished, keep_running, sweep, assign, count_hit, hit, client_ip, rate_limit,
}

-- A window while its time lasts: that many seconds from its start, the end not included.
abbrev pub in_time : ℕ → ℕ → Option Window → Option Window
in_time now window_seconds none = none
in_time now window_seconds (some w) =
    if ltb now (w.started_at + window_seconds * 1000000) then some w else none

-- The window of a slot that still runs.
abbrev pub running : ℕ → ℕ → String → String → Limiter → Option Window
running now window_seconds bucket key l = in_time now window_seconds (l.windows bucket key)

-- The window of a slot that the code counts on.
abbrev unswept : ℕ → ℕ → String → String → Limiter → Option Window
unswept now window_seconds bucket key l = keep_running now window_seconds (l.windows bucket key)

keep_running-in_time : (now n : ℕ) (o : Option Window) → keep_running now n o ≡ in_time now n o
unfolding keep_running is_finished
keep_running-in_time now n none = refl
keep_running-in_time now n (some w) = ground arith

-- What a request learns from its slot, said of the running window alone.
abbrev pub verdict : ℕ → Option Window → Bool
verdict limit none = true
verdict limit (some w) = leb (w.count + 1) limit

-- The window of the slot after the request.
abbrev pub counted : ℕ → Option Window → Window
counted now none = record { started_at = now; count = 1 }
counted now (some w) = record w { count = w.count + 1 }

keep_running_idem :
    (now n : ℕ) (o : Option Window)
    → keep_running now n (keep_running now n o) ≡ keep_running now n o
unfolding keep_running
keep_running_idem now n none = refl
keep_running_idem now n (some w) = ground arith

sweep-running :
    (now n : ℕ) (bucket key : String) (l : Limiter)
    → unswept now n bucket key (sweep now n l) ≡ unswept now n bucket key l
unfolding sweep
sweep-running now n bucket key l = elim (Bool-cases (ltb now (l.last_sweep + seconds n))) [
  | inl e ↦ rw e refl
  | inr e ↦ rw e (keep_running_idem now n (l.windows bucket key))
]

count_hit_lem :
    (now : ℕ) (bucket key : String) (limit n : ℕ) (o : Option Window) (l : Limiter)
    → count_hit now bucket key limit n o l ≡ (
      verdict limit (keep_running now n o),
      assign bucket key (counted now (keep_running now n o)) l,
    )
unfolding count_hit keep_running
count_hit_lem now bucket key limit n none l = refl
count_hit_lem now bucket key limit n (some w) l = elim (Bool-cases (is_finished now n w)) [
  | inl e ↦ rw e refl
  | inr e ↦ rw e refl
]

-- One request, whenever the last sweep was and whatever it dropped: it is let through exactly when
-- its slot has no running window, or one that has counted less than the limit. Afterwards its slot
-- counts it, in a new window if none was running.
pub hit_lem :
    (now : ℕ) (bucket key : String) (limit n : ℕ) (l : Limiter)
    → let slot = running now n bucket key l in
      ((hit now bucket key limit n l).0 ≡ verdict limit slot)
      × ((hit now bucket key limit n l).1.windows bucket key ≡ some (counted now slot))
unfolding hit assign
hit_lem now bucket key limit n l =
    let swept = sweep now n l in
    rw
      (
        count_hit_lem now bucket key limit n (swept.windows bucket key) swept,
        sweep-running now n bucket key l,
        keep_running-in_time now n (l.windows bucket key),
        eq_refl bucket,
        eq_refl key,
      )
      (refl, refl)

-- A request of one slot that does not run out.
sweep-keeps :
    (now n : ℕ) (bucket key : String) (l : Limiter) (w : Window)
    → l.windows bucket key ≡ some w
    → is_finished now n w ≡ false
    → (sweep now n l).windows bucket key ≡ some w
unfolding sweep keep_running
sweep-keeps now n bucket key l w e unfinished = ground (arith)

other-slot :
    (now : ℕ) (b k bucket key : String) (limit n : ℕ) (l : Limiter) (w : Window)
    → l.windows bucket key ≡ some w
    → is_finished now n w ≡ false
    → (str_eq bucket b && str_eq key k) ≡ false
    → (hit now b k limit n l).1.windows bucket key ≡ some w
unfolding hit assign
other-slot now b k bucket key limit n l w e unfinished other =
    let swept = sweep now n l in
    rw (count_hit_lem now b k limit n (swept.windows b k) swept, other)
      (sweep-keeps now n bucket key l w e unfinished)

-- A request that reached the limiter.
pub record Hit : Type 0 where
  pub at : ℕ
  pub bucket : String
  pub key : String

abbrev pub is_of : String → String → Hit → Bool
is_of bucket key h = str_eq bucket h.bucket && str_eq key h.key

-- How many requests of one slot are let through, of requests of any slots, each bucket with its
-- own limit.
unfoldable pub allowed : (String → ℕ) → ℕ → String → String → List Hit → Limiter → ℕ
allowed limits n bucket key [] l = 0
allowed limits n bucket key (h ∷ hs) l =
    let (let_through, l') = hit h.at h.bucket h.key (limits h.bucket) n l in
    let rest = allowed limits n bucket key hs l' in
    if is_of bucket key h && let_through then suc rest else rest

abbrev Before : ℕ → Hit → Type 0
Before end h = h.at < end

running-some :
    (now n : ℕ) (bucket key : String) (l : Limiter) (w : Window)
    → l.windows bucket key ≡ some w
    → is_finished now n w ≡ false
    → running now n bucket key l ≡ some w
unfolding is_finished
running-some now n bucket key l w e unfinished = ground arith

same-slot :
    (now : ℕ) (bucket key : String) (limit n : ℕ) (l : Limiter) (w : Window)
    → l.windows bucket key ≡ some w
    → is_finished now n w ≡ false
    → ((hit now bucket key limit n l).0 ≡ leb (w.count + 1) limit)
      × ((hit now bucket key limit n l).1.windows bucket key
          ≡ some (record w { count = w.count + 1 }))
same-slot now bucket key limit n l w e unfinished =
    let same = running-some now n bucket key l w e unfinished in
    let (answer, slot) = hit_lem now bucket key limit n l in
    (answer ∙ ap (verdict limit) same, slot ∙ ap (λ o. some (counted now o)) same)

unfinished_lem :
    (now n : ℕ) (w : Window) → now < w.started_at + seconds n → is_finished now n w ≡ false
unfolding is_finished
unfinished_lem now n w h = ground arith

is_of-same :
    (bucket key : String) (h : Hit)
    → is_of bucket key h ≡ true
    → (bucket ≡ h.bucket) × (key ≡ h.key)
is_of-same bucket key h e = elim (Bool-cases (str_eq bucket h.bucket)) [
  | inl b ↦ ((eq_iff bucket h.bucket).0 b, (eq_iff key h.key).0 (ground arith))
  | inr b ↦ ground arith
]

mine-count :
    (limits : String → ℕ) (n : ℕ) (bucket key : String) (x : Hit) (hs : List Hit) (l : Limiter)
    (w : Window)
    → l.windows bucket key ≡ some w
    → is_finished x.at n w ≡ false
    → is_of bucket key x ≡ true
    → ((hit x.at x.bucket x.key (limits x.bucket) n l).0 ≡ leb (w.count + 1) (limits bucket))
      × ((hit x.at x.bucket x.key (limits x.bucket) n l).1.windows bucket key
          ≡ some (record w { count = w.count + 1 }))
mine-count limits n bucket key x hs l w e unfinished mine =
    let (b, k) = is_of-same bucket key x mine in
    rw (← b, ← k) (same-slot x.at bucket key (limits bucket) n l w e unfinished)

-- A window that counted `count` requests lets `limit - count` more through at most.
allowed-window :
    (limits : String → ℕ) (n : ℕ) (bucket key : String) (hs : List Hit) (l : Limiter) (w : Window)
    → l.windows bucket key ≡ some w
    → All (Before (w.started_at + seconds n)) hs
    → allowed limits n bucket key hs l + w.count ≤ max (limits bucket) w.count
unfolding allowed
allowed-window limits n bucket key [] l w e h = omega arith
allowed-window limits n bucket key (x ∷ hs) l w e h =
    let l' = (hit x.at x.bucket x.key (limits x.bucket) n l).1 in
    let unfinished = unfinished_lem x.at n w h.0 in
    elim (Bool-cases (is_of bucket key x)) [
      | inr other ↦ rw other (
          allowed-window limits n bucket key hs l' w
            (other-slot x.at x.bucket x.key bucket key (limits x.bucket) n l w e unfinished other)
            h.1)
      | inl mine ↦
          let (answer, slot) = mine-count limits n bucket key x hs l w e unfinished mine in
          let rest =
            allowed-window limits n bucket key hs l' (record w { count = w.count + 1 }) slot h.1 in
          rw (mine, answer) (ground (arith, rest))
    ]

-- A request that finds no running window of its slot opens one. Of it and of all requests, of any
-- slots and with any limits of their buckets, that come before the window ends, at most as many of
-- that slot are let through as its limit says; a limit of 0 still lets that first request through.
pub window-bound :
    (limits : String → ℕ) (n : ℕ) (bucket key : String) (start : ℕ) (hs : List Hit) (l : Limiter)
    → running start n bucket key l ≡ none
    → All (Before (start + seconds n)) hs
    → allowed limits n bucket key (record { at = start; bucket = bucket; key = key } ∷ hs) l
      ≤ max (limits bucket) 1
unfolding allowed
window-bound limits n bucket key start hs l none_running h =
    let (answer, slot) = hit_lem start bucket key (limits bucket) n l in
    let rest =
      allowed-window limits n bucket key hs (hit start bucket key (limits bucket) n l).1
        (record { started_at = start; count = 1 })
        (slot ∙ ap (λ o. some (counted start o)) none_running) h in
    rw (eq_refl bucket, eq_refl key, answer ∙ ap (verdict (limits bucket)) none_running)
      (ground (arith, rest))

untrusted :
    (cfg : Settings) (forwarded host : Option String)
    → cfg.trust_proxy_headers ≡ false
    → client_ip cfg forwarded host ≡ host
unfolding client_ip
untrusted cfg none host e = refl
untrusted cfg (some forwarded) host e = rw e refl

-- Where the settings do not trust proxy headers, `X-Forwarded-For` changes neither the answer of a
-- rate-limited endpoint nor what the limiter counts, so a client cannot leave its slot.
pub rate_limit-ignores_header :
    (cfg : Settings) (now : ℕ) (bucket : String) (limit : ℕ) (forged forged' host : Option String)
    (l : Limiter)
    → cfg.trust_proxy_headers ≡ false
    → rate_limit cfg now bucket limit forged host l ≡ rate_limit cfg now bucket limit forged' host l
unfolding rate_limit
rate_limit-ignores_header cfg now bucket limit forged forged' host l e =
    rw (untrusted cfg forged host e, untrusted cfg forged' host e) refl
