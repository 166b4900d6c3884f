-- ===== src/Ratelimit.antt =====
-- ratelimit.py: the fixed windows of the process, and the FastAPI dependency that enforces one
-- ceiling. The dict of windows is a function from its slots, and `time.monotonic` an argument, in
-- microseconds. The lock makes one call of `hit` one step.
pub mod Bounds
pub mod Unswept
use mxtng_auth_services.Common.{
  ℕ, suc, ◌+◌, String, Bool, true, false, not, ◌&&◌, ◌||◌, Option, none, some, ltb, leb, str_eq,
  truthy, is_some, if◌then◌else◌,
}
use mxtng_auth_services.Text.{before, strip}
use mxtng_auth_services.Models.{seconds}
use mxtng_auth_services.Settings.{Settings}
use mxtng_auth_services.Errors.{http}
use mxtng_auth_services.Action.{Result, ok, err}

-- `client_ip`: the left-most entry of `X-Forwarded-For` where the settings trust it.
unfoldable pub client_ip : Settings → Option String → Option String → Option String
client_ip cfg none host = host
client_ip cfg (some forwarded) host =
    let first = strip (before b',' forwarded) in
    if cfg.trust_proxy_headers && (truthy (some forwarded) && truthy (some first))
    then some first
    else host

-- `_Window`
pub record Window : Type 0 where
  pub started_at : ℕ
  pub count : ℕ

-- `_Limiter`
pub record Limiter : Type 0 where
  pub windows : String → String → Option Window
  pub last_sweep : ℕ

-- `now - window.started_at >= window_seconds`, with the sides moved.
unfoldable pub is_finished : ℕ → ℕ → Window → Bool
is_finished now window_seconds w = leb (w.started_at + seconds window_seconds) now

-- A window that a sweep leaves in place.
unfoldable pub keep_running : ℕ → ℕ → Option Window → Option Window
keep_running now window_seconds none = none
keep_running now window_seconds (some w) = if is_finished now window_seconds w then none else some w

-- `_sweep`
unfoldable pub sweep : ℕ → ℕ → Limiter → Limiter
sweep now window_seconds l = if ltb now (l.last_sweep + seconds window_seconds) then l else record {
  windows = λ bucket key. keep_running now window_seconds (l.windows bucket key);
  last_sweep = now;
}

-- Assignment to one slot of the dict.
unfoldable pub assign : String → String → Window → Limiter → Limiter
assign bucket key w l = record l {
  windows = λ b k. if str_eq b bucket && str_eq k key then some w else l.windows b k;
}

-- What `hit` does to its slot once the sweep is over.
unfoldable pub count_hit : ℕ → String → String → ℕ → ℕ → Option Window → Limiter → Bool × Limiter
count_hit now bucket key limit window_seconds none l =
    (true, assign bucket key (record { started_at = now; count = 1 }) l)
count_hit now bucket key limit window_seconds (some w) l =
    if is_finished now window_seconds w
    then (true, assign bucket key (record { started_at = now; count = 1 }) l)
    else (leb (w.count + 1) limit, assign bucket key (record w { count = w.count + 1 }) l)

-- `hit`
unfoldable pub hit : ℕ → String → String → ℕ → ℕ → Limiter → Bool × Limiter
hit now bucket key limit window_seconds l =
    let swept = sweep now window_seconds l in
    count_hit now bucket key limit window_seconds (swept.windows bucket key) swept

-- `reset`, and the limiter that the module makes.
unfoldable pub reset : Limiter
reset = record { windows = λ _ _. none; last_sweep = 0 }

-- `client_ip(request) or "unknown"`
abbrev pub or_unknown : Option String → String
or_unknown none = "unknown"
or_unknown (some ip) = if truthy (some ip) then ip else "unknown"

-- `rate_limit(bucket, …)`, with the ceiling that the named setting holds.
unfoldable pub rate_limit :
    Settings
    → ℕ
    → String
    → ℕ
    → Option String
    → Option String
    → Limiter
    → Result (Unit {0}) × Limiter
rate_limit cfg now bucket limit forwarded host l =
    if not cfg.rate_limit_enabled
    then (ok tt, l)
    else (let (allowed, l') =
          hit now bucket (or_unknown (client_ip cfg forwarded host)) limit
            cfg.rate_limit_window_seconds l in
        (if allowed then ok tt else err (http 429 "Too many requests. Try again shortly."), l'))
