-- ===== src/App/Headers.antt =====
-- The headers that every answer carries.
use mxtng_auth_services.Common.{
  String, ◌≡◌, ◌∙◌, ap, sym, refl, ◌&&◌, Option, none, some, [], ◌∷◌, ◌++◌, str_eq, if◌then◌else◌,
  inl, inr, arith, Bool-cases, Option-cases, eq_iff,
}
use mxtng_auth_services.Settings.{Settings, is_production}
use mxtng_auth_services.App.{HeaderList, header, setdefault, hsts, security_headers}

-- The value that a header has where nothing set it.
abbrev pub baseline : Settings → String → Option String
baseline cfg name =
    if str_eq "x-content-type-options" name
    then some "nosniff"
    else if str_eq "referrer-policy" name
    then some "no-referrer"
    else if str_eq "x-frame-options" name
    then some "DENY"
    else if str_eq "cache-control" name
    then some "no-store"
    else if is_production cfg && str_eq "strict-transport-security" name
    then some (hsts cfg)
    else none

abbrev pub or_default : Option String → Option String → Option String
or_default none d = d
or_default (some v) d = some v

header-append :
    (name n v : String) (hs : HeaderList)
    → header name (hs ++ (n, v) ∷ [])
      ≡ or_default (header name hs) (if str_eq n name then some v else none)
header-append name n v [] = refl
header-append name n v ((m, u) ∷ hs) = ground (arith, header-append name n v hs)

or_default-none : (o : Option String) → or_default o none ≡ o
or_default-none none = refl
or_default-none (some v) = refl

found :
    (name n v u : String) (hs : HeaderList)
    → header n hs ≡ some u
    → header name hs ≡ or_default (header name hs) (if str_eq n name then some v else none)
found name n v u hs e = elim (Bool-cases (str_eq n name)) [
  | inl same ↦ let there = sym (ap (λ m. header m hs) ((eq_iff n name).0 same)) ∙ e in rw there refl
  | inr other ↦ rw other (sym (or_default-none (header name hs)))
]

header-setdefault :
    (name n v : String) (hs : HeaderList)
    → header name (setdefault n v hs)
      ≡ or_default (header name hs) (if str_eq n name then some v else none)
unfolding setdefault
header-setdefault name n v hs = elim (Option-cases (header n hs)) [
  | inl e ↦ rw e (header-append name n v hs)
  | inr (u, e) ↦ rw e (found name n v u hs e)
]

-- A header that an answer has keeps its value, and one that it lacks gets the value of the baseline;
-- Strict-Transport-Security is added in production only, and no other header is added.
pub header-security_headers :
    (cfg : Settings) (name : String) (hs : HeaderList)
    → header name (security_headers cfg hs) ≡ or_default (header name hs) (baseline cfg name)
unfolding security_headers
header-security_headers cfg name hs =
    let h1 = setdefault "x-content-type-options" "nosniff" hs in
    let h2 = setdefault "referrer-policy" "no-referrer" h1 in
    let h3 = setdefault "x-frame-options" "DENY" h2 in
    let h4 = setdefault "cache-control" "no-store" h3 in
    ground (
      arith,
      header-setdefault name "x-content-type-options" "nosniff" hs,
      header-setdefault name "referrer-policy" "no-referrer" h1,
      header-setdefault name "x-frame-options" "DENY" h2,
      header-setdefault name "cache-control" "no-store" h3,
      header-setdefault name "strict-transport-security" (hsts cfg) h4,
    )
