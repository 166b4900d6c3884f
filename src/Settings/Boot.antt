-- ===== src/Settings/Boot.antt =====
-- Which settings the two validators let through.
use mxtng_auth_services.Common.{
  ◌≡◌, refl, String, Bool, true, false, not, ◌&&◌, ◌||◌, Option, none, some, List, [], ◌∷◌, ◌++◌,
  any, str_eq, truthy, arith, inl, inr, Bool-cases,
}
use mxtng_auth_services.Text.{lower, strip}
use mxtng_auth_services.Settings.{
  Settings, SameSite, none_, bad_cookie_policy, Problem, echo_reset_tokens, wildcard_hosts,
  insecure_cookie, is_placeholder, require, when_list, nonempty, is_development, enforce_secrets,
}

-- The secrets that the repository's examples publish, in any case and with any space around them.
abbrev pub is_published : String → Bool
is_published t = any (str_eq (lower (strip t))) (
    "change-me-admin-key" ∷ "change-me-webhook-secret" ∷ "change-me-mail-relay-secret" ∷ "changeme"
    ∷ "secret" ∷ [])

-- A secret that is set, and that is not one of the published placeholders.
abbrev pub is_secret : Option String → Bool
is_secret none = false
is_secret (some t) = truthy (some t) && not (is_published t)

-- What a deployment outside development has to set.
abbrev pub is_hardened : Settings → Bool
is_hardened c =
    is_secret c.admin_api_key
    && ((not (truthy c.mail_relay_url) || is_secret c.mail_relay_secret)
        && ((not (nonempty c.webhook_endpoints) || is_secret c.webhook_secret)
            && (not c.debug_echo_reset_tokens
                && (not (any (λ h. str_eq h "*") c.trusted_hosts) && c.refresh_cookie_secure))))

abbrev pub goes_everywhere : SameSite → Bool
goes_everywhere none_ = true
goes_everywhere _ = false

abbrev pub is_refused : List Problem → Bool
is_refused [] = false
is_refused (p ∷ ps) = true

refused-append : (ps qs : List Problem) → is_refused (ps ++ qs) ≡ (is_refused ps || is_refused qs)
refused-append [] qs = refl
refused-append (p ∷ ps) qs = refl

refused-when : (b : Bool) (ps : List Problem) → is_refused (when_list b ps) ≡ (b && is_refused ps)
refused-when true ps = refl
refused-when false ps = refl

refused-require :
    (name : String) (v : Option String) → is_refused (require name v) ≡ not (is_secret v)
unfolding require is_placeholder
refused-require name none = refl
refused-require name (some raw) = elim (Bool-cases (truthy (some raw))) [
  | inl set ↦ elim (Bool-cases (is_published raw)) [
    | inl known ↦ rw (set, known) refl
    | inr own ↦ rw (set, own) refl
  ]
  | inr unset ↦ rw unset refl
]

-- The problems against the demands, on truth values.
demand :
    (given wanted : Bool) (rest good : Bool)
    → rest ≡ not good
    → ((given && not wanted) || rest) ≡ not ((not given || wanted) && good)
demand true true rest good h = h
demand true false rest good h = refl
demand false wanted rest good h = h

table :
    (a u r n h e s k : Bool)
    → (not a
        || ((u && not r) || ((n && not h) || ((e && true) || ((s && true) || (not k && true))))))
      ≡ not (a && ((not u || r) && ((not n || h) && (not e && (not s && k)))))
table false u r n h e s k = refl
table true u r n h e s k = demand u r _ _ (demand n h _ _ (ground arith))

enforce_secrets_lem :
    (c : Settings) → is_refused (enforce_secrets c) ≡ not (is_development c || is_hardened c)
unfolding enforce_secrets
enforce_secrets_lem c =
    let cookie = when_list (not c.refresh_cookie_secure) (insecure_cookie ∷ []) in
    let hosts = when_list (any (λ h. str_eq h "*") c.trusted_hosts) (wildcard_hosts ∷ []) in
    let echo = when_list c.debug_echo_reset_tokens (echo_reset_tokens ∷ []) in
    let hooks =
      when_list (nonempty c.webhook_endpoints) (require "WEBHOOK_SECRET" c.webhook_secret) in
    let relay =
      when_list (truthy c.mail_relay_url) (require "MAIL_RELAY_SECRET" c.mail_relay_secret) in
    let admin = require "ADMIN_API_KEY" c.admin_api_key in
    elim (Bool-cases (is_development c)) [
      | inl dev ↦ rw dev refl
      | inr live ↦
          rw
            (
              live,
              refused-append admin (relay ++ (hooks ++ (echo ++ (hosts ++ cookie)))),
              refused-append relay (hooks ++ (echo ++ (hosts ++ cookie))),
              refused-append hooks (echo ++ (hosts ++ cookie)),
              refused-append echo (hosts ++ cookie),
              refused-append hosts cookie,
              refused-require "ADMIN_API_KEY" c.admin_api_key,
              refused-when (truthy c.mail_relay_url)
                  (require "MAIL_RELAY_SECRET" c.mail_relay_secret),
              refused-when (nonempty c.webhook_endpoints)
                  (require "WEBHOOK_SECRET" c.webhook_secret),
              refused-require "MAIL_RELAY_SECRET" c.mail_relay_secret,
              refused-require "WEBHOOK_SECRET" c.webhook_secret,
              refused-when c.debug_echo_reset_tokens (echo_reset_tokens ∷ []),
              refused-when (any (λ h. str_eq h "*") c.trusted_hosts) (wildcard_hosts ∷ []),
              refused-when (not c.refresh_cookie_secure) (insecure_cookie ∷ []),
            )
            (table (is_secret c.admin_api_key) (truthy c.mail_relay_url)
              (is_secret c.mail_relay_secret) (nonempty c.webhook_endpoints)
              (is_secret c.webhook_secret) c.debug_echo_reset_tokens
              (any (λ h. str_eq h "*") c.trusted_hosts) c.refresh_cookie_secure)
    ]

-- A cookie that goes to other sites is marked secure.
abbrev pub is_consistent : Settings → Bool
is_consistent c = c.refresh_cookie_secure || not (goes_everywhere c.refresh_cookie_samesite)

cookie_lem : (c : Settings) → bad_cookie_policy c ≡ not (is_consistent c)
unfolding bad_cookie_policy
cookie_lem c = ground arith

-- The two validators of the settings: one of them refuses exactly when the refresh cookie has
-- SameSite=none and is not secure, or when it is outside development and the settings lack one of
-- these: an admin key, a secret of the relay if there is one, a secret of the webhooks if there are
-- receivers, none of them one of the five published placeholders; reset tokens that are not echoed;
-- hosts without the wildcard; and a secure cookie.
pub validators-hardened :
    (c : Settings)
    → (bad_cookie_policy c || is_refused (enforce_secrets c))
      ≡ not (is_consistent c && (is_development c || is_hardened c))
validators-hardened c = rw (cookie_lem c, enforce_secrets_lem c) (ground arith)
