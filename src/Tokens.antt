-- ===== src/Tokens.antt =====
-- tokens.py: the claims of an access token, and the audience that is granted.
use mxtng_auth_services.Common.{
  ℕ, ◌+◌, ◌/◌, String, ◌&&◌, Option, none, some, [], ◌∷◌, any, str_eq, truthy, if◌then◌else◌,
}
use mxtng_auth_services.Settings.{Settings}
use mxtng_auth_services.World.{Claims}
use mxtng_auth_services.Action.{Action, ok}

-- `resolve_audience`, of a text that is given: the callers pass `""` for `None`.
unfoldable pub resolve_audience : Settings → String → String
resolve_audience c requested =
    if truthy (some requested) && any (str_eq requested) c.allowed_audiences
    then requested
    else c.default_audience

-- The claims that `mint_access_token` signs.
unfoldable pub access_claims : Settings → ℕ → String → String → String → Option String → Claims
access_claims c now auth_user_id email audience session_id = record {
  iss = c.issuer;
  sub = auth_user_id;
  aud = audience ∷ [];
  email = email;
  token_use = "access";
  iat = now;
  nbf = now;
  exp = now + c.access_token_ttl_seconds;
  sid = if truthy session_id then session_id else none;
}

-- `int(time.time())`
abbrev pub unix_time : ℕ → ℕ
unix_time now = now / 1000000

unfoldable pub mint_access_token : String → String → String → Option String → Action (String × ℕ)
unfolding access_claims
mint_access_token auth_user_id email audience session_id w s = (
  ok (
    w.sign (access_claims w.settings (unix_time s.now) auth_user_id email audience session_id),
    w.settings.access_token_ttl_seconds,
  ),
  s,
)
