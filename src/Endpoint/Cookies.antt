-- ===== src/Endpoint/Cookies.antt =====
-- Which answers carry a cookie.
use mxtng_auth_services.Common.{
  ◌≡◌, refl, ℕ, String, true, if◌then◌else◌, Option, none, some, List, [], ◌∷◌, truthy, inl, inr,
  Bool-cases,
}
use mxtng_auth_services.Settings.{Settings}
use mxtng_auth_services.World.{World}
use mxtng_auth_services.Errors.{Error, auth, http, value_error, integrity_error, unhandled}
use mxtng_auth_services.Action.{Action, State, Result, ok, err, continue, asks, pure, ◌>>=◌}
use mxtng_auth_services.Services.Challenge.{verify_challenge}
use mxtng_auth_services.Services.Refresh.{rotate_refresh}
use mxtng_auth_services.Schemas.{ChallengeResponse}
use mxtng_auth_services.Api.{
  IssuedTokens, login_verify, refresh, Request, signs_up, asks_challenge, verifies, asks_resend,
  refreshes, logs_out, logs_out_all, introspects, asks_reset, confirms_reset, starts_google,
  returns_google, changes_email, disables,
}
use mxtng_auth_services.Endpoint.{
  Handled, answer, answer_of, error_answer, SetCookie, set_refresh_cookie, token_reply,
  callback_reply, send_on, reply, respond,
}

-- The refresh cookie as a browser is to keep it: out of reach of scripts, as long as the refresh
-- token lives, and with the scope and the policy of the settings.
abbrev pub holding : Settings → String → SetCookie
holding cfg raw = record {
  key = cfg.refresh_cookie_name;
  value = raw;
  max_age = cfg.refresh_token_ttl_seconds;
  httponly = true;
  secure = cfg.refresh_cookie_secure;
  samesite = cfg.refresh_cookie_samesite;
  path = cfg.refresh_cookie_path;
  domain = cfg.refresh_cookie_domain;
}

-- What an access token, its lifetime and a refresh token give the answer.
abbrev pub cookies_for : Settings → Result (String × ℕ × String) → List SetCookie
cookies_for cfg (ok (access_token, expires_in, refresh_raw)) = holding cfg refresh_raw ∷ []
cookies_for cfg (err e) = []

-- The cookies that a rotation of this cookie's token earns.
abbrev pub rotated : World → State → Option String → Option String → List SetCookie
rotated w s none ip = []
rotated w s (some raw) ip =
    if truthy (some raw) then cookies_for w.settings (rotate_refresh raw ip w s).0 else []

-- The cookies that a request earns.
abbrev pub earned : World → State → Request → List SetCookie
earned w s (verifies id code ip ua) = cookies_for w.settings (verify_challenge id code ip ua w s).0
earned w s (refreshes raw ip) = rotated w s raw ip
earned w s _ = []

error-no_cookies : (e : Error) → (error_answer e).cookies ≡ []
unfolding error_answer
error-no_cookies (auth exc) = refl
error-no_cookies (http status detail) = refl
error-no_cookies value_error = refl
error-no_cookies integrity_error = refl
error-no_cookies unhandled = refl

send_on-no_cookies :
    (target : Option String) (r : ChallengeResponse) → (answer_of (send_on target r)).cookies ≡ []
unfolding answer_of send_on
send_on-no_cookies none r = refl
send_on-no_cookies (some url) r = elim (Bool-cases (truthy (some url))) [
  | inl set ↦ rw set refl
  | inr unset ↦ rw unset refl
]

module _ (u : List (String × String) → String) (w : World) where
  continued-none :
      {A : Type 0} (f : Settings → A → Handled) (r : Result A) (s : State)
      → ((a : A) → (answer_of (f w.settings a)).cookies ≡ [])
      → (answer (continue r (λ a. asks (λ w. f w.settings a)) w s).0).cookies ≡ []
  unfolding asks answer
  continued-none f (ok a) s bare = bare a
  continued-none f (err e) s bare = error-no_cookies e

  without :
      {A : Type 0} (m : Action A) (f : Settings → A → Handled) (s : State)
      → ((a : A) → (answer_of (f w.settings a)).cookies ≡ [])
      → (answer (reply u m f w s).0).cookies ≡ []
  unfolding ◌>>=◌
  without m f s bare = let (r, s') = m w s in continued-none f r s' bare

  abbrev handed : Action (String × ℕ × String) → Action IssuedTokens
  handed m = do
    (access_token, expires_in, refresh_raw) ← m
    pure (record {
      access_token = access_token;
      expires_in = expires_in;
      refresh_cookie = refresh_raw;
    })

  continued-issued :
      (r : Result (String × ℕ × String)) (s : State)
      → (answer (reply u (handed (λ _ _. (r, s))) token_reply w s).0).cookies
        ≡ cookies_for w.settings r
  unfolding asks answer answer_of token_reply set_refresh_cookie ◌>>=◌ pure
  continued-issued (ok (access_token, expires_in, refresh_raw)) s = refl
  continued-issued (err e) s = error-no_cookies e

  issued :
      (m : Action (String × ℕ × String)) (s : State)
      → (answer (reply u (handed m) token_reply w s).0).cookies ≡ cookies_for w.settings (m w s).0
  unfolding ◌>>=◌
  issued m s = let (r, s') = m w s in continued-issued r s'

  refreshed :
      (raw ip : Option String) (s : State)
      → (answer (reply u (refresh raw ip) token_reply w s).0).cookies ≡ rotated w s raw ip
  unfolding refresh answer ◌>>=◌ error_answer
  refreshed none ip s = refl
  refreshed (some raw) ip s = elim (Bool-cases (truthy (some raw))) [
    | inl set ↦ rw set (issued (rotate_refresh raw ip) s)
    | inr unset ↦ rw unset refl
  ]

  -- An answer carries a cookie exactly when `verify_challenge` or `rotate_refresh` returned tokens:
  -- one, which holds the refresh token that was returned, is out of reach of scripts, and has the
  -- lifetime of a refresh token and the name, the scope and the policy of the settings. No other
  -- answer carries one, and those of the two logouts do not either.
  pub answer-cookies :
      (r : Request) (s : State) → (answer (respond u r w s).0).cookies ≡ earned w s r
  unfolding respond answer_of callback_reply login_verify
  answer-cookies (signs_up _ _ _ _) s = without _ _ s (λ a. refl)
  answer-cookies (asks_challenge _ _ _ _) s = without _ _ s (λ a. refl)
  answer-cookies (verifies id code ip ua) s = issued (verify_challenge id code ip ua) s
  answer-cookies (asks_resend _ _) s = without _ _ s (λ a. refl)
  answer-cookies (refreshes raw ip) s = refreshed raw ip s
  answer-cookies (logs_out _) s = without _ _ s (λ a. refl)
  answer-cookies (logs_out_all _) s = without _ _ s (λ a. refl)
  answer-cookies (introspects _) s = without _ _ s (λ a. refl)
  answer-cookies (asks_reset _ _) s = without _ _ s (λ a. refl)
  answer-cookies (confirms_reset _ _ _) s = without _ _ s (λ a. refl)
  answer-cookies starts_google s = without _ _ s (λ a. refl)
  answer-cookies (returns_google _ _ _) s =
      without _ _ s (send_on-no_cookies w.settings.google_post_login_redirect)
  answer-cookies (changes_email _ _ _) s = without _ _ s (λ a. refl)
  answer-cookies (disables _ _) s = without _ _ s (λ a. refl)
