-- ===== src/Endpoint/Verifying.antt =====
-- The route that verifies a code, through its ceiling, the bounds of its body and its handler.
use mxtng_auth_services.Common.{
  ◌≡◌, ap, refl, ℕ, String, Bool, true, false, not, ◌&&◌, ◌||◌, leb, inl, inr, Bool-cases,
  if◌then◌else◌,
}
use mxtng_auth_services.Settings.{Settings}
use mxtng_auth_services.World.{World}
use mxtng_auth_services.Action.{
  Action, State, Result, throw, ok, err, close, pure, asks, continue, ◌>>=◌, ◌>>◌,
}
use mxtng_auth_services.Errors.{http}
use mxtng_auth_services.Text.{count_chars}
use mxtng_auth_services.Schemas.{ChallengeVerifyRequest, validate_verify}
use mxtng_auth_services.Ratelimit.{Limiter, client_ip, or_unknown, rate_limit}
use mxtng_auth_services.Ratelimit.Bounds.{running, verdict, hit_lem}
use mxtng_auth_services.Api.{IssuedTokens, handle, serve, request, verifies, step}
use mxtng_auth_services.Endpoint.{answer, error_answer, respond, reply, token_reply}
use mxtng_auth_services.Endpoint.Calls.{
  Web, Server, Origin, posts_verify, dispatch, enter, handle_parsed, limited, ceiling, parse,
  without_request,
}

-- The slot of the caller has room in the running window, or nothing is limited.
abbrev pub has_room : Settings → ℕ → String → Limiter → Bool
has_room cfg at caller l =
    not cfg.rate_limit_enabled
    || verdict cfg.rate_limit_login_per_minute
        (running at cfg.rate_limit_window_seconds "login" caller l)

-- A code has 4 to 12 characters.
abbrev pub has_length : String → Bool
has_length code = leb 4 (count_chars code) && leb (count_chars code) 12

-- What the route does with a call.
pub record Verifies (web : Web) (w : World) (at : ℕ) (o : Origin) (b : ChallengeVerifyRequest)
    (v : Server) (room : Bool) : Type 0 where
  pub state : (dispatch web w at o (posts_verify b) v).1.state ≡ (
      if room && has_length b.code
      then step w v.state (
          request
            (verifies b.challenge_id b.code (client_ip w.settings o.forwarded o.host) o.user_agent))
      else v.state)
  pub too_many : room ≡ false → (dispatch web w at o (posts_verify b) v).0.status ≡ 429
  pub invalid :
      room ≡ true
      → has_length b.code ≡ false
      → (dispatch web w at o (posts_verify b) v).0.status ≡ 422

-- The ceiling lets a call through exactly where there is room.
through :
    (cfg : Settings) (at : ℕ) (o : Origin) (l : Limiter) (room : Bool)
    → has_room cfg at (or_unknown (client_ip cfg o.forwarded o.host)) l ≡ room
    → (rate_limit cfg at "login" cfg.rate_limit_login_per_minute o.forwarded o.host l).0
      ≡ (if room then ok tt else err (http 429 "Too many requests. Try again shortly."))
unfolding rate_limit client_ip
through cfg at o l room e =
    let caller = or_unknown (client_ip cfg o.forwarded o.host) in
    let answered =
      (hit_lem at "login" caller cfg.rate_limit_login_per_minute cfg.rate_limit_window_seconds
        l).0 in
    elim (Bool-cases cfg.rate_limit_enabled) [
      | inl on ↦
          let same : verdict cfg.rate_limit_login_per_minute
                (running at cfg.rate_limit_window_seconds "login" caller l)
              ≡ room =
            rw on at e in
          rw (on, answered, same) refl
      | inr off ↦ let free : true ≡ room = rw off at e in rw (off, ← free) refl
    ]

module _ (web : Web) (w : World) (o : Origin) (b : ChallengeVerifyRequest) where
  same-continue :
      (r : Result IssuedTokens) (s : State)
      → (continue r (λ a. asks (λ w. token_reply w.settings a)) w s).1
        ≡ (continue r (λ _. pure tt) w s).1
  unfolding asks pure
  same-continue (ok a) s = refl
  same-continue (err e) s = refl

  replied :
      (m : Action IssuedTokens) (s : State)
      → (reply web.urlencode m token_reply w s).1 ≡ ((m >> pure tt) w s).1
  unfolding ◌>>=◌
  replied m s = let (r, s') = m w s in same-continue r s'

  passed_state :
      (l : Limiter) (v : Server)
      → (enter web w o (posts_verify b) (ok tt) l v).1.state ≡ (
          if has_length b.code
          then step w v.state (
              request (
                verifies b.challenge_id b.code
                  (client_ip w.settings o.forwarded o.host)
                  o.user_agent))
          else v.state)
  unfolding enter parse validate_verify handle_parsed step serve respond handle
  passed_state l v = elim (Bool-cases (has_length b.code)) [
    | inl fits ↦ rw fits (ap close (replied _ v.state))
    | inr other ↦ rw other refl
  ]

  passed_status :
      (l : Limiter) (v : Server)
      → has_length b.code ≡ false
      → (enter web w o (posts_verify b) (ok tt) l v).0.status ≡ 422
  unfolding enter parse validate_verify handle_parsed without_request answer error_answer throw
  passed_status l v e = rw e refl

  stopped_status :
      (l : Limiter) (v : Server)
      → (enter web w o
          (posts_verify b)
          (err (http 429 "Too many requests. Try again shortly."))
          l
          v).0.status
        ≡ 429
  unfolding enter answer error_answer
  stopped_status l v = refl

  stopped_state :
      (l : Limiter) (v : Server)
      → (enter web w o
          (posts_verify b)
          (err (http 429 "Too many requests. Try again shortly."))
          l
          v).1.state
        ≡ v.state
  unfolding enter
  stopped_state l v = refl

  verifying :
      (at : ℕ) (v : Server) (room : Bool)
      → has_room w.settings at (or_unknown (client_ip w.settings o.forwarded o.host)) v.limiter
        ≡ room
      → Verifies web w at o b v room
  unfolding dispatch ceiling limited
  verifying at v true e =
      let opened = through w.settings at o v.limiter true e in
      record {
        state = rw opened (passed_state _ v);
        too_many = λ bad. cc;
        invalid = λ _ other. rw opened (passed_status _ v other);
      }
  verifying at v false e =
      let shut = through w.settings at o v.limiter false e in
      record {
        state = rw shut (stopped_state _ v);
        too_many = λ _. rw shut (stopped_status _ v);
        invalid = λ bad. cc;
      }

  -- A call that verifies a code has the effect of the request `verifies`, with its code, its
  -- challenge and its caller, where the caller's slot of the bucket "login" has room in a running
  -- window of the configured length, or limits are off, and the code has 4 to 12 characters. Any
  -- other call leaves the rows, the mail and all else that the service stores as they are, and is
  -- answered 429 where there is no room, and 422 where there is and the length is wrong.
  pub dispatch-Verifies :
      (at : ℕ) (v : Server)
      → Verifies web w at o b v
          (has_room w.settings at (or_unknown (client_ip w.settings o.forwarded o.host)) v.limiter)
  dispatch-Verifies at v = verifying at v _ refl
