-- ===== src/Events.antt =====
-- events.py: IdentityEvents to the registered receivers, signed, with three attempts for each.
pub mod Attempts
use mxtng_auth_services.Common.{
  ℕ, zero, suc, ◌/◌, String, Bool, false, not, ◌||◌, List, [], ◌∷◌, ltb, truthy, if◌then◌else◌,
}
use mxtng_auth_services.Text.{show}
use mxtng_auth_services.Settings.{reveal, nonempty}
use mxtng_auth_services.Errors.{unhandled}
use mxtng_auth_services.World.{Event, HttpReply, response, http_error, invalid_url}
use mxtng_auth_services.Mail.{or_empty, signature}
use mxtng_auth_services.Action.{Action, throw, when, ok, pure, asks, draw, now, ◌>>=◌, ◌>>◌}

abbrev pub email_changed : String
email_changed = "email.changed"

abbrev pub account_disabled : String
account_disabled = "account.disabled"

-- An attempt that was made, in the log.
unfoldable pub note_post : String → Event → Bool → Action (Unit {0})
note_post url event accepted w s = (
  ok tt,
  record s {
    posts =
        record {
          url = url;
          event_id = event.id;
          event_type = event.event_type;
          accepted = accepted;
        }
        ∷ s.posts;
  },
)

-- Whether the receiver accepted the event, `resp.status_code < 300`. An `httpx.HTTPError` is caught
-- and counts as a failure; an `httpx.InvalidURL` is not caught.
unfoldable pub posted : String → Event → HttpReply → Action Bool
posted url event (response status _) = note_post url event (ltb status 300) >> pure (ltb status 300)
posted url event (http_error _) = note_post url event false >> pure false
posted url event invalid_url = throw unhandled

-- One POST of the event, and whether it was accepted.
unfoldable pub post_once : String → Event → Action Bool
post_once url event = do reply ← draw (λ w n. w.post_event n url event); posted url event reply

-- `for attempt in range(n)`, which ends at the first success.
unfoldable pub post_attempts : ℕ → String → Event → Action (Unit {0})
post_attempts zero url event = pure tt
post_attempts (suc n) url event = do
  accepted ← post_once url event
  when (not accepted) (post_attempts n url event)

unfoldable pub post_all : List String → Event → Action (Unit {0})
post_all [] event = pure tt
post_all (url ∷ urls) event = post_attempts 3 url event >> post_all urls event

-- The event with the fields of its JSON body; `data` is given as the text of its object.
unfoldable pub make_event : String → String → List (String × String) → Action Event
make_event event_type auth_user_id fields = do
  id ← draw (λ w n. w.uuid4 n)
  at ← now
  w ← asks (λ w. w)
  let body = w.json_dumps (
      ("id", id)
      ∷ ("type", event_type)
      ∷ ("auth_user_id", auth_user_id)
      ∷ ("occurred_at", w.isoformat at)
      ∷ ("data", w.json_dumps fields)
      ∷ [])
  let timestamp = show (at / 1000000)
  pure (record {
    id = id;
    event_type = event_type;
    auth_user_id = auth_user_id;
    body = body;
    timestamp = timestamp;
    signature = signature w (or_empty (reveal w.settings.webhook_secret)) body timestamp;
  })

unfoldable pub emit : String → String → List (String × String) → Action (Unit {0})
emit event_type auth_user_id fields = do
  cfg ← asks (λ w. w.settings)
  if not (nonempty cfg.webhook_endpoints) || not (truthy (reveal cfg.webhook_secret))
      then pure tt
      else (do
        event ← make_event event_type auth_user_id fields
        post_all cfg.webhook_endpoints event)
