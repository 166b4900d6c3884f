-- ===== src/Invariants/Mail.antt =====
-- Mail and webhooks write to no table, so they keep every invariant of the database.
use mxtng_auth_services.Common.{ℕ, zero, suc, String, Bool, List, [], ◌∷◌, not}
use mxtng_auth_services.World.{
  World, RenderedMessage, RelayRequest, HttpReply, response, http_error, invalid_url, SmtpReply,
  taken, smtp_error, bad_message, SmtpCommand, Event,
}
use mxtng_auth_services.Action.{Action, Delivery, when}
use mxtng_auth_services.Mail.{
  Attempt, delivered, undeliverable, Sent, relay, fallback, not_sent, record_deliveries,
  relay_reply, send_via_relay, smtp_outcome, send_via_fallback, send_fallback_after,
  unless_delivered, send, on_failure,
}
use mxtng_auth_services.Events.{
  note_post, posted, post_once, post_attempts, post_all, make_event, emit,
}
use mxtng_auth_services.Invariants.Keeps.{Keeps, keeps_rules, Keeps-bind, Keeps-when}
use mxtng_auth_services.Models.{Db, Credential}
use mxtng_auth_services.Services.Challenge.{mail_sign_in_code}

module _ {P : Db → Type 0} {w : World} where
  record_deliveries-Keeps : (ds : List Delivery) → Keeps P w (record_deliveries ds)
  unfolding record_deliveries
  record_deliveries-Keeps ds = record { at = λ s c h. (c, h) }

  relay_reply-Keeps :
      (request : RelayRequest) (reply : HttpReply) → Keeps P w (relay_reply request reply)
  unfolding relay_reply
  relay_reply-Keeps request (response status text) = search (keeps_rules, record_deliveries-Keeps)
  relay_reply-Keeps request (http_error reason) = search keeps_rules
  relay_reply-Keeps request invalid_url = search keeps_rules

  send_via_relay-Keeps :
      (to_email : String) (message : RenderedMessage) (purpose mode : String)
      → Keeps P w (send_via_relay to_email message purpose mode)
  unfolding send_via_relay
  send_via_relay-Keeps to_email message purpose mode =
      search (keeps_rules, relay_reply-Keeps) depth 9

  smtp_outcome-Keeps :
      (commands : List SmtpCommand) (reply : SmtpReply) → Keeps P w (smtp_outcome commands reply)
  unfolding smtp_outcome
  smtp_outcome-Keeps commands taken = search (keeps_rules, record_deliveries-Keeps)
  smtp_outcome-Keeps commands (smtp_error reason) = search keeps_rules
  smtp_outcome-Keeps commands bad_message = search keeps_rules

  send_via_fallback-Keeps :
      (to_email : String) (message : RenderedMessage)
      → Keeps P w (send_via_fallback to_email message)
  unfolding send_via_fallback
  send_via_fallback-Keeps to_email message = search (keeps_rules, smtp_outcome-Keeps)

  send_fallback_after-Keeps :
      (reason to_email : String) (message : RenderedMessage)
      → Keeps P w (send_fallback_after reason to_email message)
  unfolding send_fallback_after
  send_fallback_after-Keeps reason to_email message = search (keeps_rules, send_via_fallback-Keeps)

  unless_delivered-Keeps :
      (attempt : Attempt) (next : String → Action Sent)
      → ((reason : String) → Keeps P w (next reason))
      → Keeps P w (unless_delivered attempt next)
  unfolding unless_delivered
  unless_delivered-Keeps delivered next k = record { at = λ s c h. (c, h) }
  unless_delivered-Keeps (undeliverable reason) next k = record { at = (k reason).at }

  pub Keeps-send :
      (to_email : String) (message : RenderedMessage) (purpose mode : String)
      → Keeps P w (send to_email message purpose mode)
  unfolding send
  Keeps-send to_email message purpose mode =
      search (keeps_rules, send_via_relay-Keeps, unless_delivered-Keeps, send_fallback_after-Keeps)

  pub Keeps-mail_sign_in_code :
      (c : Credential) (code : String) → Keeps P w (mail_sign_in_code c code)
  unfolding mail_sign_in_code
  Keeps-mail_sign_in_code c code = search (keeps_rules, Keeps-send)

  pub Keeps-on_failure :
      (sent : Sent) (handler : String → Action (Unit {0}))
      → ((reason : String) → Keeps P w (handler reason))
      → Keeps P w (on_failure sent handler)
  unfolding on_failure
  Keeps-on_failure relay handler k = record { at = λ s c h. (c, h) }
  Keeps-on_failure fallback handler k = record { at = λ s c h. (c, h) }
  Keeps-on_failure (not_sent reason) handler k = record { at = (k reason).at }

  note_post-Keeps :
      (url : String) (event : Event) (accepted : Bool) → Keeps P w (note_post url event accepted)
  unfolding note_post
  note_post-Keeps url event accepted = record { at = λ s c h. (c, h) }

  posted-Keeps :
      (url : String) (event : Event) (reply : HttpReply) → Keeps P w (posted url event reply)
  unfolding posted
  posted-Keeps url event (response status text) = search (keeps_rules, note_post-Keeps)
  posted-Keeps url event (http_error reason) = search (keeps_rules, note_post-Keeps)
  posted-Keeps url event invalid_url = search keeps_rules

  post_once-Keeps : (url : String) (event : Event) → Keeps P w (post_once url event)
  unfolding post_once
  post_once-Keeps url event = search (keeps_rules, posted-Keeps)

  post_attempts-Keeps :
      (n : ℕ) (url : String) (event : Event) → Keeps P w (post_attempts n url event)
  unfolding post_attempts
  post_attempts-Keeps zero url event = search keeps_rules
  post_attempts-Keeps (suc n) url event =
      Keeps-bind (post_once url event) (λ accepted. when (not accepted) (post_attempts n url event))
        (post_once-Keeps url event)
        (λ accepted. Keeps-when (not accepted) _ (post_attempts-Keeps n url event))

  post_all-Keeps : (urls : List String) (event : Event) → Keeps P w (post_all urls event)
  unfolding post_all
  post_all-Keeps [] event = search keeps_rules
  post_all-Keeps (url ∷ urls) event =
      Keeps-bind (post_attempts 3 url event) (λ _. post_all urls event)
        (post_attempts-Keeps 3 url event) (λ _. post_all-Keeps urls event)

  make_event-Keeps :
      (event_type auth_user_id : String) (fields : List (String × String))
      → Keeps P w (make_event event_type auth_user_id fields)
  unfolding make_event
  make_event-Keeps event_type auth_user_id fields = search keeps_rules depth 8

  pub Keeps-emit :
      (event_type auth_user_id : String) (fields : List (String × String))
      → Keeps P w (emit event_type auth_user_id fields)
  unfolding emit
  Keeps-emit event_type auth_user_id fields = search (keeps_rules, make_event-Keeps, post_all-Keeps)
