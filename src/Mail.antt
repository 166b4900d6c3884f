-- ===== src/Mail.antt =====
-- mail.py, delivery: the relay first, then the fallback server.
pub mod Render
pub mod Sending
use mxtng_auth_services.Common.{
  ℕ, ◌/◌, String, Bool, true, false, not, Option, none, some, List, [], ◌∷◌, ◌++◌, leb, truthy,
  if◌then◌else◌,
}
use mxtng_auth_services.Text.{concat, show, take}
use mxtng_auth_services.Settings.{Settings, fallback_smtp_enabled, reveal}
use mxtng_auth_services.World.{
  World, RenderedMessage, RelayRequest, HttpReply, response, http_error, invalid_url, SmtpReply,
  taken, smtp_error, bad_message, SmtpCommand, connect, starttls, login, send_message,
}
use mxtng_auth_services.Errors.{unhandled}
use mxtng_auth_services.Action.{Action, Delivery, throw, ok, pure, asks, draw, now, ◌>>=◌, ◌>>◌}

abbrev pub or_empty : Option String → String
or_empty none = ""
or_empty (some t) = t

-- How an attempt ended: `MailUndeliverable` carries its reason. An error of the HTTP client is
-- handled by `send` in the same way.
pub data Attempt : Type 0 where
  delivered : Attempt
  undeliverable : String → Attempt

-- `send` returns the path that it used, or raises `MailUndeliverable`.
pub data Sent : Type 0 where
  relay fallback : Sent
  not_sent : String → Sent

-- The body of the request.
unfoldable pub relay_body : World → String → RenderedMessage → String → String → String
relay_body w to_email message purpose mode = w.json_dumps (
    ("to_email", to_email)
    ∷ ("subject", message.subject)
    ∷ ("html_body", message.html_body)
    ∷ ("text_body", message.text_body)
    ∷ ("purpose", purpose)
    ∷ ("mode", mode)
    ∷ [])

-- `_sign`, once the secret is known.
unfoldable pub signature : World → String → String → String → String
signature w secret body timestamp =
    concat ("sha256=" ∷ w.hmac_sha256_hex secret (concat (timestamp ∷ "." ∷ body ∷ [])) ∷ [])

-- A server confirmed the messages.
unfoldable pub record_deliveries : List Delivery → Action (Unit {0})
record_deliveries deliveries w s = (ok tt, record s { sent = deliveries ++ s.sent })

-- The messages among the commands of a connection.
unfoldable pub messages_of : List SmtpCommand → List Delivery
messages_of [] = []
messages_of (send_message m ∷ commands) =
    record { via_relay = false; to_email = m.to; text_body = m.text_content } ∷ messages_of commands
messages_of (connect _ _ ∷ commands) = messages_of commands
messages_of (starttls ∷ commands) = messages_of commands
messages_of (login _ _ ∷ commands) = messages_of commands

-- What the reply to this request means.
unfoldable pub relay_reply : RelayRequest → HttpReply → Action Attempt
relay_reply request invalid_url = throw unhandled
relay_reply request (http_error reason) = pure (undeliverable reason)
relay_reply request (response status text) =
    if leb 300 status
    then pure
        (undeliverable (concat ("Relay returned HTTP " ∷ show status ∷ ": " ∷ take 200 text ∷ [])))
    else (record_deliveries (
          record {
            via_relay = true;
            to_email = request.to_email;
            text_body = request.message.text_body;
          }
          ∷ [])
        >> pure delivered)

-- `_send_via_relay`
unfoldable pub send_via_relay : String → RenderedMessage → String → String → Action Attempt
send_via_relay to_email message purpose mode = do
  w ← asks (λ w. w)
  at ← now
  let url = w.settings.mail_relay_url
  let secret = reveal w.settings.mail_relay_secret
  let timestamp = show (at / 1000000)
  let body = relay_body w to_email message purpose mode
  let request : RelayRequest = record {
    to_email = to_email;
    message = message;
    purpose = purpose;
    mode = mode;
    timestamp = timestamp;
    signature = signature w (or_empty secret) body timestamp;
  }
  if not (truthy url)
      then pure (undeliverable "No mail relay configured")
      else if not (truthy secret)
      then pure (undeliverable "MAIL_RELAY_SECRET is not configured")
      else (do
        reply ← draw (λ w n. w.post_relay n (or_empty url) request)
        relay_reply request reply)

-- The commands of `_send_smtp_blocking`, in their order.
unfoldable pub smtp_commands : Settings → String → RenderedMessage → List SmtpCommand
smtp_commands cfg to_email message =
    connect (or_empty cfg.fallback_smtp_host) cfg.fallback_smtp_port
    ∷ ((if cfg.fallback_smtp_use_tls then starttls ∷ [] else [])
        ++ ((if truthy cfg.fallback_smtp_username
              then login (or_empty cfg.fallback_smtp_username)
                  (or_empty (reveal cfg.fallback_smtp_password))
                ∷ []
              else [])
            ++ send_message (record {
              subject = message.subject;
              from_ = concat (cfg.mail_from_name ∷ " <" ∷ cfg.mail_from_email ∷ ">" ∷ []);
              to = to_email;
              text_content = message.text_body;
              html_alternative = message.html_body;
            })
              ∷ []))

-- What became of these commands.
unfoldable pub smtp_outcome : List SmtpCommand → SmtpReply → Action Attempt
smtp_outcome commands bad_message = throw unhandled
smtp_outcome commands taken = record_deliveries (messages_of commands) >> pure delivered
smtp_outcome commands (smtp_error reason) =
    pure (undeliverable (concat ("Fallback SMTP failed: " ∷ reason ∷ [])))

-- `_send_via_fallback`
unfoldable pub send_via_fallback : String → RenderedMessage → Action Attempt
send_via_fallback to_email message = do
  w ← asks (λ w. w)
  if not (fallback_smtp_enabled w.settings)
      then pure (undeliverable "No fallback SMTP configured")
      else (do
        let commands = smtp_commands w.settings to_email message
        reply ← draw (λ w n. w.smtp n commands)
        smtp_outcome commands reply)

unfoldable pub fallback_outcome : String → Attempt → Sent
fallback_outcome relay_error delivered = fallback
fallback_outcome relay_error (undeliverable reason) =
    not_sent (concat ("relay failed (" ∷ relay_error ∷ "); fallback failed (" ∷ reason ∷ ")" ∷ []))

-- The second half of `send`, with the relay's error at hand.
unfoldable pub send_fallback_after : String → String → RenderedMessage → Action Sent
send_fallback_after relay_error to_email message = do
  attempt ← send_via_fallback to_email message
  pure (fallback_outcome relay_error attempt)

-- `return "relay"`, or the `except` clause of `send`.
unfoldable pub unless_delivered : Attempt → (String → Action Sent) → Action Sent
unless_delivered delivered next w s = (ok relay, s)
unless_delivered (undeliverable reason) next w s = next reason w s

unfoldable pub send : String → RenderedMessage → String → String → Action Sent
send to_email message purpose mode = do
  attempt ← send_via_relay to_email message purpose mode
  unless_delivered attempt (λ reason. send_fallback_after reason to_email message)

-- `except mail.MailUndeliverable as exc`, around a `send`.
unfoldable pub on_failure : Sent → (String → Action (Unit {0})) → Action (Unit {0})
on_failure relay handler w s = (ok tt, s)
on_failure fallback handler w s = (ok tt, s)
on_failure (not_sent reason) handler w s = handler reason w s
