-- ===== src/Mail/Sending.antt =====
-- What `send` promises its callers.
use mxtng_auth_services.Common.{◌≡◌, ℕ, String, Bool, true, false, List, [], ◌∷◌, ◌++◌}
use mxtng_auth_services.Settings.{Settings}
use mxtng_auth_services.World.{
  World, RenderedMessage, RelayRequest, HttpReply, response, http_error, invalid_url, SmtpReply,
  taken, smtp_error, bad_message, SmtpCommand,
}
use mxtng_auth_services.Action.{Action, ok, State, Delivery}
use mxtng_auth_services.Mail.{
  Attempt, delivered, undeliverable, Sent, relay, fallback, not_sent, or_empty,
}

-- The mail that a server confirmed with this outcome.
abbrev pub mailed : Sent → String → RenderedMessage → List Delivery
mailed relay to m = record { via_relay = true; to_email = to; text_body = m.text_body } ∷ []
mailed fallback to m = record { via_relay = false; to_email = to; text_body = m.text_body } ∷ []
mailed (not_sent reason) to m = []

abbrev pub attempted : Bool → Attempt → String → RenderedMessage → List Delivery
attempted via_relay delivered to m =
    record { via_relay = via_relay; to_email = to; text_body = m.text_body } ∷ []
attempted via_relay (undeliverable reason) to m = []

abbrev pub is_posted : HttpReply → Bool
is_posted invalid_url = false
is_posted (response _ _) = true
is_posted (http_error _) = true

abbrev pub is_built : SmtpReply → Bool
is_built bad_message = false
is_built taken = true
is_built (smtp_error _) = true

-- No request to the relay has a malformed URL, and every message can be built.
pub record Posted (w : World) : Type 0 where
  pub relayed :
      (n : ℕ) (r : RelayRequest)
      → is_posted (w.post_relay n (or_empty w.settings.mail_relay_url) r) ≡ true
  pub built : (n : ℕ) (commands : List SmtpCommand) → is_built (w.smtp n commands) ≡ true

-- An attempt that answered, and the mail that it let out.
record Tried (m : Action Attempt) (via_relay : Bool) (to : String) (message : RenderedMessage)
    (w : World) (s : State) : Type 0 where
  answer : Attempt
  result : (m w s).0 ≡ ok answer
  sent : (m w s).1.sent ≡ attempted via_relay answer to message ++ s.sent

module _ (to : String) (message : RenderedMessage) (w : World) where
  -- `send` came back with an outcome, and let out the mail of it.
  pub record Delivers (m : Action Sent) (s : State) (old : List Delivery) : Type 0 where
    pub outcome : Sent
    pub result : (m w s).0 ≡ ok outcome
    pub mails : (m w s).1.sent ≡ mailed outcome to message ++ old
