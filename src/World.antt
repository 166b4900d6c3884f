-- ===== src/World.antt =====
-- What the service relies on and does not implement: cryptography, randomness, the mail relay, the
-- SMTP server and the webhook receivers, each a function that a deployment supplies. Where an
-- answer may differ from call to call, the function takes the number of the draw.
use mxtng_auth_services.Common.{ℕ, String, Bool, Option, List}
use mxtng_auth_services.Models.{Datetime}
use mxtng_auth_services.Settings.{Settings}

-- mail.py, `RenderedMessage`
pub record RenderedMessage : Type 0 where
  pub subject : String
  pub html_body : String
  pub text_body : String

-- The message that `_send_smtp_blocking` builds.
pub record EmailMessage : Type 0 where
  pub subject : String
  pub from_ : String
  pub to : String
  pub text_content : String
  pub html_alternative : String

-- What the client sends over a connection to the fallback server.
pub data SmtpCommand : Type 0 where
  connect : String → ℕ → SmtpCommand
  starttls : SmtpCommand
  login : String → String → SmtpCommand
  send_message : EmailMessage → SmtpCommand

-- The signed request that `_send_via_relay` posts.
pub record RelayRequest : Type 0 where
  pub to_email : String
  pub message : RenderedMessage
  pub purpose : String
  pub mode : String
  pub timestamp : String
  pub signature : String

-- events.py, the event and the headers that go with it
pub record Event : Type 0 where
  pub id : String
  pub event_type : String
  pub auth_user_id : String
  pub body : String
  pub timestamp : String
  pub signature : String

-- An HTTP exchange: a reply with its status and text, an `httpx.HTTPError`, after which the server
-- may or may not have had the request, or the `httpx.InvalidURL` of a malformed URL, which is no
-- HTTPError and is raised before anything is posted.
pub data HttpReply : Type 0 where
  response : ℕ → String → HttpReply
  http_error : String → HttpReply
  invalid_url : HttpReply

-- An SMTP connection: the server took the message, it ended with an SMTPException or an OSError, or
-- the message could not be built, since a line break in a header is a ValueError.
pub data SmtpReply : Type 0 where
  taken : SmtpReply
  smtp_error : String → SmtpReply
  bad_message : SmtpReply

-- The claims of an access token (tokens.py); `sid` is left out when there is no session.
pub record Claims : Type 0 where
  pub iss : String
  pub sub : String
  pub aud : List String
  pub email : String
  pub token_use : String
  pub iat : ℕ
  pub nbf : ℕ
  pub exp : ℕ
  pub sid : Option String

-- The claim `email_verified` of a Google ID token: a bool, a text, or neither.
pub data EmailVerified : Type 0 where
  flag : Bool → EmailVerified
  text : String → EmailVerified
  absent : EmailVerified

-- The claims of a Google ID token whose signature, issuer and audience were verified.
pub record GoogleClaims : Type 0 where
  pub email : Option String
  pub sub : Option String
  pub email_verified : EmailVerified

-- `hashpw` and `checkpw` answer `none` for a ValueError; `smtp` runs the
-- commands of a connection;
-- `verify_google` trades an authorization code for the verified claims, or `none` for any failure.
pub record World : Type 0 where
  pub settings : Settings
  pub sha256_hex : String → String
  pub hmac_sha256_hex : String → String → String
  pub json_dumps : List (String × String) → String
  pub hashpw : String → ℕ → Option String
  pub checkpw : String → String → Option Bool
  pub token_urlsafe : ℕ → String
  pub uuid4 : ℕ → String
  pub randbelow : ℕ → ℕ → ℕ
  pub sign : Claims → String
  pub html_escape : String → String
  pub utc_stamp : Datetime → String
  pub isoformat : Datetime → String
  pub post_relay : ℕ → String → RelayRequest → HttpReply
  pub post_event : ℕ → String → Event → HttpReply
  pub verify_google : ℕ → String → Option GoogleClaims
  pub smtp : ℕ → List SmtpCommand → SmtpReply
