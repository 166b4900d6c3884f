-- ===== src/Lib.antt =====
-- MXTNG Auth Services: the identity service of src/mxtng_auth, a FastAPI application over a
-- relational database. It signs people up, authenticates them in two steps (a password or Google,
-- then a code sent by mail), keeps one live session per account, and issues access and refresh
-- tokens.
--
-- The parts, and the file of src/mxtng_auth that each models:
--   Settings (settings.py), Models (models.py), Errors (the AuthError classes of services.py),
--   Security (security.py), Tokens (tokens.py), Mail and Mail.Render (mail.py), Events
--   (events.py), Google (google.py), Ratelimit (ratelimit.py), Services with a child for each
--   section of services.py, Signer and Base64 (signer.py), Schemas (schemas.py), Api and Endpoint
--   (api.py), App (main.py), and Migrations (the
--   revisions of migrations/versions). A definition has the name of the function it models;
--   a long function is split into pieces, which the comment above each piece explains.
-- World holds what the service calls and does not implement, as functions of a deployment: the
-- hashes, bcrypt, random values, the signer, JSON, the relay, the SMTP server, the webhook
-- receivers and Google. Nothing is assumed of them unless a theorem says so.
-- Action is a request handler: a function of the World and the State to a result or an error and
-- the state that comes with it. The State has the stored rows and those the open transaction sees;
-- `db.commit()` copies the second to the first, and the end of a request (db.py, get_db) drops
-- what was not committed. A row that an insert or an assignment names is found by its key; the
-- unique columns are checked at the insert.
-- Api.handle is one request, Api.serve one request with the end of its transaction, and Api.run a
-- history of requests and of time that goes by. Endpoint.Calls is a call over HTTP: the ceiling of
-- its route, the validation of its body, the request of Api and the answer. Requests run one after
-- another: transactions that interleave are not modelled. An exception that no code expects, such
-- as the httpx.InvalidURL of a malformed URL, is the error `unhandled`.
--
-- Proofs stand below what they are about (Services.Login.Outcomes, Api.Lockout, Ratelimit.Bounds),
-- and those on whole histories in Invariants: Keeps and Leads are rules for each way to build an
-- action; Steps and Closed lift what the services, or the single writes, keep to whole requests;
-- OneSession, OneChallenge, Lasting and Distinct are four invariants of the database.
-- Tests is a deployment with toy cryptography and the examples.
--
-- Bounds: a time is a natural number of microseconds, so that an interval in seconds is a multiple
-- of 1,000,000. Where the source compares a difference of times, the model moves the sides so that
-- nothing is subtracted. Text.show, the decimal digits of a number, runs on fuel: the number plus
-- one, which is at least the count of its digits. events.emit tries each receiver three times, as
-- the source does, and the model's recursion is on that number.
--
-- Not modelled: the classes of FastAPI's and Starlette's middleware, pydantic's check of an address,
-- RSA and PyJWT (parameters of Signer), the exchange with the servers, logging inside the services,
-- and the setup of Alembic (migrations/env.py). `lower` and `strip` of Text are exact on ASCII.
pub mod Common
pub mod Text
pub mod Settings
pub mod Models
pub mod Errors
pub mod World
pub mod Action
pub mod Security
pub mod Tokens
pub mod Mail
pub mod Events
pub mod Google
pub mod Services
pub mod Api
pub mod Ratelimit
pub mod Invariants
pub mod Base64
pub mod Signer
pub mod App
pub mod Schemas
pub mod Endpoint
pub mod Migrations
pub mod Tests
