-- ===== src/Action.antt =====
-- A request handler as an action on the state of the service. What was written before a raise
-- stays written in the transaction, so the state comes back beside the error too.
--
-- `working` is what the open transaction sees and `committed` what is stored; `now` is the clock,
-- which stands still while one request is handled. `draws` numbers the random draws, new row ids
-- and exchanges with other services. `bcrypt_calls` counts password checks, which dominate the
-- time of a request. `sent` is the mail that a server confirmed, read from what was
-- posted to it, and `posts` the webhook attempts, newest first.
pub mod Inversion
use mxtng_auth_services.Common.{
  ℕ, suc, String, Bool, true, false, Option, none, some, List, [], if◌then◌else◌,
}
use mxtng_auth_services.Errors.{Error, AuthError, auth, integrity_error}
use mxtng_auth_services.Models.{Datetime, Db, empty_db}
use mxtng_auth_services.World.{World}

-- A message that the relay or the fallback server accepted.
pub record Delivery : Type 0 where
  pub via_relay : Bool
  pub to_email : String
  pub text_body : String

-- One attempt to deliver an IdentityEvent to a receiver.
pub record Post : Type 0 where
  pub url : String
  pub event_id : String
  pub event_type : String
  pub accepted : Bool

pub record State : Type 0 where
  pub committed : Db
  pub working : Db
  pub now : Datetime
  pub draws : ℕ
  pub bcrypt_calls : ℕ
  pub sent : List Delivery
  pub posts : List Post

pub data Result {ℓ} (A : Type ℓ) : Type ℓ where
  ok : A → Result A
  err : Error → Result A

abbrev pub Action : Type 0 → Type 0
Action A = World → State → Result A × State

module _ {A : Type 0} where
  unfoldable pub pure : A → Action A
  pure a w s = (ok a, s)

  unfoldable pub throw : Error → Action A
  throw e w s = (err e, s)

  -- `raise` of an `AuthError`
  unfoldable pub raise : AuthError → Action A
  raise e w s = (err (auth e), s)

  unfoldable pub asks : (World → A) → Action A
  asks f w s = (ok (f w), s)

  -- A query on what the open transaction sees.
  unfoldable pub query : (Db → A) → Action A
  query f w s = (ok (f s.working), s)

  -- A value drawn afresh.
  unfoldable pub draw : (World → ℕ → A) → Action A
  draw f w s = (ok (f w s.draws), record s { draws = suc s.draws })

  -- The value of an option, or what happens without one.
  unfoldable pub or_else : Option A → Action A → Action A
  or_else none m w s = m w s
  or_else (some a) m w s = (ok a, s)

-- `if x is None: … else: …`
unfoldable pub on_option : {A B : Type 0} → Option A → Action B → (A → Action B) → Action B
on_option none m f w s = m w s
on_option (some a) m f w s = f a w s

unfoldable pub when : Bool → Action (Unit {0}) → Action (Unit {0})
when true m w s = m w s
when false m w s = (ok tt, s)

-- Writes in the open transaction.
unfoldable pub modify : (Db → Db) → Action (Unit {0})
modify f w s = (ok tt, record s { working = f s.working })

-- `_now()`
unfoldable pub now : Action Datetime
now w s = (ok s.now, s)

-- `db.commit()`
unfoldable pub commit : Action (Unit {0})
commit w s = (ok tt, record s { committed = s.working })

-- `db.rollback()`
unfoldable pub rollback : Action (Unit {0})
rollback w s = (ok tt, record s { working = s.committed })

-- A duplicate in a unique column makes the INSERT fail, at the flush or commit that follows it.
-- Nothing is stored between the two, so the model raises at once.
unfoldable pub unique : Bool → Action (Unit {0})
unfolding throw pure
unique taken = if taken then throw integrity_error else pure tt

-- What follows a result in the state that came with it.
abbrev pub continue : {A B : Type 0} → Result A → (A → Action B) → Action B
continue (ok a) f w s = f a w s
continue (err e) f w s = (err e, s)

-- Opening this opens the actions above too.
infixl 5 ◌>>=◌ ◌>>◌
unfoldable pub ◌>>=◌ : {A B : Type 0} → Action A → (A → Action B) → Action B
unfolding pure throw raise asks query draw or_else on_option when modify now commit rollback unique
◌>>=◌ m f w s = let (r, s') = m w s in continue r f w s'

abbrev pub ◌>>◌ : {A B : Type 0} → Action A → Action B → Action B
m >> k = m >>= λ _. k

-- The end of a request: the session is closed, which undoes what was not committed.
abbrev pub close : State → State
close s = record s { working = s.committed }

-- The service with an empty database.
abbrev pub init : Datetime → State
init t = record {
  committed = empty_db;
  working = empty_db;
  now = t;
  draws = 1;
  bcrypt_calls = 0;
  sent = [];
  posts = [];
}
