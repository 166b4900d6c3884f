-- ===== src/Invariants/Keeps.antt =====
-- What an action does to an invariant of the database, one rule for each way to build an action.
-- An action that returns keeps the invariant of the stored rows and of the open transaction; one
-- that raises keeps that of the stored rows, since the transaction is then undone.
use mxtng_auth_services.Common.{◌≡◌, subst, ℕ, Bool, true, false, Option, none, some, if◌then◌else◌}
use mxtng_auth_services.Errors.{Error, AuthError}
use mxtng_auth_services.Models.{Db}
use mxtng_auth_services.World.{World}
use mxtng_auth_services.Action.{
  Action, State, Result, ok, err, pure, throw, raise, asks, query, draw, or_else, on_option, when,
  modify, now, commit, rollback, unique, continue, ◌>>=◌,
}

abbrev pub Outcome : {A : Type 0} → (Db → Type 0) → Result A × State → Type 0
Outcome P (ok _, s) = P s.committed × P s.working
Outcome P (err _, s) = P s.committed

pub record Keeps {A : Type 0} (P : Db → Type 0) (w : World) (m : Action A) : Type 0 where
  pub at : (s : State) → P s.committed → P s.working → Outcome P (m w s)

module _ {A : Type 0} {P : Db → Type 0} {w : World} where
  pub Keeps-pure : (a : A) → Keeps P w (pure a)
  unfolding pure
  Keeps-pure a = record { at = λ s c h. (c, h) }

  pub Keeps-throw : (e : Error) → Keeps P w (throw {A = A} e)
  unfolding throw
  Keeps-throw e = record { at = λ s c h. c }

  pub Keeps-raise : (e : AuthError) → Keeps P w (raise {A = A} e)
  unfolding raise
  Keeps-raise e = record { at = λ s c h. c }

  pub Keeps-asks : (f : World → A) → Keeps P w (asks f)
  unfolding asks
  Keeps-asks f = record { at = λ s c h. (c, h) }

  pub Keeps-query : (f : Db → A) → Keeps P w (query f)
  unfolding query
  Keeps-query f = record { at = λ s c h. (c, h) }

  pub Keeps-draw : (f : World → ℕ → A) → Keeps P w (draw f)
  unfolding draw
  Keeps-draw f = record { at = λ s c h. (c, h) }

  pub Keeps-if :
      (b : Bool) (m n : Action A) → Keeps P w m → Keeps P w n → Keeps P w (if b then m else n)
  Keeps-if true m n km kn = km
  Keeps-if false m n km kn = kn

  pub Keeps-or_else : (o : Option A) (m : Action A) → Keeps P w m → Keeps P w (or_else o m)
  unfolding or_else
  Keeps-or_else none m k = record { at = k.at }
  Keeps-or_else (some a) m k = record { at = λ s c h. (c, h) }

module _ {P : Db → Type 0} {w : World} where
  pub Keeps-now : Keeps P w now
  unfolding now
  Keeps-now = record { at = λ s c h. (c, h) }

  pub Keeps-commit : Keeps P w commit
  unfolding commit
  Keeps-commit = record { at = λ s c h. (h, h) }

  pub Keeps-rollback : Keeps P w rollback
  unfolding rollback
  Keeps-rollback = record { at = λ s c h. (c, c) }

  pub Keeps-unique : (b : Bool) → Keeps P w (unique b)
  unfolding unique
  Keeps-unique true = record { at = λ s c h. c }
  Keeps-unique false = record { at = λ s c h. (c, h) }

  pub Keeps-modify : (f : Db → Db) → ((db : Db) → P db → P (f db)) → Keeps P w (modify f)
  unfolding modify
  Keeps-modify f k = record { at = λ s c h. (c, k s.working h) }

  pub Keeps-when : (b : Bool) (m : Action (Unit {0})) → Keeps P w m → Keeps P w (when b m)
  unfolding when
  Keeps-when true m k = record { at = k.at }
  Keeps-when false m k = record { at = λ s c h. (c, h) }

module _ {A B : Type 0} {P : Db → Type 0} {w : World} where
  pub Keeps-on_option :
      (o : Option A) (m : Action B) (f : A → Action B)
      → Keeps P w m
      → ((a : A) → Keeps P w (f a))
      → Keeps P w (on_option o m f)
  unfolding on_option
  Keeps-on_option none m f km kf = record { at = km.at }
  Keeps-on_option (some a) m f km kf = record { at = (kf a).at }

  continue-Outcome :
      (r : Result A) (s : State) (f : A → Action B)
      → Outcome P (r, s)
      → ((a : A) → Keeps P w (f a))
      → Outcome P (continue r f w s)
  continue-Outcome (ok a) s f h kf = (kf a).at s h.0 h.1
  continue-Outcome (err e) s f h kf = h

  pub Keeps-bind :
      (m : Action A) (f : A → Action B)
      → Keeps P w m
      → ((a : A) → Keeps P w (f a))
      → Keeps P w (m >>= f)
  unfolding ◌>>=◌
  Keeps-bind m f km kf = record {
    at = λ s c h. let (r, s') = m w s in continue-Outcome r s' f (km.at s c h) kf;
  }

pub ruleset keeps_rules = (
  Keeps-pure, Keeps-throw, Keeps-raise, Keeps-asks, Keeps-query, Keeps-draw, Keeps-if,
  Keeps-or_else, Keeps-now, Keeps-commit, Keeps-rollback, Keeps-unique, Keeps-when, Keeps-on_option,
  Keeps-bind,
)

-- What an action that returned has kept.
pub Keeps-returned :
    {A : Type 0} {P : Db → Type 0} {w : World} (m : Action A) (s s' : State) (a : A)
    → Keeps P w m
    → m w s ≡ (ok a, s')
    → P s.committed
    → P s.working
    → P s'.committed × P s'.working
Keeps-returned {P} m s s' a k e c h = subst (Outcome P) e (k.at s c h)
