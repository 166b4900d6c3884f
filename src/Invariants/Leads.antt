-- ===== src/Invariants/Leads.antt =====
-- What an action leads to: from stored rows that satisfy `P` and an open transaction that satisfies
-- `Pre`, an action that returns leaves a transaction that satisfies its postcondition, and one
-- that raises leaves stored rows that satisfy `P`.
use mxtng_auth_services.Models.{Db}
use mxtng_auth_services.World.{World}
use mxtng_auth_services.Action.{
  Action, State, Result, ok, err, continue, pure, raise, draw, now, asks, query, when, or_else,
  ◌>>=◌,
}
use mxtng_auth_services.Invariants.Keeps.{Keeps, Outcome}
use mxtng_auth_services.Common.{ℕ, ◌≡◌, refl, Bool, true, false, Option, none, some}
use mxtng_auth_services.Errors.{AuthError}

abbrev pub Reached : {A : Type 0} → (Db → Type 0) → (A → Db → Type 0) → Result A × State → Type 0
Reached P Q (ok a, s) = P s.committed × Q a s.working
Reached P Q (err _, s) = P s.committed

pub record Leads {A : Type 0} (P Pre : Db → Type 0) (Q : A → Db → Type 0) (w : World) (m : Action A)
    : Type 0 where
  pub at : (s : State) → P s.committed → Pre s.working → Reached P Q (m w s)

module _ {A B : Type 0} {P : Db → Type 0} {w : World} where
  continue-Reached :
      (Q : A → Db → Type 0) (R : B → Db → Type 0) (r : Result A) (s : State) (f : A → Action B)
      → Reached P Q (r, s)
      → ((a : A) → Leads P (Q a) R w (f a))
      → Reached P R (continue r f w s)
  continue-Reached Q R (ok a) s f h kf = (kf a).at s h.0 h.1
  continue-Reached Q R (err e) s f h kf = h

  pub Leads-bind :
      (Pre : Db → Type 0) (Q : A → Db → Type 0) (R : B → Db → Type 0) (m : Action A)
      (f : A → Action B)
      → Leads P Pre Q w m
      → ((a : A) → Leads P (Q a) R w (f a))
      → Leads P Pre R w (m >>= f)
  unfolding ◌>>=◌
  Leads-bind Pre Q R m f km kf = record {
    at = λ s c h. let (r, s') = m w s in continue-Reached Q R r s' f (km.at s c h) kf;
  }

module _ {A B : Type 0} {P Pre : Db → Type 0} {w : World} where
  -- Drawing a value, reading the clock or the deployment changes no row.
  pub Leads-draw :
      (R : B → Db → Type 0) (g : World → ℕ → A) (f : A → Action B)
      → ((n : ℕ) → Leads P Pre R w (f (g w n)))
      → Leads P Pre R w (draw g >>= f)
  unfolding ◌>>=◌
  Leads-draw R g f k = record { at = λ s c h. (k s.draws).at _ c h }

  pub Leads-asks :
      (R : B → Db → Type 0) (g : World → A) (f : A → Action B)
      → Leads P Pre R w (f (g w))
      → Leads P Pre R w (asks g >>= f)
  unfolding ◌>>=◌
  Leads-asks R g f k = record { at = λ s c h. k.at s c h }

module _ {B : Type 0} {P Pre : Db → Type 0} {w : World} where
  pub Leads-now :
      (R : B → Db → Type 0) (f : ℕ → Action B)
      → ((t : ℕ) → Leads P Pre R w (f t))
      → Leads P Pre R w (now >>= f)
  unfolding ◌>>=◌
  Leads-now R f k = record { at = λ s c h. (k s.now).at s c h }

Reached-Outcome :
    {A : Type 0} (P : Db → Type 0) (r : Result A × State) → Reached P (λ _. P) r → Outcome P r
Reached-Outcome P (ok a, s) h = h
Reached-Outcome P (err e, s) h = h

pub Leads-Keeps :
    {A : Type 0} {P : Db → Type 0} {w : World} {m : Action A} → Leads P P (λ _. P) w m → Keeps P w m
Leads-Keeps {P} {w} {m} k = record { at = λ s c h. Reached-Outcome P (m w s) (k.at s c h) }

Outcome-Reached :
    {A : Type 0} (P : Db → Type 0) (r : Result A × State) → Outcome P r → Reached P (λ _. P) r
Outcome-Reached P (ok a, s) h = h
Outcome-Reached P (err e, s) h = h

pub Keeps-Leads :
    {A : Type 0} {P : Db → Type 0} {w : World} {m : Action A} → Keeps P w m → Leads P P (λ _. P) w m
Keeps-Leads {P} {w} {m} k = record { at = λ s c h. Outcome-Reached P (m w s) (k.at s c h) }

-- The guards of a request: a test that raises, a row that may be missing, a query.
module _ {A B : Type 0} {P Pre : Db → Type 0} {w : World} where
  pub Leads-query :
      (R : B → Db → Type 0) (g : Db → A) (f : A → Action B)
      → ((v : A) → Leads P (λ db. Pre db × (g db ≡ v)) R w (f v))
      → Leads P Pre R w (query g >>= f)
  unfolding ◌>>=◌
  Leads-query R g f k = record { at = λ s c h. (k (g s.working)).at s c (h, refl) }

  pub Leads-or_else :
      (R : B → Db → Type 0) (o : Option A) (m : Action A) (f : A → Action B)
      → Leads P Pre (λ _ _. ⊥) w m
      → ((a : A) → o ≡ some a → Leads P Pre R w (f a))
      → Leads P Pre R w (or_else o m >>= f)
  unfolding ◌>>=◌
  Leads-or_else R none m f km k =
      Leads-bind Pre (λ _ _. ⊥) R m f km (λ _. record { at = λ s c h. absurd h })
  Leads-or_else R (some a) m f km k = record { at = λ s c h. (k a refl).at s c h }

module _ {B : Type 0} {P Pre : Db → Type 0} {w : World} where
  pub Leads-refuse :
      (R : B → Db → Type 0) (b : Bool) (m : Action (Unit {0})) (f : Unit {0} → Action B)
      → Leads P Pre (λ _ _. ⊥) w m
      → (b ≡ false → Leads P Pre R w (f tt))
      → Leads P Pre R w (when b m >>= f)
  unfolding ◌>>=◌
  Leads-refuse R true m f km kf =
      Leads-bind Pre (λ _ _. ⊥) R m f km (λ _. record { at = λ s c h. absurd h })
  Leads-refuse R false m f km kf = record { at = λ s c h. (kf refl).at s c h }

module _ {A : Type 0} {P Pre : Db → Type 0} {w : World} where
  pub Leads-raise : (Q : A → Db → Type 0) (e : AuthError) → Leads P Pre Q w (raise e)
  unfolding raise
  Leads-raise Q e = record { at = λ s c h. c }

  pub Leads-pure :
      (R : A → Db → Type 0) (a : A) → ((db : Db) → Pre db → R a db) → Leads P Pre R w (pure a)
  unfolding pure
  Leads-pure R a k = record { at = λ s c h. (c, k s.working h) }

pub Leads-weaken :
    {A : Type 0} {P Pre Pre' : Db → Type 0} {Q : A → Db → Type 0} {w : World} {m : Action A}
    → ((db : Db) → Pre db → Pre' db)
    → Leads P Pre' Q w m
    → Leads P Pre Q w m
Leads-weaken f k = record { at = λ s c h. k.at s c (f s.working h) }
