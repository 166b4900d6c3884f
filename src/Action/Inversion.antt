-- ===== src/Action/Inversion.antt =====
-- An action that returned: each of its steps returned.
use mxtng_auth_services.Common.{◌≡◌, refl, arith}
use mxtng_auth_services.World.{World}
use mxtng_auth_services.Action.{Action, State, Result, ok, err, continue, ◌>>=◌}

-- Both sides of a bind that returned.
pub record Returned {A B : Type 0} (m : Action A) (f : A → Action B) (w : World) (s : State) (b : B)
    (s' : State) : Type 0 where
  pub value : A
  pub between : State
  pub first : m w s ≡ (ok value, between)
  pub second : f value w between ≡ (ok b, s')

module _ {A B : Type 0} where
  continue-Returned :
      (m : Action A) (f : A → Action B) (w : World) (s : State) (b : B) (s' : State) (r : Result A)
      (s1 : State)
      → m w s ≡ (r, s1)
      → continue r f w s1 ≡ (ok b, s')
      → Returned m f w s b s'
  continue-Returned m f w s b s' (ok a) s1 e h = record {
    value = a;
    between = s1;
    first = e;
    second = h;
  }
  continue-Returned m f w s b s' (err x) s1 e h = ground arith

  pub bind-Returned :
      (m : Action A) (f : A → Action B) (w : World) (s : State) (b : B) (s' : State)
      → (m >>= f) w s ≡ (ok b, s')
      → Returned m f w s b s'
  unfolding ◌>>=◌
  bind-Returned m f w s b s' h = let (r, s1) = m w s in continue-Returned m f w s b s' r s1 refl h
