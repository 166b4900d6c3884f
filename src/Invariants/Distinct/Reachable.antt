-- ===== src/Invariants/Distinct/Reachable.antt =====
-- The states that the service reaches from an empty database.
use mxtng_auth_services.Common.{◌≡◌, refl, subst, List}
use mxtng_auth_services.Models.{Datetime}
use mxtng_auth_services.World.{World}
use mxtng_auth_services.Action.{State, init}
use mxtng_auth_services.Api.{Event, run}
use mxtng_auth_services.Invariants.Closed.AsSteps.{Closed-Steps, Keeps-start_challenge}
use mxtng_auth_services.Invariants.Steps.{Steps}
use mxtng_auth_services.Invariants.Steps.Requests.{run-Keeps, run-settled}
use mxtng_auth_services.Invariants.Distinct.Defs.{Unique}
use mxtng_auth_services.Invariants.Distinct.Writes.{Unique-Closed, add_challenge-Keeps}

pub Unique-Steps : {w : World} → Steps Unique w
Unique-Steps =
    Closed-Steps Unique-Closed
      λ y a ip. Keeps-start_challenge Unique-Closed y a ip add_challenge-Keeps

-- After any history of requests, with no transaction open.
pub record Reachable (w : World) (s : State) : Type 0 where
  pub started : Datetime
  pub history : List Event
  pub here : run w (init started) history ≡ s

pub Reachable-Unique : (w : World) (s : State) → Reachable w s → Unique s.committed
Reachable-Unique w s r =
    subst (λ (t : State). Unique t.committed) r.here
      (run-Keeps {P = Unique} w Unique-Steps (init r.started) r.history
        (record { tokens = tt; sessions = tt; challenges = tt; resets = tt; states = tt }) refl)

pub Reachable-settled : (w : World) (s : State) → Reachable w s → s.working ≡ s.committed
Reachable-settled w s r =
    subst (λ (t : State). t.working ≡ t.committed) r.here
      (run-settled w (init r.started) r.history refl)
