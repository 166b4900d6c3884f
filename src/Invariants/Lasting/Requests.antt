-- ===== src/Invariants/Lasting/Requests.antt =====
-- A run of the service keeps what lasts.
use mxtng_auth_services.Common.{◌≡◌, List}
use mxtng_auth_services.World.{World}
use mxtng_auth_services.Action.{State}
use mxtng_auth_services.Api.{Event, run}
use mxtng_auth_services.Invariants.Closed.AsSteps.{Closed-Steps, Keeps-start_challenge}
use mxtng_auth_services.Invariants.Steps.Requests.{run-Keeps}
use mxtng_auth_services.Invariants.Lasting.Defs.{Lasts, Lasts-refl}
use mxtng_auth_services.Invariants.Lasting.Writes.{Lasts-Closed, Keeps-add_challenge}

-- Whatever requests follow a state with no open transaction, in any order and however many of
-- them fail: every stored row is still stored, in its place and under the same keys; what was
-- revoked, rotated, consumed, used or disabled still is; and the audit trail has only grown.
pub run-Lasts :
    (w : World) (s : State) (es : List Event)
    → s.working ≡ s.committed
    → Lasts s.committed (run w s es).committed
run-Lasts w s es e =
    run-Keeps {P = Lasts s.committed} w
      (Closed-Steps Lasts-Closed
        λ y a ip. Keeps-start_challenge Lasts-Closed y a ip Keeps-add_challenge)
      s es (Lasts-refl s.committed) e
