-- ===== src/Tests/Limits.antt =====
-- The limiter at work: the theorems on rate limits applied to one caller.
use mxtng_auth_services.Common.{◌≤◌, ◌≡◌, refl, true, arith, none, some, List, [], ◌∷◌}
use mxtng_auth_services.Ratelimit.{hit, reset, rate_limit, keep_running}
use mxtng_auth_services.Ratelimit.Bounds.{
  Hit, allowed, window-bound, hit_lem, rate_limit-ignores_header,
}
use mxtng_auth_services.Tests.{demo_settings}

-- Three more requests of the caller and one of another within the minute.
abbrev burst : List Hit
burst =
    record { at = 61000000; bucket = "login"; key = "1.2.3.4" }
    ∷ record { at = 62000000; bucket = "login"; key = "5.6.7.8" }
    ∷ record { at = 63000000; bucket = "login"; key = "1.2.3.4" }
    ∷ record { at = 64000000; bucket = "login"; key = "1.2.3.4" }
    ∷ []

window-bound_example :
    allowed
      (λ _. 2)
      60
      "login"
      "1.2.3.4"
      (record { at = 60000000; bucket = "login"; key = "1.2.3.4" } ∷ burst)
      reset
    ≤ 2
unfolding reset keep_running
window-bound_example =
    window-bound (λ _. 2) 60 "login" "1.2.3.4" 60000000 burst reset refl
      (omega arith, (omega arith, (omega arith, (omega arith, tt))))

hit_lem_example :
    ((hit 60000000 "login" "1.2.3.4" 1 60 reset).0 ≡ true)
    × ((hit 60000000 "login" "1.2.3.4" 1 60 reset).1.windows "login" "1.2.3.4"
        ≡ some (record { started_at = 60000000; count = 1 }))
unfolding reset keep_running
hit_lem_example = hit_lem 60000000 "login" "1.2.3.4" 1 60 reset

rate_limit-ignores_header_example :
    rate_limit demo_settings 60000000 "login" 1 (some "9.9.9.9") (some "1.2.3.4") reset
    ≡ rate_limit demo_settings 60000000 "login" 1 none (some "1.2.3.4") reset
rate_limit-ignores_header_example =
    rate_limit-ignores_header demo_settings 60000000 "login" 1 (some "9.9.9.9") none
      (some "1.2.3.4") reset refl
