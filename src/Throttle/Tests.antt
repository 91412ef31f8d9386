-- ===== src/Throttle/Tests.antt =====
-- Tests of the request limits.
use sealvo.Base.{ℕ, ◌≤◌, ◌≡◌, refl, inr, List, [], ◌∷◌, arith}
use sealvo.Throttle.{Limits, unused, let_through}
use sealvo.Throttle.Window.{window_limit}

-- Two requests a second, then a block of a second.
abbrev two_a_second : Limits
two_a_second = record { ttl = 1_000; limit = 2; block_duration = 1_000 }

abbrev burst : List ℕ
burst = 5_010 ∷ 5_020 ∷ 5_030 ∷ 5_990 ∷ []

passed : let_through two_a_second (5_000 ∷ burst) unused ≡ 2
unfolding let_through sealvo.Throttle.run_script sealvo.Throttle.time_left sealvo.Throttle.counted
passed = refl

window_limit_example : let_through two_a_second (5_000 ∷ burst) unused ≤ 2
window_limit_example =
    window_limit two_a_second 5_000 burst (omega arith) (inr (omega arith)) (ground arith)
