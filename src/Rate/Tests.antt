-- ===== src/Rate/Tests.antt =====
-- Seven bytes under a burst of three.
use oldxr.Base.{ℕ, ◌<◌, Option, none, List, [], ◌∷◌, ◌++◌, arith}
use oldxr.Base.Int.{pos}
use oldxr.Rate.{HasWaited, wait_rate_limit, wait_rate_limit-HasWaited}

-- A limiter that writes down what it accepts.
abbrev logged : ℕ → List ℕ → List ℕ × Option ℕ
logged c w = (w ++ c ∷ [], none)

three : 0 < 3
three = omega arith

wait_rate_limit-HasWaited_example :
    HasWaited logged 3 7 [] (wait_rate_limit logged (pos 3) (pos 7) [])
wait_rate_limit-HasWaited_example = wait_rate_limit-HasWaited logged 3 7 [] three
