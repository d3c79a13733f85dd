-- ===== src/Core/Tests/Money.antt =====
-- Two percent of fifty-one.
use graphite_bot.Common.{ℕ, ◌*◌, ◌+◌, ◌≤◌, ◌<◌, ◌≡◌, some, arith}
use graphite_bot.Common.Int.{pos}
use graphite_bot.Core.Money.{checked_ceil_percentage}
use graphite_bot.Core.Money.Exact.{checked_ceil_percentage_least}

checked_ceil_percentage_least_example :
    (c : ℕ) × (checked_ceil_percentage (pos 51) 2 ≡ some (pos c))
    × (51 * 2 ≤ c * 100)
    × (c * 100 < 51 * 2 + 100)
    × (c ≤ 51)
checked_ceil_percentage_least_example =
    checked_ceil_percentage_least 51 2 (omega arith) (omega arith)
