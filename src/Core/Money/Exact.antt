-- ===== src/Core/Money/Exact.antt =====
-- Adding and subtracting money, and the least amount that covers a percentage.
use graphite_bot.Common.{ℕ, ◌+◌, ◌*◌, ◌/◌, ◌≤◌, ◌<◌, ◌≡◌, refl, some, ok, arith}
use graphite_bot.Common.Int.{pos, ◌+ℤ◌, ◌-ℤ◌, ◌≤ℤ◌, ◌/ℤ◌, to_i64_pos}
use graphite_bot.Common.Checked.{i64_limit, mul_i128_pos, add_i128_pos}
use graphite_bot.Core.Money.{
  Money, overflow, money, new_money, checked_add, checked_sub, ceil_basis_points,
  checked_ceil_percentage,
}

-- For amounts that are not negative, what was added can be subtracted from the sum, and leaves
-- what was there.
pub checked_sub-checked_add :
    (a b : Money) {sum : Money}
    → pos 0 ≤ℤ a.amount
    → pos 0 ≤ℤ b.amount
    → checked_add a b ≡ ok sum
    → checked_sub sum b ≡ ok a
unfolding checked_add checked_sub new_money ◌+ℤ◌ ◌-ℤ◌
checked_sub-checked_add a b h k e = ground arith

-- For a share of at most the whole, the least amount that covers it, which is no more than the value.
pub ceil_basis_points_least :
    (v bp : ℕ)
    → v < i64_limit
    → bp ≤ 10_000
    → (c : ℕ) × (ceil_basis_points (money (pos v)) bp ≡ ok (money (pos c)))
      × (v * bp ≤ c * 10_000)
      × (c * 10_000 < v * bp + 10_000)
      × (c ≤ v)
unfolding ceil_basis_points new_money ◌/ℤ◌
ceil_basis_points_least v bp h k =
    let whole : v * bp ≤ v * 10_000 = grind arith in
    let c = (v * bp + 9_999) / 10_000 in
    (
      c,
      rw
          (
            mul_i128_pos overflow v bp (omega arith),
            add_i128_pos overflow (v * bp) 9_999 (omega arith),
            to_i64_pos c (omega arith),
          )
          (ground arith),
      omega arith,
      omega arith,
      omega arith,
    )

new_money_pos : (v : ℕ) → new_money (pos v) ≡ ok (money (pos v))
unfolding new_money
new_money_pos v = ground arith

-- A percentage fee of at most the whole, of a value in the width that is not negative, is the
-- least amount that covers the percentage, and never more than the value.
pub checked_ceil_percentage_least :
    (v percent : ℕ)
    → v < i64_limit
    → percent ≤ 100
    → (c : ℕ) × (checked_ceil_percentage (pos v) percent ≡ some (pos c))
      × (v * percent ≤ c * 100)
      × (c * 100 < v * percent + 100)
      × (c ≤ v)
unfolding checked_ceil_percentage
checked_ceil_percentage_least v percent h k =
    let r = ceil_basis_points_least v (percent * 100) h (omega arith) in
    (r.0, rw (new_money_pos v, r.1) refl, omega (arith, r.2), omega (arith, r.3), r.4)
