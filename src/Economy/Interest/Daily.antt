-- ===== src/Economy/Interest/Daily.antt =====
-- One day's interest: the fixed-point power stays in its range, and no part of a credit is lost.
use graphite_bot.Common.{ℕ, ◌+◌, ◌-◌, ◌*◌, ◌/◌, ◌%◌, ◌≤◌, ◌<◌, ◌≡◌, min, ok, arith}
use graphite_bot.Common.Int.{pos, min_ℤ, to_i64_pos, ◌-ℤ◌, ◌/ℤ◌, ◌%ℤ◌}
use graphite_bot.Common.Checked.{i64_limit, add_i128_pos, mul_i128_pos}
use graphite_bot.Common.FixedPoint.{one, q32_pow_bounds}
use graphite_bot.Economy.Interest.Tables.{arithmetic_overflow}
use graphite_bot.Economy.Interest.Rate.{rebirth_growth_q32, calculate_daily_interest}

-- The rebirth bonus grows from nothing to one, and never fails.
pub rebirth_growth_q32_bounds :
    (rebirth_count : ℕ)
    → (growth : ℕ) × (rebirth_growth_q32 rebirth_count ≡ ok (pos growth)) × (growth ≤ one)
unfolding rebirth_growth_q32 ◌-ℤ◌
rebirth_growth_q32_bounds rebirth_count =
    let decay = q32_pow_bounds arithmetic_overflow 4_085_499_269 rebirth_count (omega arith) in
    (one - decay.0, ground (arith, decay.1, decay.2), omega arith)

bonus_bound : (p g : ℕ) → p ≤ 10_000_000 → g ≤ one → p * 20 * g ≤ 858_993_459_200_000_000
bonus_bound p g h k = grind arith

div_exact :
    (n : ℕ) → n / 4_294_967_296_000_000 * 4_294_967_296_000_000 + n % 4_294_967_296_000_000 ≡ n
div_exact n = omega arith

tranche : (bank : ℕ) → min_ℤ (pos bank) (pos 10_000_000) ≡ pos (min bank 10_000_000)
tranche bank = ground arith

-- The arithmetic of a day, with the tranche and the growth as variables.
day_computed :
    (bank rebirth_count remainder p g : ℕ)
    → bank < i64_limit
    → remainder < 4_294_967_296_000_000
    → p ≤ 10_000_000
    → min_ℤ (pos bank) (pos 10_000_000) ≡ pos p
    → p * 20 * g ≤ 858_993_459_200_000_000
    → rebirth_growth_q32 rebirth_count ≡ ok (pos g)
    → calculate_daily_interest (pos bank) (pos rebirth_count) (pos remainder)
      ≡ ok (
        pos ((bank * 40 * 4_294_967_296 + p * 20 * g + remainder) / 4_294_967_296_000_000),
        pos ((bank * 40 * 4_294_967_296 + p * 20 * g + remainder) % 4_294_967_296_000_000),
      )
unfolding calculate_daily_interest ◌/ℤ◌ ◌%ℤ◌
day_computed bank rebirth_count remainder p g h k small tranche_eq bound growth =
    let base = bank * 40 * 4_294_967_296 in
    rw
      (
        growth,
        mul_i128_pos arithmetic_overflow bank 40 (omega arith),
        mul_i128_pos arithmetic_overflow (bank * 40) 4_294_967_296 (omega arith),
        tranche_eq,
        mul_i128_pos arithmetic_overflow p 20 (omega arith),
        mul_i128_pos arithmetic_overflow (p * 20) g (omega arith),
        add_i128_pos arithmetic_overflow base (p * 20 * g) (omega arith),
        add_i128_pos arithmetic_overflow (base + p * 20 * g) remainder (omega arith),
        to_i64_pos ((base + p * 20 * g + remainder) / 4_294_967_296_000_000) (omega arith),
        to_i64_pos ((base + p * 20 * g + remainder) % 4_294_967_296_000_000) (omega arith),
      )
      (ground arith)

-- A day's credit and the carried remainder add up to the exact interest: the base rate on the whole
-- balance, the bonus on the tranche, and the remainder carried in.
pub record IsExactDay (bank rebirth_count remainder : ℕ) : Type 0 where
  pub growth : ℕ
  pub credit : ℕ
  pub next : ℕ
  pub growth_eq : rebirth_growth_q32 rebirth_count ≡ ok (pos growth)
  pub growth_le : growth ≤ one
  pub computed :
      calculate_daily_interest (pos bank) (pos rebirth_count) (pos remainder)
      ≡ ok (pos credit, pos next)
  pub exact :
      credit * 4_294_967_296_000_000 + next
      ≡ bank * 40 * 4_294_967_296 + min bank 10_000_000 * 20 * growth + remainder
  pub next_lt : next < 4_294_967_296_000_000

-- For a balance, a rebirth count and a remainder in range the daily interest is computed without
-- error: the rebirth growth is at most one, credit and new remainder together are exactly the
-- base rate on the balance, the bonus on its first ten million and the old remainder, and the new
-- remainder is below the denominator.
pub calculate_daily_interest-IsExactDay :
    (bank rebirth_count remainder : ℕ)
    → bank < i64_limit
    → remainder < 4_294_967_296_000_000
    → IsExactDay bank rebirth_count remainder
calculate_daily_interest-IsExactDay bank rebirth_count remainder h k =
    let growth = rebirth_growth_q32_bounds rebirth_count in
    let g = growth.0 in
    let p = min bank 10_000_000 in
    let bound = bonus_bound p g (omega arith) growth.2 in
    let base = bank * 40 * 4_294_967_296 in
    let numerator = base + p * 20 * g + remainder in
    record {
      growth = g;
      credit = numerator / 4_294_967_296_000_000;
      next = numerator % 4_294_967_296_000_000;
      growth_eq = growth.1;
      growth_le = growth.2;
      computed =
          day_computed bank rebirth_count remainder p g h k (omega arith) (tranche bank) bound
            growth.1;
      exact = div_exact numerator;
      next_lt = omega arith;
    }
