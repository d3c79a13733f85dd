-- ===== src/Progression/Rebirth.antt =====
-- What the number of rebirths gives: `rebirth_effect_ppm` of
-- crates/graphite-progression/src/progression.rs and its two uses.
use graphite_bot.Common.{ℕ, ◌+◌, ◌-◌, ◌*◌, ◌/◌, ◌≤◌, ◌≡◌, refl, arith, Result, ok, ◌>>=◌}
use graphite_bot.Common.Int.{ℤ, pos, ◌+ℤ◌, ◌-ℤ◌, ◌*ℤ◌, ◌/ℤ◌, to_i64_pos}
use graphite_bot.Common.Checked.{add_i128_pos, mul_i128_pos}
use graphite_bot.Common.FixedPoint.{q32_one, q32_pow, q32_pow_bounds, one}
use graphite_bot.Progression.Errors.{
  ProgressionMathError, arithmetic_overflow, narrow_64, narrow_128,
}

abbrev pub rebirth_aexp_bonus_max_ppm : ℤ
rebirth_aexp_bonus_max_ppm = pos 300_000

abbrev pub rebirth_repair_reduction_max_ppm : ℤ
rebirth_repair_reduction_max_ppm = pos 100_000

abbrev pub rebirth_aexp_decay_q32 : ℤ
rebirth_aexp_decay_q32 = pos 4_085_499_269

abbrev pub rebirth_repair_decay_q32 : ℤ
rebirth_repair_decay_q32 = pos 4_126_559_220

unfoldable pub rebirth_effect_ppm : ℕ → ℤ → ℤ → Result ProgressionMathError ℤ
rebirth_effect_ppm rebirth_count maximum_ppm decay_q32 = do
  decay ← q32_pow arithmetic_overflow decay_q32 rebirth_count
  growth ← narrow_128 (q32_one -ℤ decay)
  scaled ← narrow_128 (maximum_ppm *ℤ growth)
  numerator ← narrow_128 (scaled +ℤ q32_one /ℤ pos 2)
  narrow_64 (numerator /ℤ q32_one)

unfoldable pub rebirth_aexp_bonus_ppm : ℕ → Result ProgressionMathError ℤ
rebirth_aexp_bonus_ppm rebirth_count =
    rebirth_effect_ppm rebirth_count rebirth_aexp_bonus_max_ppm rebirth_aexp_decay_q32

unfoldable pub rebirth_repair_reduction_ppm : ℕ → Result ProgressionMathError ℤ
rebirth_repair_reduction_ppm rebirth_count =
    rebirth_effect_ppm rebirth_count rebirth_repair_reduction_max_ppm rebirth_repair_decay_q32

growth_eq : (d : ℕ) → d ≤ one → narrow_128 (q32_one -ℤ pos d) ≡ ok (pos (one - d))
unfolding ◌-ℤ◌
growth_eq d h = ground arith

rounded : (n : ℕ) → pos n /ℤ q32_one ≡ pos (n / 4_294_967_296)
unfolding ◌/ℤ◌
rounded n = refl

half_one : q32_one /ℤ pos 2 ≡ pos 2_147_483_648
unfolding ◌/ℤ◌
half_one = refl

scaled_le : (m g : ℕ) → m ≤ 300_000 → g ≤ one → m * g ≤ m * one
scaled_le m g h k = grind arith

effect_bounds :
    (rebirth_count m decay : ℕ)
    → m ≤ 300_000
    → decay ≤ one
    → (effect : ℕ) × (rebirth_effect_ppm rebirth_count (pos m) (pos decay) ≡ ok (pos effect))
      × (effect ≤ m)
unfolding rebirth_effect_ppm
effect_bounds rebirth_count m decay h k =
    let (d, power, small) = q32_pow_bounds arithmetic_overflow decay rebirth_count k in
    let g = one - d in
    let scaled = scaled_le m g h (omega arith) in
    (
      (m * g + 2_147_483_648) / 4_294_967_296,
      rw
          (
            power,
            growth_eq d small,
            mul_i128_pos arithmetic_overflow m g (omega arith),
            half_one,
            add_i128_pos arithmetic_overflow (m * g) 2_147_483_648 (omega arith),
            rounded (m * g + 2_147_483_648),
            to_i64_pos ((m * g + 2_147_483_648) / 4_294_967_296) (omega arith),
          )
          refl,
      omega arith,
    )

-- For every number of rebirths both effects are computed without an overflow, and lie between
-- nothing and their maximum: 300,000 ppm more Activity EXP and 100,000 ppm off a repair.
pub rebirth_effects_within :
    (rebirth_count : ℕ)
    → (bonus : ℕ) × (reduction : ℕ) × (rebirth_aexp_bonus_ppm rebirth_count ≡ ok (pos bonus))
      × (bonus ≤ 300_000)
      × (rebirth_repair_reduction_ppm rebirth_count ≡ ok (pos reduction))
      × (reduction ≤ 100_000)
unfolding rebirth_aexp_bonus_ppm rebirth_repair_reduction_ppm
rebirth_effects_within rebirth_count =
    let (bonus, computed, within) =
      effect_bounds rebirth_count 300_000 4_085_499_269 (omega arith) (omega arith) in
    let (reduction, computed', within') =
      effect_bounds rebirth_count 100_000 4_126_559_220 (omega arith) (omega arith) in
    (bonus, reduction, computed, within, computed', within')
