-- ===== src/Progression/Activity.antt =====
-- The Activity EXP curve of crates/graphite-progression/src/progression.rs: the total of a level by
-- its closed form, and the search of the level that some points have reached.
pub mod Curve
pub mod Search
pub mod Progress
use graphite_bot.Common.{
  ℕ, zero, suc, ◌+◌, ◌*◌, ◌-◌, ◌/◌, Result, ok, err, ◌>>=◌, ◌>>◌, ok_or, fail_if, if◌then◌else◌,
  leb, ltb,
}
use graphite_bot.Common.Int.{ℤ, pos, ◌+ℤ◌, ◌-ℤ◌, ◌*ℤ◌, ◌/ℤ◌, leb_ℤ, ltb_ℤ}
use graphite_bot.Progression.Errors.{
  ProgressionMathError, invalid_activity_xp, arithmetic_overflow, narrow_64, narrow_128,
}

pub record ActivityProgress : Type 0 where
  pub points : ℤ
  pub level : ℕ
  pub points_into_level : ℤ
  pub points_for_next_level : ℤ
  pub points_remaining : ℤ

-- The three bands of `numerator`.
unfoldable pub total_low : ℤ → ℤ → Result ProgressionMathError ℤ
total_low level square = do
  sixfold ← narrow_128 (level *ℤ pos 6)
  both ← narrow_128 (square +ℤ sixfold)
  narrow_128 (both *ℤ pos 2)

unfoldable pub total_middle : ℤ → ℤ → Result ProgressionMathError ℤ
total_middle level square = do
  fivefold ← narrow_128 (square *ℤ pos 5)
  lowered ← narrow_128 (fivefold -ℤ level *ℤ pos 81)
  narrow_128 (lowered +ℤ pos 720)

unfoldable pub total_high : ℤ → ℤ → Result ProgressionMathError ℤ
total_high level square = do
  ninefold ← narrow_128 (square *ℤ pos 9)
  lowered ← narrow_128 (ninefold -ℤ level *ℤ pos 325)
  narrow_128 (lowered +ℤ pos 4_440)

-- A level is a `u64`, so its products with 81 and 325 stay inside 128 bits.
unfoldable pub activity_total_i128 : ℕ → Result ProgressionMathError ℤ
activity_total_i128 level = do
  square ← narrow_128 (pos level *ℤ pos level)
  numerator ←
      if leb level 16
      then total_low (pos level) square
      else if leb level 31
      then total_middle (pos level) square
      else total_high (pos level) square
  ok (numerator /ℤ pos 2)

unfoldable pub activity_total_xp_for_level : ℕ → Result ProgressionMathError ℤ
activity_total_xp_for_level level = do total ← activity_total_i128 level; narrow_64 total

unfoldable pub activity_xp_to_next : ℕ → Result ProgressionMathError ℤ
activity_xp_to_next level = do
  value ←
      if leb level 15
      then (narrow_128 (pos level *ℤ pos 2) >>= λ double. narrow_128 (double +ℤ pos 7))
      else if leb level 30
      then (narrow_128 (pos level *ℤ pos 5) >>= λ fivefold. narrow_128 (fivefold -ℤ pos 38))
      else (narrow_128 (pos level *ℤ pos 9) >>= λ ninefold. narrow_128 (ninefold -ℤ pos 158))
  narrow_64 value

-- `checked_mul` of `u64`.
abbrev pub double_u64 : ℕ → Result ProgressionMathError ℕ
double_u64 n =
    if ltb (n * 2) 18_446_744_073_709_551_616 then ok (n * 2) else err arithmetic_overflow

-- `while activity_total_i128(high)? <= target`, on fuel.
unfoldable pub raise_bound : ℕ → ℤ → ℕ → ℕ → Result ProgressionMathError (ℕ × ℕ)
raise_bound zero target low high = err arithmetic_overflow
raise_bound (suc fuel) target low high =
    let round = (do high' ← double_u64 high; raise_bound fuel target high high') in
    do total ← activity_total_i128 high; if leb_ℤ total target then round else ok (low, high)

-- `while low + 1 < high`, on fuel.
unfoldable pub narrow_bound : ℕ → ℤ → ℕ → ℕ → Result ProgressionMathError ℕ
narrow_bound zero target low high = err arithmetic_overflow
narrow_bound (suc fuel) target low high =
    let middle = low + (high - low) / 2 in
    let round = (do
      total ← activity_total_i128 middle
      narrow_bound fuel target (if leb_ℤ total target then middle else low)
          (if leb_ℤ total target then high else middle)) in
    if ltb (low + 1) high then round else ok low

-- The bound is doubled at most 64 times before it leaves `u64`, and halving a distance below 2^64
-- takes at most 64 rounds; each loop has a last test.
unfoldable pub activity_level : ℤ → Result ProgressionMathError ℕ
activity_level target = do (low, high) ← raise_bound 65 target 0 1; narrow_bound 65 target low high

unfoldable pub activity_progress : ℤ → Result ProgressionMathError ActivityProgress
activity_progress points = do
  fail_if (ltb_ℤ points (pos 0)) invalid_activity_xp
  level ← activity_level points
  total ← activity_total_i128 level
  level_start ← narrow_64 total
  points_for_next_level ← activity_xp_to_next level
  points_into_level ← narrow_64 (points -ℤ level_start)
  points_remaining ← narrow_64 (points_for_next_level -ℤ points_into_level)
  ok (record {
    points = points;
    level = level;
    points_into_level = points_into_level;
    points_for_next_level = points_for_next_level;
    points_remaining = points_remaining;
  })
