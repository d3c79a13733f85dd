-- ===== src/Progression/Activity/Curve.antt =====
-- The closed form of the Activity curve is the sum of its steps.
use graphite_bot.Common.{
  ℕ, zero, suc, ◌+◌, ◌-◌, ◌*◌, ◌≤◌, ◌<◌, ◌≡◌, refl, arith, ok, if◌then◌else◌, leb, ok_or, ap, ◌>>=◌,
  Bool-cases, inl, inr,
}
use native.Mathlib.Decide.{dec_lt}
use graphite_bot.Common.Int.{pos, ◌+ℤ◌, ◌-ℤ◌, ◌*ℤ◌, ◌/ℤ◌, to_i128}
use graphite_bot.Common.Checked.{i128_limit, add_i128_pos, mul_i128_pos}
use graphite_bot.Progression.Errors.{ProgressionMathError, arithmetic_overflow}
use graphite_bot.Progression.Activity.{total_low, total_middle, total_high, activity_total_i128}

-- What one level takes.
unfoldable pub step_of : ℕ → ℕ
step_of level =
    if leb level 15 then 2 * level + 7 else if leb level 30 then 5 * level - 38 else 9 * level - 158

-- What the levels below one take.
pub total_points : ℕ → ℕ
total_points zero = 0
total_points (suc level) = total_points level + step_of level

pub total_points-low : (level : ℕ) → level ≤ 16 → total_points level ≡ level * level + 6 * level
unfolding total_points step_of
total_points-low zero h = refl
total_points-low (suc level) h = ground (arith, total_points-low level (omega arith))

step_of-middle : (level : ℕ) → 16 ≤ level → level ≤ 30 → step_of level + 38 ≡ 5 * level
unfolding step_of
step_of-middle level h k = ground arith

step_of-high : (level : ℕ) → 31 ≤ level → step_of level + 158 ≡ 9 * level
unfolding step_of
step_of-high level h = ground arith

pub total_points-suc : (level : ℕ) → total_points (suc level) ≡ total_points level + step_of level
unfolding total_points
total_points-suc level = refl

-- One step of each quadratic.
middle_step :
    (level t s : ℕ)
    → 2 * t + 81 * level ≡ 5 * (level * level) + 720
    → s + 38 ≡ 5 * level
    → 2 * (t + s) + 81 * suc level ≡ 5 * (suc level * suc level) + 720
middle_step level t s e f = omega arith

high_step :
    (level t s : ℕ)
    → 2 * t + 325 * level ≡ 9 * (level * level) + 4440
    → s + 158 ≡ 9 * level
    → 2 * (t + s) + 325 * suc level ≡ 9 * (suc level * suc level) + 4440
high_step level t s e f = omega arith

pub total_points-middle :
    (level : ℕ)
    → 16 ≤ level
    → level ≤ 31
    → 2 * total_points level + 81 * level ≡ 5 * (level * level) + 720
total_points-middle zero h k = absurd (omega arith)
total_points-middle (suc level) h k = elim (dec_lt level 16) [
  | yes first ↦
      let e : level ≡ 15 = omega arith in rw e (omega (arith, total_points-low 16 (omega arith)))
  | no later ↦ rw (total_points-suc level) (
      middle_step level _ _ (total_points-middle level (omega arith) (omega arith))
        (step_of-middle level (omega arith) (omega arith)))
]

pub total_points-high :
    (level : ℕ) → 31 ≤ level → 2 * total_points level + 325 * level ≡ 9 * (level * level) + 4440
total_points-high zero h = absurd (omega arith)
total_points-high (suc level) h = elim (dec_lt level 31) [
  | yes first ↦
      let e : level ≡ 30 = omega arith in
      rw e (omega (arith, total_points-middle 31 (omega arith) (omega arith)))
  | no later ↦ rw (total_points-suc level) (
      high_step level _ _ (total_points-high level (omega arith))
        (step_of-high level (omega arith)))
]

-- The difference may be negative for a moment.
sub_add :
    (e : ProgressionMathError) (a b c : ℕ)
    → a + c < i128_limit
    → b ≤ a + c
    → (ok_or (to_i128 (pos a -ℤ pos b)) e >>= λ x. ok_or (to_i128 (x +ℤ pos c)) e)
      ≡ ok (pos (a + c - b))
unfolding ◌-ℤ◌ ◌+ℤ◌
sub_add e a b c h k = ground arith

mul_pos : (a b : ℕ) → pos a *ℤ pos b ≡ pos (a * b)
unfolding ◌*ℤ◌
mul_pos a b = refl

half : (n m : ℕ) → n ≡ 2 * m → pos n /ℤ pos 2 ≡ pos m
unfolding ◌/ℤ◌
half n m h = ground arith

total_low_lem :
    (level s : ℕ)
    → level ≤ 16
    → s ≤ 256
    → total_low (pos level) (pos s) ≡ ok (pos ((s + level * 6) * 2))
unfolding total_low
total_low_lem level s h k =
    rw
      (
        mul_i128_pos arithmetic_overflow level 6 (omega arith),
        add_i128_pos arithmetic_overflow s (level * 6) (omega arith),
      )
      (mul_i128_pos arithmetic_overflow (s + level * 6) 2 (omega arith))

total_middle_lem :
    (level s : ℕ)
    → s ≤ 961
    → level * 81 ≤ s * 5 + 720
    → total_middle (pos level) (pos s) ≡ ok (pos (s * 5 + 720 - level * 81))
unfolding total_middle
total_middle_lem level s h k =
    rw (mul_i128_pos arithmetic_overflow s 5 (omega arith), mul_pos level 81)
      (sub_add arithmetic_overflow (s * 5) (level * 81) 720 (omega arith) k)

total_high_lem :
    (level s : ℕ)
    → s < 1329227995784915872903807060280344576
    → level * 325 ≤ s * 9 + 4440
    → total_high (pos level) (pos s) ≡ ok (pos (s * 9 + 4440 - level * 325))
unfolding total_high
total_high_lem level s h k =
    rw (mul_i128_pos arithmetic_overflow s 9 (omega arith), mul_pos level 325)
      (sub_add arithmetic_overflow (s * 9) (level * 325) 4440 (omega arith) k)

square_lt :
    (level : ℕ) → level < 1099511627776 → level * level < 1329227995784915872903807060280344576
square_lt level h = grind arith

square_le : (level k : ℕ) → level ≤ k → level * level ≤ k * k
square_le level k h = grind arith

-- `activity_total_i128` is that sum for every level below 2^40.
pub activity_total-total_points :
    (level : ℕ) → level < 1099511627776 → activity_total_i128 level ≡ ok (pos (total_points level))
unfolding activity_total_i128
activity_total-total_points level h = elim (Bool-cases (leb level 16)) [
  | inl low ↦
      let few : level ≤ 16 = ground arith in
      rw
        (
          mul_i128_pos arithmetic_overflow level level (omega (arith, square_lt level h)),
          low,
          total_low_lem level (level * level) few (square_le level 16 few),
        )
        (ap ok (half _ _ (omega (arith, total_points-low level few))))
  | inr above ↦ elim (Bool-cases (leb level 31)) [
    | inl middle ↦
        let few : level ≤ 31 = ground arith in
        let form = total_points-middle level (ground arith) few in
        rw
          (
            mul_i128_pos arithmetic_overflow level level (omega (arith, square_lt level h)),
            above,
            middle,
            total_middle_lem level (level * level) (square_le level 31 few) (omega arith),
          )
          (ap ok (half _ _ (omega arith)))
    | inr high ↦
        let form = total_points-high level (ground arith) in
        rw
          (
            mul_i128_pos arithmetic_overflow level level (omega (arith, square_lt level h)),
            above,
            high,
            total_high_lem level (level * level) (square_lt level h) (omega arith),
          )
          (ap ok (half _ _ (omega arith)))
  ]
]
