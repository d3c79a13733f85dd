-- ===== src/Services/Repair/Rounding.antt =====
-- The two roundings of a repair, on numbers that are not negative.
use graphite_bot.Common.{
  ℕ, ◌+◌, ◌*◌, ◌/◌, ◌%◌, ◌≤◌, ◌<◌, ◌≡◌, ◌⊎◌, inl, inr, refl, ap, ok, arith, Bool-cases, ==_iff,
  ◌==◌,
}
use native.Mathlib.Decide.{dec_lt}
use graphite_bot.Common.Int.{pos, ◌+ℤ◌, ◌/ℤ◌, ◌%ℤ◌, to_i128_pos}
use graphite_bot.Common.Checked.{i128_limit, add_i128_pos, mul_i128_pos}
use graphite_bot.Services.Repair.{
  arithmetic_overflow, checked_mul, ceil_ratio, round100_with_minimum,
}

div_parts : (n d : ℕ) → 0 < d → (n / d * d + n % d ≡ n) × (n % d < d)
div_parts n d h = grind arith

div_le : (n d : ℕ) → 0 < d → n / d ≤ n
div_le n d h = grind arith

-- The least whole number of units that covers the ratio.
pub ceil_ratio_bounds :
    (n d : ℕ)
    → 0 < d
    → n + 1 < i128_limit
    → (c : ℕ) × (ceil_ratio (pos n) (pos d) ≡ ok (pos c)) × (n ≤ c * d) × (c * d < n + d)
unfolding ceil_ratio ◌/ℤ◌ ◌%ℤ◌ ◌+ℤ◌
ceil_ratio_bounds n d h b =
    let parts = div_parts n d h in
    let small = div_le n d h in
    elim (Bool-cases ((n % d) == 0)) [
      | inl e ↦
          let z = (==_iff (n % d) 0).0 e in
          (
            n / d,
            rw (e, to_i128_pos (n / d + 0) (omega arith)) (ground arith),
            omega arith,
            omega arith,
          )
      | inr e ↦
          let more : 1 ≤ n % d = ground arith in
          (n / d + 1, rw (e, to_i128_pos (n / d + 1) (omega arith)) refl, omega arith, omega arith)
    ]

rounded_up : (n d : ℕ) → 0 < d → 100 * d ≤ n → 1 ≤ (n + 50 * d) / (100 * d)
rounded_up n d h k =
    let parts = div_parts (n + 50 * d) (100 * d) (omega arith) in
    elim (dec_lt 0 ((n + 50 * d) / (100 * d))) [
      | yes p ↦ p
      | no p ↦
          let z : (n + 50 * d) / (100 * d) ≡ 0 = omega arith in
          absurd (omega (arith, ap (λ (q : ℕ). q * (100 * d)) z))
    ]

-- To the nearest hundred, and at least one hundred.
pub round100_with_minimum_bounds :
    (n d : ℕ)
    → 0 < d
    → n + 100 * d < i128_limit
    → (c : ℕ) × (round100_with_minimum (pos n) (pos d) ≡ ok (pos (c * 100)))
      × (1 ≤ c)
      × ((n < 100 * d) × (c ≡ 1) ⊎ (n ≤ c * 100 * d + 50 * d) × (c * 100 * d ≤ n + 50 * d))
unfolding round100_with_minimum checked_mul ◌/ℤ◌
round100_with_minimum_bounds n d h b = elim (dec_lt n (100 * d)) [
  | yes less ↦ (
    1,
    rw (mul_i128_pos arithmetic_overflow 100 d (omega arith)) (ground arith),
    omega arith,
    inl (less, refl),
  )
  | no enough ↦
      let parts = div_parts (n + 50 * d) (100 * d) (omega arith) in
      let q = (n + 50 * d) / (100 * d) in
      let small : q * 100 ≤ q * (100 * d) = grind arith in
      (
        q,
        rw
            (
              mul_i128_pos arithmetic_overflow 100 d (omega arith),
              mul_i128_pos arithmetic_overflow 50 d (omega arith),
              add_i128_pos arithmetic_overflow n (50 * d) (omega arith),
              mul_i128_pos arithmetic_overflow q 100 (omega arith),
            )
            (ground arith),
        rounded_up n d h (omega arith),
        inr (omega arith, omega arith),
      )
]
