-- ===== src/Progression/Activity/Search.antt =====
-- The two loops of `activity_progress` end, and find the level that the points have reached.
use native.Mathlib.Decide.{dec_lt}
use graphite_bot.Common.{
  ℕ, zero, suc, ◌+◌, ◌-◌, ◌*◌, ◌/◌, ◌≤◌, ◌<◌, ◌≡◌, refl, arith, ok, leb, ltb, Bool-cases, inl, inr,
  true, false, Result,
}
use graphite_bot.Common.Int.{pos}
use graphite_bot.Common.Checked.{i64_limit}
use graphite_bot.Progression.Errors.{ProgressionMathError}
use graphite_bot.Progression.Activity.{raise_bound, narrow_bound, activity_level}
use graphite_bot.Progression.Activity.Curve.{
  total_points, total_points-suc, total_points-high, total_points-low, activity_total-total_points,
}

-- 2^n.
span : ℕ → ℕ
span zero = 1
span (suc n) = 2 * span n

span_first : 4294967296 < 1 * span 65
unfolding span
span_first = omega arith

span_second : span 64 ≡ 18446744073709551616
unfolding span
span_second = refl

total_points_mono : (level d : ℕ) → total_points level ≤ total_points (level + d)
total_points_mono level zero = ground arith
total_points_mono level (suc d) =
    ground (arith, total_points_mono level d, total_points-suc (level + d))

total_points-le : (a b : ℕ) → a ≤ b → total_points a ≤ total_points b
total_points-le a b h =
    let e : a + (b - a) ≡ b = omega arith in rw (← e) (total_points_mono a (b - a))

-- No `i64` reaches the level 2^31.
total_points-large : i64_limit ≤ total_points 2147483648
total_points-large = omega (arith, total_points-high 2147483648 (omega arith))

lt_of_total : (m level : ℕ) → total_points level ≤ m → m < i64_limit → level < 2147483648
lt_of_total m level h k = elim (dec_lt level 2147483648) [
  | yes small ↦ small
  | no big ↦
      absurd (omega (arith, total_points-le 2147483648 level (omega arith), total_points-large))
]

-- The points lie between two levels.
abbrev Between : ℕ → ℕ → ℕ → Type 0
Between m low high = (total_points low ≤ m) × (m < total_points high) × (low < high)

raise_bound-Between :
    (fuel m low high : ℕ)
    → m < i64_limit
    → total_points low ≤ m
    → low < high
    → high ≤ 4294967296
    → 4294967296 < high * span fuel
    → (l : ℕ) × (h : ℕ) × (raise_bound fuel (pos m) low high ≡ ok (l, h))
      × Between m l h
      × (h ≤ 4294967296)
unfolding raise_bound span
raise_bound-Between zero m low high small reached order top enough = absurd (omega arith)
raise_bound-Between (suc fuel) m low high small reached order top enough =
    elim (Bool-cases (leb (total_points high) m)) [
      | inr done ↦ (
        low,
        high,
        rw (activity_total-total_points high (omega arith), done) refl,
        (reached, ground arith, order),
        top,
      )
      | inl more ↦
          let known : total_points high ≤ m = ground arith in
          let bound = lt_of_total m high known small in
          let (l, h, found, between, last) =
            raise_bound-Between fuel m high (high * 2) small known (omega arith) (omega arith)
              (omega arith) in
          let fits : ltb (high * 2) 18446744073709551616 ≡ true = ground arith in
          (
            l,
            h,
            rw (activity_total-total_points high (omega arith), more, fits) found,
            between,
            last,
          )
    ]

-- A level for the points, found by the second loop.
abbrev pub Found : ℕ → Result ProgressionMathError ℕ → Type 0
Found m r =
    (level : ℕ) × (r ≡ ok level)
    × (total_points level ≤ m)
    × (m < total_points (suc level))
    × (level < 4294967296)

narrow_bound-done :
    (fuel m low high : ℕ)
    → Between m low high
    → high ≤ 4294967296
    → ltb (low + 1) high ≡ false
    → Found m (narrow_bound (suc fuel) (pos m) low high)
unfolding narrow_bound
narrow_bound-done fuel m low high (reached, past, order) top done =
    let next : high ≡ suc low = ground arith in
    (low, rw done refl, reached, ground arith, omega arith)

narrow_bound-Found :
    (fuel m low high : ℕ)
    → Between m low high
    → high ≤ 4294967296
    → high - low ≤ span fuel
    → Found m (narrow_bound (suc fuel) (pos m) low high)
unfolding narrow_bound span
narrow_bound-Found zero m low high between top enough =
    narrow_bound-done zero m low high between top (ground (arith, between.2))
narrow_bound-Found (suc fuel) m low high (reached, past, order) top enough =
    elim (Bool-cases (ltb (low + 1) high)) [
      | inr done ↦ narrow_bound-done (suc fuel) m low high (reached, past, order) top done
      | inl more ↦
          let middle = low + (high - low) / 2 in
          let wide : low + 1 < high = ground arith in
          let total = activity_total-total_points middle (omega arith) in
          elim (Bool-cases (leb (total_points middle) m)) [
            | inl below ↦
                rw (more, total, below)
                  (narrow_bound-Found fuel m middle high (ground arith, past, omega arith) top
                    (omega arith))
            | inr above ↦
                rw (more, total, above)
                  (narrow_bound-Found fuel m low middle (reached, ground arith, omega arith)
                    (omega arith) (omega arith))
          ]
    ]

pub activity_level-Found : (m : ℕ) → m < i64_limit → Found m (activity_level (pos m))
unfolding activity_level
activity_level-Found m small =
    let (low, high, found, between, top) =
      raise_bound-Between 65 m 0 1 small (omega (arith, total_points-low 0 (omega arith)))
        (omega arith) (omega arith) span_first in
    rw found (narrow_bound-Found 64 m low high between top (omega (arith, span_second)))
