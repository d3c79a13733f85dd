-- ===== src/Progression/Activity/Progress.antt =====
-- What `activity_progress` says of the points.
use graphite_bot.Common.{
  ℕ, false, suc, ◌+◌, ◌-◌, ◌*◌, ◌≤◌, ◌<◌, ◌≡◌, refl, arith, ok, leb, Bool-cases, inl, inr, ap,
  ok_or,
}
use graphite_bot.Common.Int.{ltb_ℤ, pos, ◌-ℤ◌, to_i128, to_i64_pos}
use graphite_bot.Common.Checked.{i64_limit, add_i128_pos, mul_i128_pos, sub_i64_pos}
use graphite_bot.Progression.Errors.{ProgressionMathError, arithmetic_overflow, narrow_64}
use graphite_bot.Progression.Activity.{
  ActivityProgress, activity_xp_to_next, activity_level, activity_progress,
}
use graphite_bot.Progression.Activity.Search.{activity_level-Found}
use graphite_bot.Progression.Activity.Curve.{
  step_of, total_points, total_points-suc, activity_total-total_points,
}

sub_pos :
    (e : ProgressionMathError) (a b : ℕ)
    → b ≤ a
    → a < i64_limit
    → ok_or (to_i128 (pos a -ℤ pos b)) e ≡ ok (pos (a - b))
unfolding ◌-ℤ◌
sub_pos e a b h k = ground arith

narrow_pos : (n : ℕ) → n < i64_limit → narrow_64 (pos n) ≡ ok (pos n)
narrow_pos n h = rw (to_i64_pos n h)

activity_xp_to_next-step_of :
    (level : ℕ) → level < 4294967296 → activity_xp_to_next level ≡ ok (pos (step_of level))
unfolding activity_xp_to_next step_of
activity_xp_to_next-step_of level h = elim (Bool-cases (leb level 15)) [
  | inl low ↦
      rw
        (
          low,
          mul_i128_pos arithmetic_overflow level 2 (omega arith),
          add_i128_pos arithmetic_overflow (level * 2) 7 (omega arith),
        )
        (ground (arith, narrow_pos (level * 2 + 7) (omega arith)))
  | inr above ↦ elim (Bool-cases (leb level 30)) [
    | inl middle ↦
        rw
          (
            above,
            middle,
            mul_i128_pos arithmetic_overflow level 5 (omega arith),
            sub_pos arithmetic_overflow (level * 5) 38 (ground arith) (omega arith),
          )
          (ground (arith, narrow_pos (level * 5 - 38) (omega arith)))
    | inr high ↦
        rw
          (
            above,
            high,
            mul_i128_pos arithmetic_overflow level 9 (omega arith),
            sub_pos arithmetic_overflow (level * 9) 158 (ground arith) (omega arith),
          )
          (ground (arith, narrow_pos (level * 9 - 158) (omega arith)))
  ]
]

not_negative : (m : ℕ) → ltb_ℤ (pos m) (pos 0) ≡ false
not_negative m = ground arith

-- The points split at their level: what is over, what the level takes, and what is still missing.
pub record IsActivityProgress (m : ℕ) (p : ActivityProgress) : Type 0 where
  pub points : p.points ≡ pos m
  pub reached : total_points p.level ≤ m
  pub not_next : m < total_points (suc p.level)
  pub into : p.points_into_level ≡ pos (m - total_points p.level)
  pub next : p.points_for_next_level ≡ pos (step_of p.level)
  pub missing : p.points_remaining ≡ pos (total_points (suc p.level) - m)

step_of-small : (level : ℕ) → level < 4294967296 → step_of level < i64_limit
unfolding step_of
step_of-small level h = ground arith

progress_at :
    (m level : ℕ)
    → m < i64_limit
    → activity_level (pos m) ≡ ok level
    → total_points level ≤ m
    → m < total_points (suc level)
    → level < 4294967296
    → (p : ActivityProgress) × (activity_progress (pos m) ≡ ok p) × IsActivityProgress m p
unfolding activity_progress
progress_at m level small found reached past few =
    let start = total_points level in
    let step = step_of level in
    let sum = total_points-suc level in
    (
      record {
        points = pos m;
        level = level;
        points_into_level = pos (m - start);
        points_for_next_level = pos step;
        points_remaining = pos (step - (m - start));
      },
      rw
          (
            not_negative m,
            found,
            activity_total-total_points level (omega arith),
            narrow_pos start (omega arith),
            activity_xp_to_next-step_of level few,
            sub_i64_pos arithmetic_overflow m start reached small,
            sub_i64_pos arithmetic_overflow step (m - start) (omega arith)
                (step_of-small level few),
          )
          refl,
      record {
        points = refl;
        reached = reached;
        not_next = past;
        into = refl;
        next = refl;
        missing = ap pos (omega arith);
      },
    )

-- For every number of points of an i64 that is not negative both search loops end within their
-- fuel and no step overflows; the level that is found is the one whose span of the curve, summed
-- from the steps of the levels, holds the points, and the other fields say how far into it they
-- are.
pub activity_progress_total :
    (m : ℕ)
    → m < i64_limit
    → (p : ActivityProgress) × (activity_progress (pos m) ≡ ok p) × IsActivityProgress m p
activity_progress_total m small =
    let (level, found, reached, past, few) = activity_level-Found m small in
    progress_at m level small found reached past few
