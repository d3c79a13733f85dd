-- ===== src/Services/Smelting/Experience.antt =====
-- The Activity EXP of a job that is settled in steps is that of the whole.
use graphite_bot.Common.{
  ℕ, ◌/◌, ◌%◌, ◌-◌, ◌≤◌, ◌<◌, ◌≡◌, refl, List, [], ◌∷◌, Result, ok, ◌>>=◌, arith, false, true, Bool,
  if◌then◌else◌,
}
use graphite_bot.Common.Int.{ℤ, pos, ◌+ℤ◌, ◌/ℤ◌, ◌%ℤ◌}
use graphite_bot.Common.Checked.{i64_limit, sub_i64_pos}
use graphite_bot.Services.Smelting.{
  SmeltingMathError, arithmetic_overflow, progress_of, award_progress, checked_sub,
  smelting_aexp_progress,
}

-- Numbers of completed units that never fall, each in the width.
abbrev pub Ascending : ℕ → List ℕ → Type 0
Ascending previous [] = Unit
Ascending previous (total ∷ totals) =
    (previous ≤ total) × (total < i64_limit) × Ascending total totals

abbrev pub last_of : ℕ → List ℕ → ℕ
last_of previous [] = previous
last_of previous (total ∷ totals) = last_of total totals

-- The EXP that the settlements of a job award, one after the other.
unfoldable pub awarded : Bool → ℕ → List ℕ → Result SmeltingMathError ℤ
awarded bypassed previous [] = ok (pos 0)
awarded bypassed previous (total ∷ totals) = do
  progress ← smelting_aexp_progress (pos previous) (pos total) bypassed
  rest ← awarded bypassed total totals
  ok (progress.newly_awarded_activity_xp +ℤ rest)

last_of-le :
    (previous : ℕ) (totals : List ℕ)
    → Ascending previous totals
    → previous ≤ last_of previous totals
last_of-le previous [] a = omega arith
last_of-le previous (total ∷ totals) a = omega (arith, last_of-le total totals a.2)

progress_step :
    (previous total : ℕ)
    → previous ≤ total
    → total < i64_limit
    → smelting_aexp_progress (pos previous) (pos total) false
      ≡ ok (progress_of (pos (total / 8 - previous / 8)) (pos (total / 8)) (pos (total % 8)))
unfolding smelting_aexp_progress award_progress checked_sub ◌/ℤ◌ ◌%ℤ◌
progress_step previous total h b =
    rw (sub_i64_pos arithmetic_overflow (total / 8) (previous / 8) (omega arith) (omega arith))
      (ground arith)

bypassed_step :
    (previous total : ℕ)
    → previous ≤ total
    → smelting_aexp_progress (pos previous) (pos total) true
      ≡ ok (progress_of (pos 0) (pos 0) (pos (total % 8)))
unfolding smelting_aexp_progress ◌%ℤ◌
bypassed_step previous total h = ground arith

-- However the progress of a job is settled, by completed counts that never fall and stay in the
-- width, the awards add up to one EXP for each eight units between its start and its end, and to
-- nothing for bypassed output.
pub awarded-last_of :
    (bypassed : Bool) (previous : ℕ) (totals : List ℕ)
    → Ascending previous totals
    → awarded bypassed previous totals
      ≡ ok (pos (if bypassed then 0 else last_of previous totals / 8 - previous / 8))
unfolding awarded ◌+ℤ◌
awarded-last_of false previous [] a = ground arith
awarded-last_of false previous (total ∷ totals) a =
    let le = last_of-le total totals a.2 in
    rw (progress_step previous total a.0 a.1, awarded-last_of false total totals a.2) (ground arith)
awarded-last_of true previous [] a = refl
awarded-last_of true previous (total ∷ totals) a =
    rw (bypassed_step previous total a.0, awarded-last_of true total totals a.2) refl
