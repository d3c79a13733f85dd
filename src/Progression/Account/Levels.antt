-- ===== src/Progression/Account/Levels.antt =====
-- Account levels against the sums of the curve, and the split of the total XP at its level.
use graphite_bot.Common.{
  ℕ, zero, suc, ◌+◌, ◌-◌, ◌≤◌, ◌<◌, ◌≡◌, ◌↔◌, ◌⊎◌, inl, inr, refl, ap, arith, true, ok, leb,
  partition_point,
}
use graphite_bot.Common.Int.{ℤ, pos, negsuc}
use graphite_bot.Progression.Account.{
  account_xp_thresholds, account_level, thresholds_from, account_xp_to_next_const,
}
use graphite_bot.Progression.Account.Curve.{total_xp, total_xp-lt, partition_thresholds}

pub total_xp-cap : total_xp 200 ≡ 172370
unfolding total_xp account_xp_to_next_const
total_xp-cap = refl

total_xp_one : total_xp 1 ≡ 0
unfolding total_xp
total_xp_one = refl

-- The XP lies between the start of the level and the start of the next one, which level 200 has not.
pub record IsLevelAt (m : ℕ) (level : ℕ) : Type 0 where
  pub first : 1 ≤ level
  pub last : level ≤ 200
  pub reached : total_xp level ≤ m
  pub not_next : ((level ≡ 200) × (m ≡ 172370)) ⊎ ((level < 200) × (m < total_xp (level + 1)))

total_xp_mono : (level d : ℕ) → 1 ≤ level → total_xp level ≤ total_xp (level + d)
total_xp_mono level zero h = ground arith
total_xp_mono level (suc d) h =
    ground (arith, total_xp_mono level d h, total_xp-lt (level + d) (omega arith))

pub total_xp-le : (a b : ℕ) → 1 ≤ a → a ≤ b → total_xp a ≤ total_xp b
total_xp-le a b h k = let e : a + (b - a) ≡ b = omega arith in rw (← e) (total_xp_mono a (b - a) h)

-- Only one level fits.
pub IsLevelAt-unique : (m a b : ℕ) → IsLevelAt m a → IsLevelAt m b → a ≡ b
IsLevelAt-unique m a b p q = ground (
  arith,
  total_xp-le (a + 1) b (omega arith),
  total_xp-le (b + 1) a (omega arith),
  p.first,
  p.last,
  p.reached,
  p.not_next,
  q.first,
  q.last,
  q.reached,
  q.not_next,
)

pub level_of : ℕ → ℕ
level_of m = partition_point (λ threshold. leb threshold m) account_xp_thresholds

bracket-IsLevelAt :
    (m k : ℕ)
    → m ≤ 172370
    → (k ≤ 199) × (total_xp (1 + k) ≤ m) × ((k ≡ 199) ⊎ (m < total_xp (1 + k + 1)))
    → IsLevelAt m (suc k)
bracket-IsLevelAt m k h (few, reached, inl last) =
    let level : suc k ≡ 200 = omega arith in
    record {
      first = omega arith;
      last = omega arith;
      reached = ground arith;
      not_next = inl (level, ground (arith, total_xp-cap));
    }
bracket-IsLevelAt m k h (few, reached, inr next) = record {
  first = omega arith;
  last = omega arith;
  reached = ground arith;
  not_next = ground (arith, total_xp-cap);
}

pub level_of-IsLevelAt : (m : ℕ) → m ≤ 172370 → IsLevelAt m (level_of m)
unfolding level_of account_xp_thresholds partition_point
level_of-IsLevelAt m h =
    let start : total_xp 1 ≤ m = ground (arith, total_xp_one) in
    let parts =
      partition_thresholds 199 1
        (partition_point (λ threshold. leb threshold m) (thresholds_from 199 1 0)) m (omega arith)
        start (rw total_xp_one refl) in
    let zeroth : leb 0 m ≡ true = ground arith in rw zeroth (bracket-IsLevelAt m _ h parts)

pub account_level-level_of : (m : ℕ) → m ≤ 172370 → account_level (pos m) ≡ ok (level_of m)
unfolding account_level level_of
account_level-level_of m h =
    let few = (level_of-IsLevelAt m h).last in unfold level_of in ground arith

IsLevelAt-le : (m level : ℕ) → IsLevelAt m level → m ≤ 172370
IsLevelAt-le m level h =
    ground (arith, h.not_next, total_xp-le (level + 1) 200 (omega arith), total_xp-cap)

pub account_level-pos :
    (xp : ℤ) (level : ℕ) → account_level xp ≡ ok level → (m : ℕ) × (xp ≡ pos m) × (m ≤ 172370)
unfolding account_level
account_level-pos (pos m) level h = (m, refl, ground arith)
account_level-pos (negsuc m) level h = absurd (ground arith)

pub account_level-IsLevelAt : (m level : ℕ) → account_level (pos m) ≡ ok level → IsLevelAt m level
account_level-IsLevelAt m level h =
    let (n, e, le) = account_level-pos (pos m) level h in
    let same : level_of m ≡ level = ground (arith, account_level-level_of m (ground arith)) in
    rw (← same) (level_of-IsLevelAt m (ground arith))

-- The level search implements the sums of the curve: it answers with a level just when the XP is
-- not negative and lies from the total of that level up to, but not at, the total of the next
-- one, or is the 172,370 of level 200.
pub account_level-iff-IsLevelAt :
    (xp : ℤ) (level : ℕ)
    → (account_level xp ≡ ok level) ↔ ((m : ℕ) × (xp ≡ pos m) × IsLevelAt m level)
account_level-iff-IsLevelAt xp level = (
  λ h.
      let (m, e, _) = account_level-pos xp level h in
      (m, e, account_level-IsLevelAt m level (rw e at h)),
  λ p.
      let (m, e, at) = p in
      rw (e, account_level-level_of m (IsLevelAt-le m level at))
        (ap ok (
          IsLevelAt-unique m (level_of m) level (level_of-IsLevelAt m (IsLevelAt-le m level at))
            at)),
)

-- Every XP from 0 to the cap has its level.
pub account_level-total :
    (m : ℕ) → m ≤ 172370 → (level : ℕ) × (account_level (pos m) ≡ ok level) × IsLevelAt m level
account_level-total m h = (level_of m, account_level-level_of m h, level_of-IsLevelAt m h)
