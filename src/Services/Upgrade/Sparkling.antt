-- ===== src/Services/Upgrade/Sparkling.antt =====
-- The table of upgrade_outcome.rs holds chances, and Sparkling raises each by its share, up to one.
use native.Mathlib.Nat.{mul-le-mul}
use graphite_bot.Common.{
  ℕ, zero, suc, ◌+◌, ◌-◌, ◌*◌, ◌≤◌, ◌<◌, ◌≡◌, refl, true, false, List, [], ◌∷◌, All, length, get_or,
  ltb, leb, ◌==◌, arith, inl, inr, min, Bool-cases, ok,
}
use graphite_bot.Services.Upgrade.{
  UpgradeProbability, UpgradeBaseOutcomePolicy, UpgradeSparklingPreview, gcd_loop, gcd, probability,
  frozen_rows, apply_relative_bonus, upgrade_base_outcome_policy, capped_effective_level,
  preview_sparkling_upgrade_success,
}
use graphite_bot.Services.Upgrade.Ratio.{IsRatio, probability-IsRatio}

-- A chance whose terms are small.
abbrev pub IsSmall : UpgradeProbability → Type 0
IsSmall p = (0 < p.denominator) × (p.numerator ≤ p.denominator) × (p.denominator ≤ 20000)

frozen_rows-IsSmall : All (λ row. IsSmall row.0) frozen_rows
unfolding probability gcd gcd_loop
frozen_rows-IsSmall = ground arith

All-get_or :
    {A : Type 0} (P : A → Type 0) (xs : List A) (i : ℕ) (d : A)
    → i < length xs
    → All P xs
    → P (get_or xs i d)
All-get_or P [] i d h a = absurd (omega arith)
All-get_or P (x ∷ xs) zero d h a = a.0
All-get_or P (x ∷ xs) (suc i) d h a = All-get_or P xs i d (omega arith) a.1

capped-min : (level : ℕ) → capped_effective_level level ≡ min level 10
unfolding capped_effective_level
capped-min level = ground arith

-- The chance of success with a bonus, as numbers.
abbrev pub raised : UpgradeProbability → ℕ → ℕ
raised base bonus = min (base.numerator * (100 + bonus)) (base.denominator * 100)

certain-IsRatio : (m : ℕ) → 0 < m → IsRatio m m (probability 1 1)
certain-IsRatio m positive =
    let one = probability-IsRatio 1 1 (omega arith) (omega arith) in
    let same : (probability 1 1).numerator ≡ (probability 1 1).denominator =
      omega (arith, one.ratio) in
    record {
      ratio = rw (same) (omega arith);
      at_most_one = one.at_most_one;
      positive = one.positive;
      lowest = one.lowest;
    }

-- Each level up to the twentieth has its row.
base_of_table :
    (target : ℕ)
    → 0 < target
    → target ≤ 20
    → (base : UpgradeBaseOutcomePolicy) × (upgrade_base_outcome_policy target ≡ ok base)
      × IsSmall base.success
unfolding upgrade_base_outcome_policy
base_of_table target positive within =
    let row = get_or frozen_rows (target - 1) (probability 0 1, probability 0 1) in
    let some_level : (target == 0) ≡ false = ground arith in
    let in_table : ltb 20 target ≡ false = ground arith in
    (
      record {
        target_level = target;
        success = row.0;
        downgrade_if_failure = row.1;
        failure_destroys_equipment = false;
        downgrade_levels_on_trigger = 1;
        success_and_downgrade_parameters_are_independent = true;
        protection_orb_resolves_before_stabilize = true;
      },
      rw (some_level, in_table) refl,
      All-get_or (λ entry. IsSmall entry.0) frozen_rows (target - 1)
          (probability 0 1, probability 0 1) (omega arith) frozen_rows-IsSmall,
    )

apply_relative_bonus-IsRatio :
    (base : UpgradeProbability) (bonus : ℕ)
    → IsSmall base
    → bonus ≤ 50
    → (p : UpgradeProbability) × (apply_relative_bonus base bonus ≡ ok p)
      × IsRatio (raised base bonus) (base.denominator * 100) p
unfolding apply_relative_bonus
apply_relative_bonus-IsRatio base bonus small within =
    let top = base.numerator * (100 + bonus) in
    let whole = base.denominator * 100 in
    let top_small : top ≤ 20000 * 150 =
      mul-le-mul {n₁ = base.numerator} {m₁ = 100 + bonus} {n₂ = 20000} {m₂ = 150}
        (omega (arith, small.1, small.2)) (omega (arith, within)) in
    let fits : ltb top 340282366920938463463374607431768211456 ≡ true = ground arith in
    let whole_fits : ltb whole 340282366920938463463374607431768211456 ≡ true = ground arith in
    let factor_fits : ltb (100 + bonus) 340282366920938463463374607431768211456 ≡ true =
      ground arith in
    elim (Bool-cases (leb whole top)) [
      | inl full ↦
          let certain : min top whole ≡ whole = ground arith in
          (
            probability 1 1,
            rw (factor_fits, fits, whole_fits, full) refl,
            rw (certain) (certain-IsRatio whole (omega (arith, small.0))),
          )
      | inr part ↦
          let partial : min top whole ≡ top = ground arith in
          (
            probability top whole,
            rw (factor_fits, fits, whole_fits, part) refl,
            rw (partial) (probability-IsRatio top whole (omega (arith, small.0)) (ground arith)),
          )
    ]

-- For each target level from 1 to 20 and every level of Sparkling the table has a row and the
-- preview goes through without an overflow; the chance it reports is exactly the base chance
-- raised by five percent for each of at most ten levels, or one where that is more, with a
-- positive denominator that the numerator never exceeds, and in lowest terms: one is a difference
-- of multiples of the two.
pub preview_sparkling_upgrade_success_total :
    (target level : ℕ)
    → 0 < target
    → target ≤ 20
    → (base : UpgradeBaseOutcomePolicy) × (preview : UpgradeSparklingPreview)
      × (upgrade_base_outcome_policy target ≡ ok base)
      × (preview_sparkling_upgrade_success target level ≡ ok preview)
      × IsRatio
          (raised base.success (min level 10 * 5))
          (base.success.denominator * 100)
          preview.adjusted_success
unfolding preview_sparkling_upgrade_success
preview_sparkling_upgrade_success_total target level positive within =
    let (base, found, small) = base_of_table target positive within in
    let (adjusted, raised_eq, is_ratio) =
      apply_relative_bonus-IsRatio base.success (min level 10 * 5) small (ground arith) in
    (
      base,
      record {
        target_level = target;
        enchant_level = level;
        effective_level = min level 10;
        relative_success_bonus_percent = min level 10 * 5;
        base_success = base.success;
        adjusted_success = adjusted;
      },
      found,
      rw (found, capped-min level, raised_eq) refl,
      is_ratio,
    )
