-- ===== src/Services/Upgrade.antt =====
-- crates/graphite-services/src/upgrade_outcome.rs: the chances of an upgrade as exact ratios, and
-- what the enchants Sparkling and Stabilize do to them.
pub mod Ratio
pub mod Sparkling
use graphite_bot.Common.{
  ℕ, zero, suc, ◌+◌, ◌-◌, ◌*◌, ◌/◌, ◌%◌, Bool, true, false, List, [], ◌∷◌, get_or, Result, ok, err,
  ◌>>=◌, if◌then◌else◌, ◌==◌, ltb, leb,
}

abbrev pub max_frozen_target_level : ℕ
max_frozen_target_level = 20

abbrev pub max_effective_special_enchant_level : ℕ
max_effective_special_enchant_level = 10

abbrev pub sparkling_relative_success_percent_per_level : ℕ
sparkling_relative_success_percent_per_level = 5

abbrev pub stabilize_prevention_percent_per_level : ℕ
stabilize_prevention_percent_per_level = 7

pub record UpgradeProbability : Type 0 where
  pub numerator : ℕ
  pub denominator : ℕ

pub record UpgradeBaseOutcomePolicy : Type 0 where
  pub target_level : ℕ
  pub success : UpgradeProbability
  pub downgrade_if_failure : UpgradeProbability
  pub failure_destroys_equipment : Bool
  pub downgrade_levels_on_trigger : ℕ
  pub success_and_downgrade_parameters_are_independent : Bool
  pub protection_orb_resolves_before_stabilize : Bool

pub record UpgradeSparklingPreview : Type 0 where
  pub target_level : ℕ
  pub enchant_level : ℕ
  pub effective_level : ℕ
  pub relative_success_bonus_percent : ℕ
  pub base_success : UpgradeProbability
  pub adjusted_success : UpgradeProbability

pub record UpgradeStabilizePreview : Type 0 where
  pub enchant_level : ℕ
  pub effective_level : ℕ
  pub downgrade_prevention : UpgradeProbability
  pub loses_one_level_only_when_prevention_triggers : Bool

pub data UpgradeOutcomePolicyError : Type 0 where
  target_level_zero : UpgradeOutcomePolicyError
  probability_table_undefined : ℕ → ℕ → UpgradeOutcomePolicyError
  arithmetic_overflow : UpgradeOutcomePolicyError

-- The loop of `gcd`, on fuel: the second number falls in each round.
unfoldable pub gcd_loop : ℕ → ℕ → ℕ → ℕ
gcd_loop zero left right = left
gcd_loop (suc fuel) left right = elim (right == 0) [
  | true ↦ left
  | false ↦ gcd_loop fuel right (left % right)
]

unfoldable pub gcd : ℕ → ℕ → ℕ
gcd left right = gcd_loop (suc right) left right

-- `probability`, whose denominator is positive and bounds the numerator.
unfoldable pub probability : ℕ → ℕ → UpgradeProbability
probability numerator denominator =
    if numerator == 0 then record { numerator = 0; denominator = 1 } else record {
      numerator = numerator / gcd numerator denominator;
      denominator = denominator / gcd numerator denominator;
    }

-- The rows of the table, from +1 on: the chance of success and that of a downgrade.
abbrev pub frozen_rows : List (UpgradeProbability × UpgradeProbability)
frozen_rows =
    (probability 1 1, probability 0 1)
    ∷ (probability 19 20, probability 0 1)
    ∷ (probability 9 10, probability 0 1)
    ∷ (probability 17 20, probability 0 1)
    ∷ (probability 4 5, probability 0 1)
    ∷ (probability 7 10, probability 0 1)
    ∷ (probability 3 5, probability 0 1)
    ∷ (probability 1 2, probability 0 1)
    ∷ (probability 2 5, probability 0 1)
    ∷ (probability 3 10, probability 1 100)
    ∷ (probability 1 5, probability 3 200)
    ∷ (probability 3 25, probability 1 50)
    ∷ (probability 7 100, probability 3 100)
    ∷ (probability 7 200, probability 1 25)
    ∷ (probability 1 100, probability 1 20)
    ∷ (probability 1 500, probability 7 100)
    ∷ (probability 1 2_000, probability 1 10)
    ∷ (probability 1 5_000, probability 3 25)
    ∷ (probability 1 10_000, probability 3 20)
    ∷ (probability 1 20_000, probability 9 50)
    ∷ []

unfoldable pub upgrade_base_outcome_policy :
    ℕ → Result UpgradeOutcomePolicyError UpgradeBaseOutcomePolicy
upgrade_base_outcome_policy target =
    if target == 0
    then err target_level_zero
    else if ltb max_frozen_target_level target
    then err (probability_table_undefined target max_frozen_target_level)
    else (let row = get_or frozen_rows (target - 1) (probability 0 1, probability 0 1) in
        ok (record {
          target_level = target;
          success = row.0;
          downgrade_if_failure = row.1;
          failure_destroys_equipment = false;
          downgrade_levels_on_trigger = 1;
          success_and_downgrade_parameters_are_independent = true;
          protection_orb_resolves_before_stabilize = true;
        }))

unfoldable pub capped_effective_level : ℕ → ℕ
capped_effective_level level =
    if leb max_effective_special_enchant_level level
    then max_effective_special_enchant_level
    else level

abbrev pub to_u128 : ℕ → Result UpgradeOutcomePolicyError ℕ
to_u128 n = if ltb n 340282366920938463463374607431768211456 then ok n else err arithmetic_overflow

unfoldable pub apply_relative_bonus :
    UpgradeProbability → ℕ → Result UpgradeOutcomePolicyError UpgradeProbability
apply_relative_bonus base bonus = do
  multiplier ← to_u128 (100 + bonus)
  numerator ← to_u128 (base.numerator * multiplier)
  denominator ← to_u128 (base.denominator * 100)
  ok (if leb denominator numerator then probability 1 1 else probability numerator denominator)

unfoldable pub preview_sparkling_upgrade_success :
    ℕ → ℕ → Result UpgradeOutcomePolicyError UpgradeSparklingPreview
preview_sparkling_upgrade_success target sparkling_level = do
  base ← upgrade_base_outcome_policy target
  let effective_level = capped_effective_level sparkling_level
  let bonus = effective_level * sparkling_relative_success_percent_per_level
  adjusted_success ← apply_relative_bonus base.success bonus
  ok (record {
    target_level = target;
    enchant_level = sparkling_level;
    effective_level = effective_level;
    relative_success_bonus_percent = bonus;
    base_success = base.success;
    adjusted_success = adjusted_success;
  })

unfoldable pub preview_stabilize_downgrade_prevention : ℕ → UpgradeStabilizePreview
preview_stabilize_downgrade_prevention stabilize_level =
    let effective_level = capped_effective_level stabilize_level in
    record {
      enchant_level = stabilize_level;
      effective_level = effective_level;
      downgrade_prevention =
          probability (effective_level * stabilize_prevention_percent_per_level) 100;
      loses_one_level_only_when_prevention_triggers = true;
    }
