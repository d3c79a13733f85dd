-- ===== src/Progression/Tests/Curves.antt =====
-- The curves at the values that the source's own tests name.
use graphite_bot.Common.{ℕ, ◌≤◌, ◌≡◌, ◌↔◌, refl, arith, ok, err, partition_point}
use graphite_bot.Common.Int.{pos, negsuc, ◌+ℤ◌, ◌-ℤ◌, ◌*ℤ◌, ◌/ℤ◌}
use graphite_bot.Common.FixedPoint.{q32_mul, q32_pow}
use graphite_bot.Progression.Errors.{invalid_account_xp, invalid_activity_xp}
use graphite_bot.Progression.Account.{
  account_level, account_xp_thresholds, thresholds_from, account_xp_to_next_const,
  cumulative_level_reward, account_cumulative_level_rewards, rewards_from, level_money_reward_const,
}
use graphite_bot.Progression.Account.Levels.{IsLevelAt, account_level-iff-IsLevelAt}
use graphite_bot.Progression.Activity.{
  ActivityProgress, activity_progress, activity_level, raise_bound, narrow_bound,
  activity_total_i128, total_low, total_middle, total_high, activity_xp_to_next,
}
use graphite_bot.Progression.Activity.Progress.{IsActivityProgress, activity_progress_total}
use graphite_bot.Progression.Rebirth.{
  rebirth_aexp_bonus_ppm, rebirth_repair_reduction_ppm, rebirth_effect_ppm, rebirth_effects_within,
}

account_level_cap : account_level (pos 172_370) ≡ ok 200
unfolding account_level account_xp_thresholds thresholds_from account_xp_to_next_const
    partition_point
account_level_cap = refl

account_level_outside : account_level (pos 172_371) ≡ err invalid_account_xp
unfolding account_level
account_level_outside = refl

reward_total : cumulative_level_reward 200 ≡ pos 1_609_400
unfolding cumulative_level_reward account_cumulative_level_rewards rewards_from
    level_money_reward_const
reward_total = refl

account_level-iff-IsLevelAt_example :
    (account_level (pos 120) ≡ ok 2) ↔ ((m : ℕ) × (pos 120 ≡ pos m) × IsLevelAt m 2)
account_level-iff-IsLevelAt_example = account_level-iff-IsLevelAt (pos 120) 2

activity_progress_middle :
    activity_progress (pos 1_600)
    ≡ ok (record {
      points = pos 1_600;
      level = 31;
      points_into_level = pos 93;
      points_for_next_level = pos 121;
      points_remaining = pos 28;
    })
unfolding activity_progress activity_level raise_bound narrow_bound activity_total_i128 total_low
    total_middle total_high activity_xp_to_next ◌+ℤ◌ ◌-ℤ◌ ◌*ℤ◌ ◌/ℤ◌
activity_progress_middle = refl

activity_progress_negative : activity_progress (negsuc 0) ≡ err invalid_activity_xp
unfolding activity_progress
activity_progress_negative = refl

activity_progress_total_example :
    (p : ActivityProgress) × (activity_progress (pos 1_600) ≡ ok p) × IsActivityProgress 1_600 p
activity_progress_total_example = activity_progress_total 1_600 (omega arith)

rebirth_bonus_once : rebirth_aexp_bonus_ppm 1 ≡ ok (pos 14_631)
unfolding rebirth_aexp_bonus_ppm rebirth_effect_ppm q32_pow q32_mul ◌+ℤ◌ ◌-ℤ◌ ◌*ℤ◌ ◌/ℤ◌
rebirth_bonus_once = refl

rebirth_effects_within_example :
    (bonus : ℕ) × (reduction : ℕ) × (rebirth_aexp_bonus_ppm 20 ≡ ok (pos bonus))
    × (bonus ≤ 300_000)
    × (rebirth_repair_reduction_ppm 20 ≡ ok (pos reduction))
    × (reduction ≤ 100_000)
rebirth_effects_within_example = rebirth_effects_within 20
