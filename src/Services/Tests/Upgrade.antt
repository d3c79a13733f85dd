-- ===== src/Services/Tests/Upgrade.antt =====
-- Sparkling at its cap on the chance of +20.
use graphite_bot.Common.{◌*◌, ◌≡◌, refl, ok, arith, min}
use graphite_bot.Services.Upgrade.{
  UpgradeBaseOutcomePolicy, UpgradeSparklingPreview, gcd_loop, gcd, probability,
  upgrade_base_outcome_policy, capped_effective_level, apply_relative_bonus,
  preview_sparkling_upgrade_success, preview_stabilize_downgrade_prevention,
}
use graphite_bot.Services.Upgrade.Ratio.{IsRatio}
use graphite_bot.Services.Upgrade.Sparkling.{raised, preview_sparkling_upgrade_success_total}

three_in_forty_thousand :
    preview_sparkling_upgrade_success 20 999
    ≡ ok (record {
      target_level = 20;
      enchant_level = 999;
      effective_level = 10;
      relative_success_bonus_percent = 50;
      base_success = record { numerator = 1; denominator = 20_000 };
      adjusted_success = record { numerator = 3; denominator = 40_000 };
    })
unfolding preview_sparkling_upgrade_success upgrade_base_outcome_policy capped_effective_level
    apply_relative_bonus probability gcd gcd_loop
three_in_forty_thousand = refl

seven_tenths :
    (preview_stabilize_downgrade_prevention 10).downgrade_prevention
    ≡ record { numerator = 7; denominator = 10 }
unfolding preview_stabilize_downgrade_prevention capped_effective_level probability gcd gcd_loop
seven_tenths = refl

preview_sparkling_upgrade_success_total_example :
    (base : UpgradeBaseOutcomePolicy) × (preview : UpgradeSparklingPreview)
    × (upgrade_base_outcome_policy 20 ≡ ok base)
    × (preview_sparkling_upgrade_success 20 999 ≡ ok preview)
    × IsRatio
        (raised base.success (min 999 10 * 5))
        (base.success.denominator * 100)
        preview.adjusted_success
preview_sparkling_upgrade_success_total_example =
    preview_sparkling_upgrade_success_total 20 999 (omega arith) (omega arith)
