-- ===== src/Services/Repair.antt =====
-- crates/graphite-services/src/repair.rs: the price of a full repair, and the refund of a cancelled
-- one.
pub mod Rounding
pub mod Price
use graphite_bot.Common.{
  Bool, true, false, ◌||◌, Result, ok, err, ◌>>=◌, ◌>>◌, ok_or, fail_if, if◌then◌else◌,
}
use graphite_bot.Common.Int.{
  ℤ, pos, ◌+ℤ◌, ◌-ℤ◌, ◌*ℤ◌, ◌/ℤ◌, ◌%ℤ◌, ltb_ℤ, leb_ℤ, eqb_ℤ, to_i64, to_i128,
}
use graphite_bot.Services.Equipment.{
  EquipmentTier, EquipmentSlot, EquipmentMaterial, repair_ratio_percent, material,
  base_material_units,
}

pub record RepairPreview : Type 0 where
  pub tier : EquipmentTier
  pub slot : EquipmentSlot
  pub current_durability : ℤ
  pub max_durability : ℤ
  pub missing_durability : ℤ
  pub recraft_appraisal : ℤ
  pub money_cost : ℤ
  pub repair_material : EquipmentMaterial
  pub material_units : ℤ
  pub activity_xp_cost : ℤ

pub record RepairCancelRefund : Type 0 where
  pub material_units : ℤ
  pub money : ℤ
  pub activity_xp : ℤ

pub data RepairMathError : Type 0 where
  invalid_max_durability invalid_current_durability invalid_recraft_appraisal : RepairMathError
  no_missing_durability : RepairMathError
  undefined_tier_repair_ratio : EquipmentTier → RepairMathError
  negative_eligible_material_units arithmetic_overflow : RepairMathError

-- Checked arithmetic at 128 bits.
abbrev pub narrow : ℤ → Result RepairMathError ℤ
narrow a = ok_or (to_i128 a) arithmetic_overflow

unfoldable pub checked_mul : ℤ → ℤ → Result RepairMathError ℤ
checked_mul left right = narrow (left *ℤ right)

abbrev pub to_i64_or_overflow : ℤ → Result RepairMathError ℤ
to_i64_or_overflow value = ok_or (to_i64 value) arithmetic_overflow

unfoldable pub round100_with_minimum : ℤ → ℤ → Result RepairMathError ℤ
unfolding checked_mul
round100_with_minimum numerator denominator = do
  minimum ← checked_mul (pos 100) denominator
  let rounded = (do
    rounding_offset ← checked_mul (pos 50) denominator
    raised ← narrow (numerator +ℤ rounding_offset)
    unit ← checked_mul (pos 100) denominator
    checked_mul (raised /ℤ unit) (pos 100))
  (if ltb_ℤ numerator minimum then ok (pos 100) else rounded)

unfoldable pub ceil_ratio : ℤ → ℤ → Result RepairMathError ℤ
ceil_ratio numerator denominator = narrow (
    numerator /ℤ denominator +ℤ (if eqb_ℤ (numerator %ℤ denominator) (pos 0) then pos 0 else pos 1))

abbrev pub is_gold : EquipmentTier → Bool
is_gold EquipmentTier.gold = true
is_gold _ = false

unfoldable pub activity_cost : EquipmentTier → ℤ → ℤ → ℤ → Result RepairMathError ℤ
activity_cost tier base missing maximum =
    let cost = (do
      each ← checked_mul (pos 250) base
      numerator ← checked_mul each missing
      ceil_ratio numerator maximum) in
    if is_gold tier then cost else ok (pos 0)

unfoldable pub preview_full_repair :
    EquipmentTier → EquipmentSlot → ℤ → ℤ → ℤ → Result RepairMathError RepairPreview
preview_full_repair tier slot current maximum appraisal = do
  fail_if (leb_ℤ maximum (pos 0)) invalid_max_durability
  fail_if (ltb_ℤ current (pos 0) || ltb_ℤ maximum current) invalid_current_durability
  fail_if (leb_ℤ appraisal (pos 0)) invalid_recraft_appraisal
  missing ← to_i64_or_overflow (maximum -ℤ current)
  fail_if (eqb_ℤ missing (pos 0)) no_missing_durability
  ratio ← ok_or (repair_ratio_percent tier) (undefined_tier_repair_ratio tier)
  share ← checked_mul appraisal ratio
  numerator ← checked_mul share missing
  denominator ← checked_mul (pos 100) maximum
  money ← round100_with_minimum numerator denominator
  base ← checked_mul (base_material_units slot) missing
  units ← ceil_ratio base maximum
  experience ← activity_cost tier (base_material_units slot) missing maximum
  money_cost ← to_i64_or_overflow money
  units_cost ← to_i64_or_overflow units
  experience_cost ← to_i64_or_overflow experience
  ok (record {
    tier = tier;
    slot = slot;
    current_durability = current;
    max_durability = maximum;
    missing_durability = missing;
    recraft_appraisal = appraisal;
    money_cost = money_cost;
    repair_material = material tier;
    material_units = units_cost;
    activity_xp_cost = experience_cost;
  })

unfoldable pub repair_cancel_refund : ℤ → Result RepairMathError RepairCancelRefund
unfolding checked_mul
repair_cancel_refund eligible = do
  fail_if (ltb_ℤ eligible (pos 0)) negative_eligible_material_units
  scaled ← checked_mul eligible (pos 4)
  units ← to_i64_or_overflow (scaled /ℤ pos 5)
  ok (record { material_units = units; money = pos 0; activity_xp = pos 0 })
