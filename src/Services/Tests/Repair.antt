-- ===== src/Services/Tests/Repair.antt =====
-- An iron pickaxe with a quarter of its durability gone.
use graphite_bot.Common.{◌≡◌, refl, some, ok, arith}
use graphite_bot.Common.Int.{pos, ◌+ℤ◌, ◌-ℤ◌, ◌*ℤ◌, ◌/ℤ◌, ◌%ℤ◌}
use graphite_bot.Services.Equipment.{
  EquipmentTier, EquipmentSlot, repair_ratio_percent, base_material_units,
}
use graphite_bot.Services.Repair.{
  preview_full_repair, checked_mul, ceil_ratio, round100_with_minimum, activity_cost,
}
use graphite_bot.Services.Repair.Price.{Priced, preview_of, preview_full_repair-Priced}

iron_ratio : repair_ratio_percent EquipmentTier.iron ≡ some (pos 14)
unfolding repair_ratio_percent
iron_ratio = refl

pickaxe_units : base_material_units EquipmentSlot.pickaxe ≡ pos 2
unfolding base_material_units
pickaxe_units = refl

preview_full_repair-Priced_example :
    Priced EquipmentTier.iron EquipmentSlot.pickaxe 300 400 77_500 14 2
preview_full_repair-Priced_example =
    preview_full_repair-Priced EquipmentTier.iron EquipmentSlot.pickaxe 300 400 77_500 14 2
      iron_ratio pickaxe_units (omega arith) (omega arith) (omega arith) (omega arith) (omega arith)

iron_pickaxe :
    preview_full_repair EquipmentTier.iron EquipmentSlot.pickaxe (pos 300) (pos 400) (pos 77_500)
    ≡ ok (preview_of EquipmentTier.iron EquipmentSlot.pickaxe 300 400 77_500 2_700 1 0)
unfolding preview_full_repair repair_ratio_percent base_material_units checked_mul ceil_ratio
    round100_with_minimum activity_cost ◌+ℤ◌ ◌-ℤ◌ ◌*ℤ◌ ◌/ℤ◌ ◌%ℤ◌
iron_pickaxe = refl
