-- ===== src/Services/Equipment.antt =====
-- The tables of crates/graphite-services/src/equipment_policy.rs that Repair reads.
use graphite_bot.Common.{Option, none, some}
use graphite_bot.Common.Int.{ℤ, pos}

pub data EquipmentTier : Type 0 where
  starter_leather wood stone copper gold iron diamond obsidian netherite graphite : EquipmentTier

pub data EquipmentSlot : Type 0 where
  pickaxe sword fishing_rod helmet chestplate leggings boots : EquipmentSlot

pub data EquipmentMaterial : Type 0 where
  leather wood_log stone copper_ingot gold_ingot iron_ingot diamond : EquipmentMaterial
  obsidian netherite_scrap graphite_layer : EquipmentMaterial

unfoldable pub repair_ratio_percent : EquipmentTier → Option ℤ
repair_ratio_percent EquipmentTier.starter_leather = none
repair_ratio_percent EquipmentTier.wood = some (pos 10)
repair_ratio_percent EquipmentTier.stone = some (pos 11)
repair_ratio_percent EquipmentTier.copper = some (pos 13)
repair_ratio_percent EquipmentTier.gold = some (pos 25)
repair_ratio_percent EquipmentTier.iron = some (pos 14)
repair_ratio_percent EquipmentTier.diamond = some (pos 16)
repair_ratio_percent EquipmentTier.obsidian = some (pos 18)
repair_ratio_percent EquipmentTier.netherite = some (pos 20)
repair_ratio_percent EquipmentTier.graphite = some (pos 23)

unfoldable pub material : EquipmentTier → EquipmentMaterial
material EquipmentTier.starter_leather = EquipmentMaterial.leather
material EquipmentTier.wood = EquipmentMaterial.wood_log
material EquipmentTier.stone = EquipmentMaterial.stone
material EquipmentTier.copper = EquipmentMaterial.copper_ingot
material EquipmentTier.gold = EquipmentMaterial.gold_ingot
material EquipmentTier.iron = EquipmentMaterial.iron_ingot
material EquipmentTier.diamond = EquipmentMaterial.diamond
material EquipmentTier.obsidian = EquipmentMaterial.obsidian
material EquipmentTier.netherite = EquipmentMaterial.netherite_scrap
material EquipmentTier.graphite = EquipmentMaterial.graphite_layer

unfoldable pub base_material_units : EquipmentSlot → ℤ
base_material_units EquipmentSlot.pickaxe = pos 2
base_material_units EquipmentSlot.sword = pos 2
base_material_units EquipmentSlot.fishing_rod = pos 2
base_material_units EquipmentSlot.helmet = pos 2
base_material_units EquipmentSlot.boots = pos 2
base_material_units EquipmentSlot.chestplate = pos 4
base_material_units EquipmentSlot.leggings = pos 3
