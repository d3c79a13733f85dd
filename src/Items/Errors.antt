-- ===== src/Items/Errors.antt =====
-- `ItemError` of crates/graphite-items/src/lib.rs.
use graphite_bot.Common.Values.{Uuid, Text, PlayerStatus, OperationState}

pub data ItemError : Type 0 where
  database invalid_operation_result snowflake_out_of_range player_not_found : ItemError
  account_frozen : PlayerStatus → ItemError
  item_not_found item_not_in_locker item_not_equipped not_equippable : ItemError
  invalid_stack_definition invalid_quantity idempotency_conflict : ItemError
  operation_terminal : OperationState → ItemError
  operation_missing_after_insert arithmetic_overflow : ItemError
  equipment_structural_state_missing invalid_equipment_structural_state : ItemError
  equipment_integrity_mismatch equipped_armor_enchant_rows_exceeded : ItemError
  unknown_embedded_enchant_key : Uuid → Text → ItemError
  equipped_armor_enchant_conflict : Uuid → Text → Uuid → Text → ItemError
