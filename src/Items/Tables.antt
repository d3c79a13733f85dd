-- ===== src/Items/Tables.antt =====
-- The tables of migrations/0001_foundation.sql and migrations/0004_storage_equipment.sql that
-- crates/graphite-items/src/transactional_stack.rs and transactional_stack_consumption.rs read and
-- write. Rows stand in lists; a row keeps the columns these two files use.
use graphite_bot.Common.{ℕ, Bool, Option, List}
use graphite_bot.Common.Int.{ℤ}
use graphite_bot.Common.Values.{Uuid, Text, PlayerStatus, OperationState}

-- A JSON value, only compared.
abbrev pub JsonValue : Type 0
JsonValue = ℕ

-- `item_instances.location`, whose list contains that of `item_stacks.location`.
pub data Location : Type 0 where
  equipped tool_locker item_bag catch_bag temp_overflow market_escrow : Location
  trade_escrow processing_output trash_recovery job_reservation : Location

pub record StackRow : Type 0 where
  pub player_id : Uuid
  pub definition_key : Text
  pub definition_version : ℤ
  pub location : Location
  pub quantity : ℤ

-- `item_definition_versions`; `stack_limit` is nullable.
pub record DefinitionRow : Type 0 where
  pub key : Text
  pub version : ℤ
  pub stackable : Bool
  pub stack_limit : Option ℤ

-- `item_instances`.
pub record ItemInstanceRow : Type 0 where
  pub id : Uuid
  pub owner_player_id : Uuid
  pub location : Location

-- A player with the joined `player_storage_profiles.item_bag_level`, where the profile exists.
pub record PlayerRow : Type 0 where
  pub id : Uuid
  pub status : PlayerStatus
  pub item_bag_level : Option ℤ

pub record OperationRow : Type 0 where
  pub id : Uuid
  pub player_id : Option Uuid
  pub state : OperationState

-- `pending_asset_deliveries`, all for the Item Bag and for want of capacity.
pub record PendingDeliveryRow : Type 0 where
  pub id : Uuid
  pub operation_id : Uuid
  pub mutation_key : Text
  pub player_id : Uuid
  pub definition_key : Text
  pub definition_version : ℤ
  pub quantity : ℤ

pub record StackDeliveryMutationReceipt : Type 0 where
  pub event_id : Uuid
  pub operation_id : Uuid
  pub player_id : Uuid
  pub mutation_key : Text
  pub definition_key : Text
  pub definition_version : ℤ
  pub quantity : ℤ
  pub pending_delivery_id : Option Uuid
  pub pending : Bool

pub record StackConsumptionMutationReceipt : Type 0 where
  pub event_id : Uuid
  pub operation_id : Uuid
  pub player_id : Uuid
  pub mutation_key : Text
  pub definition_key : Text
  pub definition_version : ℤ
  pub quantity : ℤ
  pub quantity_before : ℤ
  pub quantity_after : ℤ

pub data EventKind : Type 0 where
  stack_subdelivery_delivered stack_subdelivery_pending : EventKind
  stack_subconsumption_consumed : EventKind
  other_kind : Text → EventKind

-- A stored payload by the type it reads back as: the receipt, its source and its provenance.
pub data EventPayload : Type 0 where
  stack_delivery : StackDeliveryMutationReceipt → Text → JsonValue → EventPayload
  stack_consumption : StackConsumptionMutationReceipt → Text → JsonValue → EventPayload
  other_payload : JsonValue → EventPayload

pub record EventRow : Type 0 where
  pub id : Uuid
  pub operation_id : Uuid
  pub mutation_key : Text
  pub player_id : Uuid
  pub event_kind : EventKind
  pub payload : EventPayload

pub record ItemDb : Type 0 where
  pub operations : List OperationRow
  pub players : List PlayerRow
  pub definitions : List DefinitionRow
  pub stacks : List StackRow
  pub items : List ItemInstanceRow
  pub pending_deliveries : List PendingDeliveryRow
  pub events : List EventRow
