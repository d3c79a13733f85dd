-- ===== src/Items/Delivery.antt =====
-- crates/graphite-items/src/transactional_stack.rs: one stack delivered to the Item Bag inside an
-- owning operation, under a key of its own. Whether a text is blank, the length of a text in bytes,
-- and whether a JSON value is an object with a field, are parameters.
pub mod Room
pub mod Delivered
pub mod Again
use graphite_bot.Common.{
  ℕ, Bool, true, false, not, ◌&&◌, ◌||◌, Option, none, some, List, [], ◌∷◌, Result, ok, err, ◌>>=◌,
  ◌>>◌, ok_or, fail_if, if◌then◌else◌, ◌==◌, ltb, leb, ◌+◌, ◌-◌,
}
use graphite_bot.Common.Int.{ℤ, pos, ◌+ℤ◌, eqb_ℤ, leb_ℤ, to_i64}
use graphite_bot.Common.Values.{Uuid, Text, PlayerStatus, OperationState, is_active, is_pending}
use graphite_bot.Items.Tables.{
  JsonValue, DefinitionRow, PlayerRow, StackDeliveryMutationReceipt, EventKind,
  stack_subdelivery_delivered, stack_subdelivery_pending, stack_subconsumption_consumed, other_kind,
  EventPayload, stack_delivery, stack_consumption, other_payload, EventRow, PendingDeliveryRow,
  ItemDb,
}
use graphite_bot.Items.Errors.{ItemError, arithmetic_overflow}
use graphite_bot.Items.Slots.{
  item_bag_capacity_slots, slots_for_quantity, find_definition, checked_add_slots,
  item_bag_used_slots,
}
use graphite_bot.Items.Bag.{find_operation, find_player, find_event, stack_quantity, insert_or_add}

abbrev pub max_mutation_key_bytes : ℕ
max_mutation_key_bytes = 128

abbrev pub max_source_bytes : ℕ
max_source_bytes = 128

pub record StackDeliveryMutationRequest : Type 0 where
  pub operation_id : Uuid
  pub player_id : Uuid
  pub mutation_key : Text
  pub definition_key : Text
  pub definition_version : ℤ
  pub quantity : ℤ
  pub source : Text
  pub provenance : JsonValue

pub data StackDeliveryMutationError : Type 0 where
  item : ItemError → StackDeliveryMutationError
  invalid_quantity invalid_definition_version : StackDeliveryMutationError
  invalid_mutation_key invalid_source invalid_provenance : StackDeliveryMutationError
  player_not_found : StackDeliveryMutationError
  account_frozen : PlayerStatus → StackDeliveryMutationError
  operation_not_found operation_player_mismatch : StackDeliveryMutationError
  operation_terminal : OperationState → StackDeliveryMutationError
  invalid_stack_definition mutation_conflict : StackDeliveryMutationError
  invalid_stored_mutation : StackDeliveryMutationError

abbrev pub lift : {A : Type 0} → Result ItemError A → Result StackDeliveryMutationError A
lift (ok a) = ok a
lift (err e) = err (item e)

unfoldable pub ensure_operation_player :
    Option Uuid → Uuid → Result StackDeliveryMutationError (Unit {0})
ensure_operation_player none player = ok tt
ensure_operation_player (some owner) player =
    fail_if (not (owner == player)) operation_player_mismatch

-- The level of an active player's bag; a player without a storage profile is not found.
unfoldable pub lock_item_bag_level : Uuid → ItemDb → Result StackDeliveryMutationError ℤ
lock_item_bag_level player db = do
  row ← ok_or (find_player player db.players) player_not_found
  level ← ok_or row.item_bag_level player_not_found
  fail_if (not (is_active row.status)) (account_frozen row.status)
  ok level

abbrev pub positive_limit : Option ℤ → Result StackDeliveryMutationError ℤ
positive_limit none = err invalid_stack_definition
positive_limit (some limit) = if leb_ℤ limit (pos 0) then err invalid_stack_definition else ok limit

-- The limit of a definition that stacks.
unfoldable pub stack_limit_of : Text → ℤ → ItemDb → Result StackDeliveryMutationError ℤ
stack_limit_of key version db = do
  definition ← ok_or (find_definition key version db.definitions) invalid_stack_definition
  fail_if (not definition.stackable) invalid_stack_definition
  positive_limit definition.stack_limit

abbrev pub checked_sub_slots : ℕ → ℕ → Result ItemError ℕ
checked_sub_slots a b = if ltb a b then err arithmetic_overflow else ok (a - b)

-- Whether the bag has no room for the delivery.
unfoldable pub is_pending_delivery :
    ℤ → ℤ → StackDeliveryMutationRequest → ItemDb → Result ItemError Bool
is_pending_delivery level stack_limit request db = do
  capacity ← item_bag_capacity_slots level
  used_before ← item_bag_used_slots request.player_id db
  let existing_quantity =
      stack_quantity request.player_id request.definition_key request.definition_version db.stacks
  before_slots ← slots_for_quantity existing_quantity stack_limit
  combined_quantity ← ok_or (to_i64 (existing_quantity +ℤ request.quantity)) arithmetic_overflow
  after_slots ← slots_for_quantity combined_quantity stack_limit
  others ← checked_sub_slots used_before before_slots
  projected_used ← checked_add_slots others after_slots
  ok (ltb capacity projected_used)

abbrev pub pending_row : Uuid → StackDeliveryMutationRequest → PendingDeliveryRow
pending_row id request = record {
  id = id;
  operation_id = request.operation_id;
  mutation_key = request.mutation_key;
  player_id = request.player_id;
  definition_key = request.definition_key;
  definition_version = request.definition_version;
  quantity = request.quantity;
}

-- The delivery waits, under a drawn id, or joins the stack.
unfoldable pub write_delivery : Bool → Uuid → StackDeliveryMutationRequest → ItemDb → ItemDb
write_delivery true id request db = record db {
  pending_deliveries = pending_row id request ∷ db.pending_deliveries;
}
write_delivery false id request db = record db {
  stacks =
      insert_or_add request.player_id request.definition_key request.definition_version
        request.quantity db.stacks;
}

abbrev pub pending_id : Bool → Uuid → Option Uuid
pending_id true id = some id
pending_id false id = none

abbrev pub delivery_receipt :
    Bool → Uuid → Uuid → StackDeliveryMutationRequest → StackDeliveryMutationReceipt
delivery_receipt pending id event request = record {
  event_id = event;
  operation_id = request.operation_id;
  player_id = request.player_id;
  mutation_key = request.mutation_key;
  definition_key = request.definition_key;
  definition_version = request.definition_version;
  quantity = request.quantity;
  pending_delivery_id = pending_id pending id;
  pending = pending;
}

abbrev pub event_kind_of : Bool → EventKind
event_kind_of true = stack_subdelivery_pending
event_kind_of false = stack_subdelivery_delivered

abbrev pub delivery_event : StackDeliveryMutationRequest → StackDeliveryMutationReceipt → EventRow
delivery_event request receipt = record {
  id = receipt.event_id;
  operation_id = request.operation_id;
  mutation_key = request.mutation_key;
  player_id = request.player_id;
  event_kind = event_kind_of receipt.pending;
  payload = stack_delivery receipt request.source request.provenance;
}

abbrev pub add_event : EventRow → ItemDb → ItemDb
add_event event db = record db { events = event ∷ db.events }

abbrev pub is_some : Option Uuid → Bool
is_some none = false
is_some (some id) = true

abbrev pub eq_bool : Bool → Bool → Bool
eq_bool true b = b
eq_bool false b = not b

abbrev pub is_kind_of : EventKind → Bool → Bool
is_kind_of stack_subdelivery_pending true = true
is_kind_of stack_subdelivery_delivered false = true
is_kind_of _ _ = false

abbrev pub matches_request :
    EventRow → StackDeliveryMutationReceipt → Text → JsonValue → StackDeliveryMutationRequest → Bool
matches_request row receipt source provenance request =
    (row.id == receipt.event_id)
    && (row.player_id == request.player_id)
    && is_kind_of row.event_kind receipt.pending
    && (receipt.operation_id == request.operation_id)
    && (receipt.player_id == request.player_id)
    && (receipt.mutation_key == request.mutation_key)
    && (receipt.definition_key == request.definition_key)
    && eqb_ℤ receipt.definition_version request.definition_version
    && eqb_ℤ receipt.quantity request.quantity
    && eq_bool receipt.pending (is_some receipt.pending_delivery_id)
    && (source == request.source)
    && (provenance == request.provenance)

unfoldable pub replay_payload :
    EventRow
    → EventPayload
    → StackDeliveryMutationRequest
    → Result StackDeliveryMutationError StackDeliveryMutationReceipt
replay_payload row (stack_delivery receipt source provenance) request = do
  fail_if (not (matches_request row receipt source provenance request)) mutation_conflict
  ok receipt
replay_payload row (stack_consumption _ _ _) request = err invalid_stored_mutation
replay_payload row (other_payload _) request = err invalid_stored_mutation

abbrev pub is_delivery_kind : EventKind → Bool
is_delivery_kind stack_subdelivery_delivered = true
is_delivery_kind stack_subdelivery_pending = true
is_delivery_kind _ = false

unfoldable pub replay_stack_delivery :
    EventRow
    → StackDeliveryMutationRequest
    → Result StackDeliveryMutationError StackDeliveryMutationReceipt
replay_stack_delivery row request = do
  fail_if (not (is_delivery_kind row.event_kind)) mutation_conflict
  replay_payload row row.payload request

-- A new delivery; the ids of the waiting row and of the event are drawn.
unfoldable pub settle_delivery :
    Uuid
    → Uuid
    → OperationState
    → StackDeliveryMutationRequest
    → ItemDb
    → Result StackDeliveryMutationError (StackDeliveryMutationReceipt × ItemDb)
settle_delivery id event state request db = do
  fail_if (not (is_pending state)) (operation_terminal state)
  level ← lock_item_bag_level request.player_id db
  stack_limit ← stack_limit_of request.definition_key request.definition_version db
  pending ← lift (is_pending_delivery level stack_limit request db)
  let receipt = delivery_receipt pending id event request
  ok (receipt, add_event (delivery_event request receipt) (write_delivery pending id request db))

module _ (is_blank : Text → Bool) (byte_length : Text → ℕ)
    (is_filled_object : JsonValue → Bool) where
  unfoldable pub validate_input :
      StackDeliveryMutationRequest → Result StackDeliveryMutationError (Unit {0})
  validate_input request = do
    fail_if (leb_ℤ request.quantity (pos 0)) invalid_quantity
    fail_if (leb_ℤ request.definition_version (pos 0)) invalid_definition_version
    fail_if
        (is_blank request.mutation_key
          || ltb max_mutation_key_bytes (byte_length request.mutation_key))
        invalid_mutation_key
    fail_if (is_blank request.source || ltb max_source_bytes (byte_length request.source))
        invalid_source
    fail_if (not (is_filled_object request.provenance)) invalid_provenance

  unfoldable pub apply_stack_delivery_mutation :
      Uuid
      → Uuid
      → StackDeliveryMutationRequest
      → ItemDb
      → Result StackDeliveryMutationError (StackDeliveryMutationReceipt × ItemDb)
  apply_stack_delivery_mutation id event request db = do
    validate_input request
    operation ← ok_or (find_operation request.operation_id db.operations) operation_not_found
    ensure_operation_player operation.player_id request.player_id
    elim (find_event request.operation_id request.mutation_key db.events) [
      | some row ↦ do receipt ← replay_stack_delivery row request; ok (receipt, db)
      | none ↦ settle_delivery id event operation.state request db
    ]
