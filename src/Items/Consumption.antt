-- ===== src/Items/Consumption.antt =====
-- crates/graphite-items/src/transactional_stack_consumption.rs: one quantity of a stack consumed
-- from the Item Bag inside an owning operation, under a key of its own. Whether a text is blank, the
-- length of a text in bytes, and whether a JSON value is an object with a field, are parameters.
pub mod Consumed
pub mod Settled
pub mod Again
use graphite_bot.Common.{
  ℕ, Bool, true, false, not, ◌&&◌, ◌||◌, Option, none, some, ◌∷◌, Result, ok, err, ◌>>=◌, ◌>>◌,
  ok_or, fail_if, if◌then◌else◌, ◌==◌, ltb, List,
}
use graphite_bot.Common.Int.{ℤ, pos, ◌-ℤ◌, eqb_ℤ, leb_ℤ, ltb_ℤ, to_i64}
use graphite_bot.Common.Values.{Uuid, Text, PlayerStatus, OperationState, is_active, is_pending}
use graphite_bot.Items.Tables.{
  JsonValue, StackRow, StackConsumptionMutationReceipt, EventKind, stack_subconsumption_consumed,
  EventPayload, stack_delivery, stack_consumption, other_payload, EventRow, ItemDb,
}
use graphite_bot.Items.Slots.{find_definition}
use graphite_bot.Items.Bag.{
  find_operation, find_player, find_event, stack_quantity, delete_stack, update_stack,
}

abbrev pub max_mutation_key_bytes : ℕ
max_mutation_key_bytes = 128

abbrev pub max_source_bytes : ℕ
max_source_bytes = 128

pub record StackConsumptionMutationRequest : Type 0 where
  pub operation_id : Uuid
  pub player_id : Uuid
  pub mutation_key : Text
  pub definition_key : Text
  pub definition_version : ℤ
  pub quantity : ℤ
  pub source : Text
  pub provenance : JsonValue

pub data StackConsumptionMutationError : Type 0 where
  invalid_quantity invalid_definition_version : StackConsumptionMutationError
  invalid_mutation_key invalid_source invalid_provenance : StackConsumptionMutationError
  player_not_found : StackConsumptionMutationError
  account_frozen : PlayerStatus → StackConsumptionMutationError
  operation_not_found operation_player_mismatch : StackConsumptionMutationError
  operation_terminal : OperationState → StackConsumptionMutationError
  invalid_stack_definition : StackConsumptionMutationError
  insufficient_stack : Text → ℤ → ℤ → ℤ → StackConsumptionMutationError
  mutation_conflict invalid_stored_mutation : StackConsumptionMutationError

unfoldable pub ensure_operation_player :
    Option Uuid → Uuid → Result StackConsumptionMutationError (Unit {0})
ensure_operation_player none player = ok tt
ensure_operation_player (some owner) player =
    fail_if (not (owner == player)) operation_player_mismatch

unfoldable pub lock_active_player : Uuid → ItemDb → Result StackConsumptionMutationError (Unit {0})
lock_active_player player db = do
  row ← ok_or (find_player player db.players) player_not_found
  fail_if (not (is_active row.status)) (account_frozen row.status)

unfoldable pub ensure_stackable :
    Text → ℤ → ItemDb → Result StackConsumptionMutationError (Unit {0})
ensure_stackable key version db = do
  definition ← ok_or (find_definition key version db.definitions) invalid_stack_definition
  fail_if (not definition.stackable) invalid_stack_definition

abbrev pub insufficient : StackConsumptionMutationRequest → ℤ → StackConsumptionMutationError
insufficient request before =
    insufficient_stack request.definition_key request.definition_version before request.quantity

-- What is left of the stack, where it suffices.
unfoldable pub quantity_left :
    ℤ → StackConsumptionMutationRequest → Result StackConsumptionMutationError ℤ
quantity_left before request = do
  fail_if (ltb_ℤ before request.quantity) (insufficient request before)
  ok_or (to_i64 (before -ℤ request.quantity)) (insufficient request before)

-- The row is removed when nothing is left, and written otherwise; with the rows affected.
unfoldable pub write_consumption :
    ℤ → ℤ → StackConsumptionMutationRequest → List StackRow → List StackRow × ℕ
write_consumption before after request rows =
    if eqb_ℤ after (pos 0)
    then delete_stack request.player_id request.definition_key request.definition_version before
        rows
    else update_stack request.player_id request.definition_key request.definition_version after
        before rows

abbrev pub consumption_receipt :
    Uuid → StackConsumptionMutationRequest → ℤ → ℤ → StackConsumptionMutationReceipt
consumption_receipt event request before after = record {
  event_id = event;
  operation_id = request.operation_id;
  player_id = request.player_id;
  mutation_key = request.mutation_key;
  definition_key = request.definition_key;
  definition_version = request.definition_version;
  quantity = request.quantity;
  quantity_before = before;
  quantity_after = after;
}

abbrev pub consumption_event :
    StackConsumptionMutationRequest → StackConsumptionMutationReceipt → EventRow
consumption_event request receipt = record {
  id = receipt.event_id;
  operation_id = request.operation_id;
  mutation_key = request.mutation_key;
  player_id = request.player_id;
  event_kind = stack_subconsumption_consumed;
  payload = stack_consumption receipt request.source request.provenance;
}

abbrev pub is_left : Option ℤ → ℤ → Bool
is_left none after = false
is_left (some left) after = eqb_ℤ after left

abbrev pub matches_request :
    EventRow
    → StackConsumptionMutationReceipt
    → Text
    → JsonValue
    → StackConsumptionMutationRequest
    → Bool
matches_request row receipt source provenance request =
    (row.id == receipt.event_id)
    && (row.player_id == request.player_id)
    && (receipt.operation_id == request.operation_id)
    && (receipt.player_id == request.player_id)
    && (receipt.mutation_key == request.mutation_key)
    && (receipt.definition_key == request.definition_key)
    && eqb_ℤ receipt.definition_version request.definition_version
    && eqb_ℤ receipt.quantity request.quantity
    && not (ltb_ℤ receipt.quantity_before receipt.quantity)
    && is_left (to_i64 (receipt.quantity_before -ℤ receipt.quantity)) receipt.quantity_after
    && (source == request.source)
    && (provenance == request.provenance)

unfoldable pub replay_payload :
    EventRow
    → EventPayload
    → StackConsumptionMutationRequest
    → Result StackConsumptionMutationError StackConsumptionMutationReceipt
replay_payload row (stack_consumption receipt source provenance) request = do
  fail_if (not (matches_request row receipt source provenance request)) mutation_conflict
  ok receipt
replay_payload row (stack_delivery _ _ _) request = err invalid_stored_mutation
replay_payload row (other_payload _) request = err invalid_stored_mutation

abbrev pub is_consumption_kind : EventKind → Bool
is_consumption_kind stack_subconsumption_consumed = true
is_consumption_kind _ = false

unfoldable pub replay_stack_consumption :
    EventRow
    → StackConsumptionMutationRequest
    → Result StackConsumptionMutationError StackConsumptionMutationReceipt
replay_stack_consumption row request = do
  fail_if (not (is_consumption_kind row.event_kind)) mutation_conflict
  replay_payload row row.payload request

abbrev pub record_consumption :
    List StackRow
    → StackConsumptionMutationRequest
    → StackConsumptionMutationReceipt
    → ItemDb
    → ItemDb
record_consumption stacks request receipt db = record db {
  stacks = stacks;
  events = consumption_event request receipt ∷ db.events;
}

-- A new consumption; the id of the event is drawn.
unfoldable pub settle_consumption :
    Uuid
    → OperationState
    → StackConsumptionMutationRequest
    → ItemDb
    → Result StackConsumptionMutationError (StackConsumptionMutationReceipt × ItemDb)
settle_consumption event state request db = do
  fail_if (not (is_pending state)) (operation_terminal state)
  lock_active_player request.player_id db
  ensure_stackable request.definition_key request.definition_version db
  let before =
      stack_quantity request.player_id request.definition_key request.definition_version db.stacks
  after ← quantity_left before request
  let written = write_consumption before after request db.stacks
  fail_if (not (written.1 == 1)) mutation_conflict
  let receipt = consumption_receipt event request before after
  ok (receipt, record_consumption written.0 request receipt db)

module _ (is_blank : Text → Bool) (byte_length : Text → ℕ)
    (is_filled_object : JsonValue → Bool) where
  unfoldable pub validate_input :
      StackConsumptionMutationRequest → Result StackConsumptionMutationError (Unit {0})
  validate_input request = do
    fail_if (leb_ℤ request.quantity (pos 0)) invalid_quantity
    fail_if (leb_ℤ request.definition_version (pos 0)) invalid_definition_version
    fail_if
        (is_blank request.mutation_key
          || ltb max_mutation_key_bytes (byte_length request.mutation_key))
        invalid_mutation_key
    fail_if (is_blank request.source || ltb max_source_bytes (byte_length request.source))
        invalid_source
    fail_if (not (is_filled_object request.provenance)) invalid_provenance

  unfoldable pub apply_stack_consumption_mutation :
      Uuid
      → StackConsumptionMutationRequest
      → ItemDb
      → Result StackConsumptionMutationError (StackConsumptionMutationReceipt × ItemDb)
  apply_stack_consumption_mutation event request db = do
    validate_input request
    operation ← ok_or (find_operation request.operation_id db.operations) operation_not_found
    ensure_operation_player operation.player_id request.player_id
    elim (find_event request.operation_id request.mutation_key db.events) [
      | some row ↦ do receipt ← replay_stack_consumption row request; ok (receipt, db)
      | none ↦ settle_consumption event operation.state request db
    ]
