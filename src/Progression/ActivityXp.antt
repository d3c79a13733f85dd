-- ===== src/Progression/ActivityXp.antt =====
-- crates/graphite-progression/src/activity.rs: one change of Activity EXP that a broader operation
-- owns under a key of its own. Whether a text is blank, the length of a text in bytes, and whether a
-- JSON value is an object with a field, are parameters.
pub mod Applied
pub mod Again
use graphite_bot.Common.{
  ℕ, Bool, true, false, not, ◌&&◌, ◌||◌, Option, none, some, List, [], ◌∷◌, Result, ok, err, ◌>>=◌,
  ◌>>◌, ok_or, fail_if, if◌then◌else◌, ◌==◌, ltb,
}
use graphite_bot.Common.Int.{ℤ, pos, ◌+ℤ◌, ◌-ℤ◌, eqb_ℤ, leb_ℤ, ltb_ℤ, to_i64}
use graphite_bot.Common.Values.{Uuid, Text, PlayerStatus, OperationState, is_active, is_pending}
use graphite_bot.Progression.Errors.{ProgressionMathError, arithmetic_overflow}
use graphite_bot.Progression.Activity.{ActivityProgress, activity_progress}
use graphite_bot.Progression.Tables.{
  JsonValue, ProgressionPlayer, ActivityXpMutationKind, grant, spend, loss,
  ActivityXpMutationReceipt, OperationRow, EventKind, activity_xp_granted, activity_xp_spent,
  activity_xp_lost, EventPayload, activity_mutation, account_settlement, service_event,
  other_payload, EventRow, ProgressionDb,
}
use graphite_bot.Progression.Rows.{find_by_id, update_players, write_activity_xp}
use graphite_bot.Progression.Owning.{find_operation, find_event}

abbrev pub max_mutation_key_bytes : ℕ
max_mutation_key_bytes = 128

abbrev pub event_kind : ActivityXpMutationKind → EventKind
event_kind grant = activity_xp_granted
event_kind spend = activity_xp_spent
event_kind loss = activity_xp_lost

pub record LockedActivityXpSettlementContext : Type 0 where
  pub operation_id : Uuid
  pub player_id : Uuid
  pub activity_xp_points : ℤ

pub record ActivityXpMutationRequest : Type 0 where
  pub operation_id : Uuid
  pub player_id : Uuid
  pub mutation_key : Text
  pub kind : ActivityXpMutationKind
  pub amount : ℤ
  pub source : Text
  pub provenance : JsonValue

pub data ActivityXpError : Type 0 where
  math : ProgressionMathError → ActivityXpError
  invalid_amount invalid_source invalid_mutation_key invalid_provenance : ActivityXpError
  player_not_found : ActivityXpError
  account_frozen : PlayerStatus → ActivityXpError
  operation_not_found operation_player_mismatch : ActivityXpError
  operation_terminal : OperationState → ActivityXpError
  insufficient_activity_xp : ℤ → ℤ → ActivityXpError
  mutation_conflict invalid_stored_mutation : ActivityXpError

abbrev pub lift : {A : Type 0} → Result ProgressionMathError A → Result ActivityXpError A
lift (ok a) = ok a
lift (err e) = err (math e)

abbrev pub lock_activity_operation : Uuid → ProgressionDb → Result ActivityXpError OperationRow
lock_activity_operation id db = ok_or (find_operation id db.operations) operation_not_found

unfoldable pub ensure_operation_player : Option Uuid → Uuid → Result ActivityXpError (Unit {0})
ensure_operation_player none player = ok tt
ensure_operation_player (some owner) player =
    fail_if (not (owner == player)) operation_player_mismatch

-- A player without the joined row of `player_progression` is not found.
unfoldable pub lock_active_activity_xp_balance : Uuid → ProgressionDb → Result ActivityXpError ℤ
lock_active_activity_xp_balance player db = do
  row ← ok_or (find_by_id player db.players) player_not_found
  progress ← ok_or row.progress player_not_found
  fail_if (not (is_active row.status)) (account_frozen row.status)
  ok progress.activity_xp_points

abbrev pub take_points : ℤ → ℤ → Result ActivityXpError ℤ
take_points points amount = do
  fail_if (ltb_ℤ points amount) (insufficient_activity_xp points amount)
  ok_or (to_i64 (points -ℤ amount)) (math arithmetic_overflow)

unfoldable pub activity_points_after : ℤ → ActivityXpMutationKind → ℤ → Result ActivityXpError ℤ
activity_points_after points grant amount =
    ok_or (to_i64 (points +ℤ amount)) (math arithmetic_overflow)
activity_points_after points spend amount = take_points points amount
activity_points_after points loss amount = take_points points amount

abbrev pub eq_event_kind : EventKind → ActivityXpMutationKind → Bool
eq_event_kind activity_xp_granted grant = true
eq_event_kind activity_xp_spent spend = true
eq_event_kind activity_xp_lost loss = true
eq_event_kind _ _ = false

abbrev pub eq_mutation_kind : ActivityXpMutationKind → ActivityXpMutationKind → Bool
eq_mutation_kind grant grant = true
eq_mutation_kind spend spend = true
eq_mutation_kind loss loss = true
eq_mutation_kind _ _ = false

abbrev pub matches_request :
    EventRow → ActivityXpMutationReceipt → JsonValue → ActivityXpMutationRequest → Bool
matches_request row receipt provenance request =
    (row.id == receipt.event_id)
    && (row.player_id == request.player_id)
    && eq_event_kind row.event_kind request.kind
    && (receipt.operation_id == request.operation_id)
    && (receipt.player_id == request.player_id)
    && (receipt.mutation_key == request.mutation_key)
    && eq_mutation_kind receipt.kind request.kind
    && eqb_ℤ receipt.amount request.amount
    && (receipt.source == request.source)
    && (provenance == request.provenance)

unfoldable pub replay_payload :
    EventRow
    → EventPayload
    → ActivityXpMutationRequest
    → Result ActivityXpError ActivityXpMutationReceipt
replay_payload row (activity_mutation receipt provenance) request = do
  fail_if (not (matches_request row receipt provenance request)) mutation_conflict
  ok receipt
replay_payload row (account_settlement _ _) request = err invalid_stored_mutation
replay_payload row (service_event _) request = err invalid_stored_mutation
replay_payload row (other_payload _) request = err invalid_stored_mutation

unfoldable pub replay_activity_mutation :
    EventRow → ActivityXpMutationRequest → Result ActivityXpError ActivityXpMutationReceipt
unfolding replay_payload
replay_activity_mutation row request = replay_payload row row.payload request

unfoldable pub lock_activity_xp_settlement_context :
    Uuid → Uuid → ProgressionDb → Result ActivityXpError LockedActivityXpSettlementContext
lock_activity_xp_settlement_context operation_id player_id db = do
  operation ← lock_activity_operation operation_id db
  ensure_operation_player operation.player_id player_id
  fail_if (not (is_pending operation.state)) (operation_terminal operation.state)
  points ← lock_active_activity_xp_balance player_id db
  ok (record { operation_id = operation_id; player_id = player_id; activity_xp_points = points })

abbrev pub mutation_receipt :
    Uuid
    → ActivityXpMutationRequest
    → ActivityProgress
    → ActivityProgress
    → ActivityXpMutationReceipt
mutation_receipt event request before after = record {
  event_id = event;
  operation_id = request.operation_id;
  player_id = request.player_id;
  mutation_key = request.mutation_key;
  kind = request.kind;
  amount = request.amount;
  source = request.source;
  before = before;
  after = after;
}

abbrev pub mutation_event : ActivityXpMutationRequest → ActivityXpMutationReceipt → EventRow
mutation_event request receipt = record {
  id = receipt.event_id;
  operation_id = request.operation_id;
  mutation_key = request.mutation_key;
  player_id = request.player_id;
  event_kind = event_kind request.kind;
  payload = activity_mutation receipt request.provenance;
}

abbrev pub write_mutation :
    ActivityXpMutationRequest → ℤ → ActivityXpMutationReceipt → ProgressionDb → ProgressionDb
write_mutation request points receipt db =
    record (update_players request.player_id (write_activity_xp points) db) {
      events = mutation_event request receipt ∷ db.events;
    }

-- A new change; the id of the event is drawn.
unfoldable pub settle_mutation :
    Uuid
    → OperationState
    → ActivityXpMutationRequest
    → ProgressionDb
    → Result ActivityXpError (ActivityXpMutationReceipt × ProgressionDb)
settle_mutation event state request db = do
  fail_if (not (is_pending state)) (operation_terminal state)
  points_before ← lock_active_activity_xp_balance request.player_id db
  before ← lift (activity_progress points_before)
  points_after ← activity_points_after points_before request.kind request.amount
  after ← lift (activity_progress points_after)
  let receipt = mutation_receipt event request before after
  ok (receipt, write_mutation request points_after receipt db)

module _ (is_blank : Text → Bool) (byte_length : Text → ℕ)
    (is_filled_object : JsonValue → Bool) where
  unfoldable pub validate_input : ActivityXpMutationRequest → Result ActivityXpError (Unit {0})
  validate_input request = do
    fail_if (leb_ℤ request.amount (pos 0)) invalid_amount
    fail_if (is_blank request.source) invalid_source
    fail_if
        (is_blank request.mutation_key
          || ltb max_mutation_key_bytes (byte_length request.mutation_key))
        invalid_mutation_key
    fail_if (not (is_filled_object request.provenance)) invalid_provenance

  unfoldable pub apply_activity_xp_mutation :
      Uuid
      → ActivityXpMutationRequest
      → ProgressionDb
      → Result ActivityXpError (ActivityXpMutationReceipt × ProgressionDb)
  unfolding validate_input
  apply_activity_xp_mutation event request db = do
    validate_input request
    operation ← lock_activity_operation request.operation_id db
    ensure_operation_player operation.player_id request.player_id
    elim (find_event request.operation_id request.mutation_key db.events) [
      | some row ↦ do receipt ← replay_activity_mutation row request; ok (receipt, db)
      | none ↦ settle_mutation event operation.state request db
    ]
