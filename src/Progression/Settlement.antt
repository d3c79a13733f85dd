-- ===== src/Progression/Settlement.antt =====
-- crates/graphite-progression/src/progression/account_settlement.rs: the one Account XP grant that a
-- broader operation owns. Whether a text is blank, and whether a JSON value is an object with a
-- field, are parameters.
pub mod Settled
pub mod Repeated
use graphite_bot.Common.{
  ℕ, Bool, true, false, not, ◌&&◌, ◌||◌, Option, none, some, List, [], ◌∷◌, Result, ok, err, ◌>>=◌,
  ◌>>◌, ok_or, fail_if, if◌then◌else◌, ◌==◌,
}
use graphite_bot.Common.Int.{ℤ, pos, eqb_ℤ, leb_ℤ, ltb_ℤ}
use graphite_bot.Common.Values.{
  Uuid, Text, PlayerStatus, OperationState, is_active, is_pending, is_deleted,
}
use graphite_bot.Progression.Errors.{ProgressionMathError, arithmetic_overflow}
use graphite_bot.Progression.Account.{
  AccountXpGrantProjection, AccountXpGrantProjectionError, project_account_xp_grant,
}
use graphite_bot.Progression.Tables.{
  JsonValue, ProgressRow, ProgressionPlayer, AccountXpSettlementReceipt, OperationRow, EventKind,
  account_xp_granted, EventPayload, account_settlement, activity_mutation, service_event,
  other_payload, EventRow, LevelRewardLedger, LedgerEntry, LedgerRow, ProgressionDb,
}
use graphite_bot.Progression.Rows.{
  find_by_id, update_player, write_account_xp, write_wallet, insert_level_reward_ledger,
}
use graphite_bot.Progression.Owning.{find_operation, find_event, find_ledger}

pub record AccountXpSettlementRequest : Type 0 where
  pub operation_id : Uuid
  pub player_id : Uuid
  pub amount : ℤ
  pub source : Text
  pub provenance : JsonValue

pub record LockedAccountXpSettlementContext : Type 0 where
  pub operation_id : Uuid
  pub player_id : Uuid
  pub account_xp : ℤ
  pub wallet : ℤ

-- The operation has no actor where its column is NULL: reading it is a database error.
pub data AccountXpSettlementError : Type 0 where
  database : AccountXpSettlementError
  math : ProgressionMathError → AccountXpSettlementError
  invalid_amount invalid_source invalid_provenance player_not_found : AccountXpSettlementError
  account_frozen : PlayerStatus → AccountXpSettlementError
  operation_not_found operation_player_mismatch operation_actor_mismatch : AccountXpSettlementError
  operation_terminal : OperationState → AccountXpSettlementError
  mutation_conflict : AccountXpSettlementError
  monetary_ledger_conflict : LedgerEntry → AccountXpSettlementError
  balance_state_missing progression_state_missing : AccountXpSettlementError
  invalid_stored_mutation : AccountXpSettlementError
  level_reward_settlement : ProgressionMathError → AccountXpSettlementError

pub record LockedOperation : Type 0 where
  pub actor_discord_user_id : ℤ
  pub player_id : Option Uuid
  pub state : OperationState

pub record LockedAccountXpState : Type 0 where
  pub account_xp : ℤ
  pub wallet : ℤ

unfoldable pub lock_operation :
    Uuid → ProgressionDb → Result AccountXpSettlementError LockedOperation
lock_operation id db = do
  row ← ok_or (find_operation id db.operations) operation_not_found
  actor ← ok_or row.actor_discord_user_id database
  ok (record { actor_discord_user_id = actor; player_id = row.player_id; state = row.state })

-- An operation without a player belongs to anybody.
unfoldable pub ensure_operation_player :
    Option Uuid → Uuid → Result AccountXpSettlementError (Unit {0})
ensure_operation_player none player = ok tt
ensure_operation_player (some owner) player =
    fail_if (not (owner == player)) operation_player_mismatch

unfoldable pub lock_account_xp_state :
    ℤ → Uuid → ProgressionDb → Result AccountXpSettlementError LockedAccountXpState
lock_account_xp_state actor player db = do
  row ← ok_or (find_by_id player db.players) player_not_found
  fail_if (not (eqb_ℤ row.discord_user_id actor)) operation_actor_mismatch
  fail_if (not (is_active row.status)) (account_frozen row.status)
  wallet ← ok_or row.wallet balance_state_missing
  progress ← ok_or row.progress progression_state_missing
  ok (record { account_xp = progress.account_xp; wallet = wallet })

abbrev pub is_none : {A : Type 0} → Option A → Bool
is_none none = true
is_none (some _) = false

-- `if let Some(kind) = existing_monetary_ledger_kind(..)`.
abbrev pub fail_if_some : Option LedgerEntry → Result AccountXpSettlementError (Unit {0})
fail_if_some none = ok tt
fail_if_some (some entry) = err (monetary_ledger_conflict entry)

-- `rows_affected() != 1`: an id is a primary key, so one row or none is updated.
unfoldable pub has_progress : Uuid → List ProgressionPlayer → Bool
has_progress id [] = false
has_progress id (row ∷ rows) =
    ((row.id == id) && not (is_none row.progress)) || has_progress id rows

unfoldable pub has_wallet : Uuid → List ProgressionPlayer → Bool
has_wallet id [] = false
has_wallet id (row ∷ rows) = ((row.id == id) && not (is_none row.wallet)) || has_wallet id rows

unfoldable pub write_granted_xp :
    Uuid
    → AccountXpGrantProjection
    → List ProgressionPlayer
    → Result AccountXpSettlementError (List ProgressionPlayer)
write_granted_xp player projection rows =
    if ltb_ℤ (pos 0) projection.granted_xp
    then (fail_if (not (has_progress player rows)) progression_state_missing
        >> ok (update_player player (write_account_xp projection.account_xp_after) rows))
    else ok rows

abbrev pub lift_reward :
    {A : Type 0} → Result ProgressionMathError A → Result AccountXpSettlementError A
lift_reward (ok a) = ok a
lift_reward (err e) = err (level_reward_settlement e)

abbrev pub level_reward_ledger : Text → AccountXpGrantProjection → LevelRewardLedger
level_reward_ledger source projection = record {
  source = source;
  level_before = projection.before.level;
  level_after = projection.after.level;
  granted_xp = projection.granted_xp;
  reward = projection.level_money_reward;
}

unfoldable pub pay_level_reward :
    Uuid
    → AccountXpSettlementRequest
    → AccountXpGrantProjection
    → ProgressionDb
    → Result AccountXpSettlementError ProgressionDb
pay_level_reward transaction request projection db =
    if ltb_ℤ (pos 0) projection.level_money_reward
    then (fail_if (not (has_wallet request.player_id db.players)) balance_state_missing
        >> lift_reward (
            insert_level_reward_ledger transaction request.operation_id request.player_id
              (level_reward_ledger request.source projection)
              (record db {
                players =
                    update_player request.player_id (write_wallet projection.wallet_after)
                      db.players;
              })))
    else ok db

abbrev pub settlement_receipt :
    Uuid
    → AccountXpSettlementRequest
    → LockedAccountXpState
    → AccountXpGrantProjection
    → AccountXpSettlementReceipt
settlement_receipt event request state projection = record {
  event_id = event;
  operation_id = request.operation_id;
  player_id = request.player_id;
  requested_xp = request.amount;
  granted_xp = projection.granted_xp;
  source = request.source;
  account_xp_before = state.account_xp;
  account_xp_after = projection.account_xp_after;
  level_before = projection.before.level;
  level_after = projection.after.level;
  level_money_reward = projection.level_money_reward;
  wallet_before = state.wallet;
  wallet_after = projection.wallet_after;
}

-- An invalid state is reported as an overflow here.
abbrev pub map_projection :
    Result AccountXpGrantProjectionError AccountXpGrantProjection
    → Result AccountXpSettlementError AccountXpGrantProjection
map_projection (ok projection) = ok projection
map_projection (err (AccountXpGrantProjectionError.math e)) = err (math e)
map_projection (err AccountXpGrantProjectionError.invalid_state) = err (math arithmetic_overflow)

abbrev pub is_account_xp_granted : EventKind → Bool
is_account_xp_granted account_xp_granted = true
is_account_xp_granted _ = false

abbrev pub matches_request :
    EventRow → AccountXpSettlementReceipt → JsonValue → AccountXpSettlementRequest → Bool
matches_request row receipt provenance request =
    (row.id == receipt.event_id)
    && (row.player_id == request.player_id)
    && is_account_xp_granted row.event_kind
    && (receipt.operation_id == request.operation_id)
    && (receipt.player_id == request.player_id)
    && eqb_ℤ receipt.requested_xp request.amount
    && (receipt.source == request.source)
    && (provenance == request.provenance)

unfoldable pub replay_payload :
    EventRow
    → EventPayload
    → AccountXpSettlementRequest
    → Result AccountXpSettlementError AccountXpSettlementReceipt
replay_payload row (account_settlement receipt provenance) request = do
  fail_if (not (matches_request row receipt provenance request)) mutation_conflict
  ok receipt
replay_payload row (service_event _) request = err invalid_stored_mutation
replay_payload row (activity_mutation _ _) request = err invalid_stored_mutation
replay_payload row (other_payload _) request = err invalid_stored_mutation

unfoldable pub replay_account_xp_settlement :
    EventRow
    → AccountXpSettlementRequest
    → Result AccountXpSettlementError AccountXpSettlementReceipt
unfolding replay_payload
replay_account_xp_settlement row request = replay_payload row row.payload request

-- `account_xp_key` is the text "account_xp".
module _ (account_xp_key : Text) where
  abbrev pub settlement_event : AccountXpSettlementRequest → AccountXpSettlementReceipt → EventRow
  settlement_event request receipt = record {
    id = receipt.event_id;
    operation_id = request.operation_id;
    mutation_key = account_xp_key;
    player_id = request.player_id;
    event_kind = account_xp_granted;
    payload = account_settlement receipt request.provenance;
  }

  unfoldable pub lock_account_xp_settlement_context :
      Uuid → Uuid → ProgressionDb → Result AccountXpSettlementError LockedAccountXpSettlementContext
  lock_account_xp_settlement_context operation_id player_id db = do
    operation ← lock_operation operation_id db
    ensure_operation_player operation.player_id player_id
    fail_if (not (is_pending operation.state)) (operation_terminal operation.state)
    fail_if (not (is_none (find_event operation_id account_xp_key db.events))) mutation_conflict
    fail_if_some (find_ledger operation_id db.ledger)
    state ← lock_account_xp_state operation.actor_discord_user_id player_id db
    ok (record {
      operation_id = operation_id;
      player_id = player_id;
      account_xp = state.account_xp;
      wallet = state.wallet;
    })

  -- A new settlement; the ids of the ledger transaction and of the event are drawn.
  unfoldable pub settle_account_xp :
      Uuid
      → Uuid
      → LockedOperation
      → AccountXpSettlementRequest
      → ProgressionDb
      → Result AccountXpSettlementError (AccountXpSettlementReceipt × ProgressionDb)
  settle_account_xp transaction event operation request db = do
    fail_if (not (is_pending operation.state)) (operation_terminal operation.state)
    fail_if_some (find_ledger request.operation_id db.ledger)
    state ← lock_account_xp_state operation.actor_discord_user_id request.player_id db
    projection ←
        map_projection (project_account_xp_grant state.account_xp state.wallet request.amount)
    rows ← write_granted_xp request.player_id projection db.players
    paid ← pay_level_reward transaction request projection (record db { players = rows })
    let receipt = settlement_receipt event request state projection
    ok (receipt, record paid { events = settlement_event request receipt ∷ paid.events })

  module _ (is_blank : Text → Bool) (is_filled_object : JsonValue → Bool) where
    unfoldable pub validate_request :
        AccountXpSettlementRequest → Result AccountXpSettlementError (Unit {0})
    validate_request request = do
      fail_if (leb_ℤ request.amount (pos 0)) invalid_amount
      fail_if (is_blank request.source) invalid_source
      fail_if (not (is_filled_object request.provenance)) invalid_provenance

    unfoldable pub apply_account_xp_settlement :
        Uuid
        → Uuid
        → AccountXpSettlementRequest
        → ProgressionDb
        → Result AccountXpSettlementError (AccountXpSettlementReceipt × ProgressionDb)
    unfolding validate_request
    apply_account_xp_settlement transaction event request db = do
      validate_request request
      operation ← lock_operation request.operation_id db
      ensure_operation_player operation.player_id request.player_id
      elim (find_event request.operation_id account_xp_key db.events) [
        | some row ↦ do receipt ← replay_account_xp_settlement row request; ok (receipt, db)
        | none ↦ settle_account_xp transaction event operation request db
      ]
