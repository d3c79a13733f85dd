-- ===== src/Progression/Tables.antt =====
-- The tables that crates/graphite-progression reads and writes, its receipts and its requests. A
-- row of `ProgressionPlayer` is a row of `players` with the rows of `player_progression` and
-- `player_balances` that may go with it.
use graphite_bot.Common.{ℕ, Bool, true, false, Option, List}
use graphite_bot.Common.Int.{ℤ}
use graphite_bot.Common.Values.{Uuid, Text, Digest, PlayerStatus, OperationState}
use graphite_bot.Economy.Tables.{PostingRow}
use graphite_bot.Progression.Activity.{ActivityProgress}

-- A `serde_json::Value` that is only compared.
abbrev pub JsonValue : Type 0
JsonValue = ℕ

pub record ProgressRow : Type 0 where
  pub account_xp : ℤ
  pub activity_xp_points : ℤ

pub record ProgressionPlayer : Type 0 where
  pub id : Uuid
  pub discord_user_id : ℤ
  pub status : PlayerStatus
  pub rebirth_count : ℤ
  pub progress : Option ProgressRow
  pub wallet : Option ℤ

pub record AccountXpGrantReceipt : Type 0 where
  pub operation_id : Uuid
  pub requested_xp : ℤ
  pub granted_xp : ℤ
  pub source : Text
  pub account_xp_before : ℤ
  pub account_xp_after : ℤ
  pub level_before : ℕ
  pub level_after : ℕ
  pub level_money_reward : ℤ
  pub wallet_after : ℤ

pub record RebirthReceipt : Type 0 where
  pub operation_id : Uuid
  pub previous_rebirth_count : ℕ
  pub rebirth_count : ℕ
  pub activity_xp_points : ℤ
  pub activity_level : ℕ

-- The receipts of the two calls of `ProgressionService`, and the JSON of `operations.result` by
-- what it decodes to.
pub data ProgressionReceipt : Type 0 where
  granted : AccountXpGrantReceipt → ProgressionReceipt
  reborn : RebirthReceipt → ProgressionReceipt

pub data StoredResult : Type 0 where
  no_result other_result : StoredResult
  stored : ProgressionReceipt → StoredResult

pub data MutationKind : Type 0 where
  account_xp_grant rebirth : MutationKind

-- `operations.kind`: `operation_kind`, and the kinds of other crates.
pub data OperationKind : Type 0 where
  mutation : MutationKind → OperationKind
  other_kind : Text → OperationKind

abbrev pub eq_kind : OperationKind → MutationKind → Bool
eq_kind (mutation account_xp_grant) account_xp_grant = true
eq_kind (mutation rebirth) rebirth = true
eq_kind _ _ = false

pub record OperationRow : Type 0 where
  pub id : Uuid
  pub external_request_key : Text
  pub actor_discord_user_id : Option ℤ
  pub player_id : Option Uuid
  pub kind : OperationKind
  pub state : OperationState
  pub policy_version : ℕ
  pub request_hash : Digest
  pub rng_root : Digest
  pub result : StoredResult

pub record AccountXpSettlementReceipt : Type 0 where
  pub event_id : Uuid
  pub operation_id : Uuid
  pub player_id : Uuid
  pub requested_xp : ℤ
  pub granted_xp : ℤ
  pub source : Text
  pub account_xp_before : ℤ
  pub account_xp_after : ℤ
  pub level_before : ℕ
  pub level_after : ℕ
  pub level_money_reward : ℤ
  pub wallet_before : ℤ
  pub wallet_after : ℤ

pub data ActivityXpMutationKind : Type 0 where
  grant spend loss : ActivityXpMutationKind

pub record ActivityXpMutationReceipt : Type 0 where
  pub event_id : Uuid
  pub operation_id : Uuid
  pub player_id : Uuid
  pub mutation_key : Text
  pub kind : ActivityXpMutationKind
  pub amount : ℤ
  pub source : Text
  pub before : ActivityProgress
  pub after : ActivityProgress

-- `progression_events.event_kind`.
pub data EventKind : Type 0 where
  account_xp_granted activity_xp_granted activity_xp_spent activity_xp_lost rebirth_event :
      EventKind

-- `progression_events.payload`, by what it decodes to.
pub data EventPayload : Type 0 where
  service_event : ProgressionReceipt → EventPayload
  account_settlement : AccountXpSettlementReceipt → JsonValue → EventPayload
  activity_mutation : ActivityXpMutationReceipt → JsonValue → EventPayload
  other_payload : JsonValue → EventPayload

pub record EventRow : Type 0 where
  pub id : Uuid
  pub operation_id : Uuid
  pub mutation_key : Text
  pub player_id : Uuid
  pub event_kind : EventKind
  pub payload : EventPayload

-- `LevelRewardLedger`: the provenance of a level reward.
pub record LevelRewardLedger : Type 0 where
  pub source : Text
  pub level_before : ℕ
  pub level_after : ℕ
  pub granted_xp : ℤ
  pub reward : ℤ

pub data LedgerEntry : Type 0 where
  level_reward : LevelRewardLedger → LedgerEntry
  other_entry : Text → LedgerEntry

pub record LedgerRow : Type 0 where
  pub id : Uuid
  pub operation_id : Uuid
  pub entry : LedgerEntry

pub record OutboxRow : Type 0 where
  pub id : Uuid
  pub operation_id : Uuid
  pub payload : ProgressionReceipt

pub record ProgressionDb : Type 0 where
  pub operations : List OperationRow
  pub players : List ProgressionPlayer
  pub events : List EventRow
  pub ledger : List LedgerRow
  pub postings : List PostingRow
  pub outbox : List OutboxRow

-- What one call draws.
pub record Draws : Type 0 where
  pub operation_id : Uuid
  pub rng_root : Digest
  pub transaction_id : Uuid
  pub event_id : Uuid
  pub outbox_id : Uuid
