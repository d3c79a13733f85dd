-- ===== src/Economy/Tables.antt =====
-- The PostgreSQL tables that crates/graphite-economy reads and writes, with the columns that its
-- statements name, and the ids that a call draws from `OperationId::new`.
use graphite_bot.Common.{ℕ, Bool, true, false, Option, List}
use graphite_bot.Common.Int.{ℤ}
use graphite_bot.Common.Values.{
  Uuid, Text, Digest, Timestamp, PlayerStatus, OperationState, AccountKind,
}

-- `BankMutationKind`.
pub data BankMutationKind : Type 0 where
  deposit_kind withdraw_kind : BankMutationKind

-- `operations.kind` and `ledger_transactions.kind`: `operation_kind`, and the kinds of the others.
pub data OperationKind : Type 0 where
  bank_mutation : BankMutationKind → OperationKind
  bank_interest wallet_spend : OperationKind
  other_kind : Text → OperationKind

abbrev pub eq_kind : OperationKind → OperationKind → Bool
eq_kind (bank_mutation deposit_kind) (bank_mutation deposit_kind) = true
eq_kind (bank_mutation withdraw_kind) (bank_mutation withdraw_kind) = true
eq_kind _ _ = false

-- `BankMutationReceipt`.
pub record BankMutationReceipt : Type 0 where
  pub operation_id : Uuid
  pub kind : BankMutationKind
  pub gross_amount : ℤ
  pub fee_amount : ℤ
  pub net_amount : ℤ
  pub wallet : ℤ
  pub bank : ℤ

-- The JSON of `operations.result`, by what it decodes to.
pub data StoredResult : Type 0 where
  no_result other_result : StoredResult
  bank_result : BankMutationReceipt → StoredResult

pub record OperationRow : Type 0 where
  pub id : Uuid
  pub external_request_key : Text
  pub actor_discord_user_id : ℤ
  pub player_id : Option Uuid
  pub kind : OperationKind
  pub state : OperationState
  pub policy_version : ℕ
  pub request_hash : Digest
  pub rng_root : Digest
  pub result : StoredResult

-- `players` joined with `player_balances`.
pub record PlayerRow : Type 0 where
  pub id : Uuid
  pub discord_user_id : ℤ
  pub status : PlayerStatus
  pub wallet : ℤ
  pub bank : ℤ
  pub liability : ℤ

-- `bank_lots`.
pub record LotRow : Type 0 where
  pub id : Uuid
  pub player_id : Uuid
  pub principal_remaining : ℤ
  pub deposited_at : Timestamp
  pub created_by_operation_id : Uuid

-- `bank_withdrawals`.
pub record WithdrawalRow : Type 0 where
  pub operation_id : Uuid
  pub player_id : Uuid
  pub gross_amount : ℤ
  pub fee_amount : ℤ
  pub created_at : Timestamp

pub record LedgerRow : Type 0 where
  pub id : Uuid
  pub operation_id : Uuid
  pub kind : OperationKind
  pub policy_version : ℕ

pub record PostingRow : Type 0 where
  pub transaction_id : Uuid
  pub sequence : ℕ
  pub player_id : Option Uuid
  pub account_kind : AccountKind
  pub amount : ℤ

pub record OutboxRow : Type 0 where
  pub id : Uuid
  pub operation_id : Uuid
  pub topic : OperationKind
  pub payload : BankMutationReceipt

pub record Db : Type 0 where
  pub operations : List OperationRow
  pub players : List PlayerRow
  pub lots : List LotRow
  pub withdrawals : List WithdrawalRow
  pub ledger : List LedgerRow
  pub postings : List PostingRow
  pub outbox : List OutboxRow

-- What one call draws: identifiers, the RNG root, and the transaction's `now()`.
pub record Draws : Type 0 where
  pub operation_id : Uuid
  pub rng_root : Digest
  pub lot_id : Uuid
  pub transaction_id : Uuid
  pub outbox_id : Uuid
  pub now : Timestamp
