-- ===== src/Economy/Wallet/Tables.antt =====
-- The types of crates/graphite-economy/src/wallet.rs and the tables that it reads and writes.
use graphite_bot.Common.{ℕ, Option, List}
use graphite_bot.Common.Int.{ℤ}
use graphite_bot.Common.Values.{Uuid, Text, PlayerStatus, OperationState}
use graphite_bot.Economy.Tables.{PlayerRow, PostingRow}

abbrev pub JsonValue : Type 0
JsonValue = ℕ

pub data InvalidSpend : Type 0 where
  invalid_payload unreconciled_receipt posting_count wallet_posting sink_posting : InvalidSpend

pub data WalletSpendError : Type 0 where
  invalid_amount invalid_source invalid_provenance player_not_found : WalletSpendError
  account_frozen : PlayerStatus → WalletSpendError
  operation_not_found operation_player_mismatch : WalletSpendError
  operation_terminal : OperationState → WalletSpendError
  insufficient_wallet : ℤ → ℤ → WalletSpendError
  mutation_conflict : WalletSpendError
  invalid_stored_spend : InvalidSpend → WalletSpendError
  arithmetic_overflow : WalletSpendError

pub record LockedWalletSpendContext : Type 0 where
  pub operation_id : Uuid
  pub player_id : Uuid
  pub wallet : ℤ

pub record WalletSpendRequest : Type 0 where
  pub operation_id : Uuid
  pub player_id : Uuid
  pub amount : ℤ
  pub source : Text
  pub provenance : JsonValue

pub record WalletSpendReceipt : Type 0 where
  pub ledger_transaction_id : Uuid
  pub operation_id : Uuid
  pub player_id : Uuid
  pub amount : ℤ
  pub source : Text
  pub wallet_before : ℤ
  pub wallet_after : ℤ

pub record WalletSpendLedgerProvenance : Type 0 where
  pub wallet_spend_policy_version : ℕ
  pub source : Text
  pub request_provenance : JsonValue
  pub receipt : WalletSpendReceipt

-- `ledger_transactions.kind`.
pub data LedgerKind : Type 0 where
  wallet_spend : LedgerKind
  other_kind : Text → LedgerKind

-- `ledger_transactions.provenance`, by what it decodes to.
pub data StoredProvenance : Type 0 where
  spend_provenance : WalletSpendLedgerProvenance → StoredProvenance
  other_provenance : JsonValue → StoredProvenance

pub record OwningOperation : Type 0 where
  pub id : Uuid
  pub player_id : Option Uuid
  pub state : OperationState

pub record LedgerTransaction : Type 0 where
  pub id : Uuid
  pub operation_id : Uuid
  pub kind : LedgerKind
  pub provenance : StoredProvenance

pub record WalletDb : Type 0 where
  pub operations : List OwningOperation
  pub players : List PlayerRow
  pub ledger : List LedgerTransaction
  pub postings : List PostingRow
