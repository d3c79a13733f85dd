-- ===== src/Economy/Errors.antt =====
-- The error enumeration of crates/graphite-economy/src/bank.rs. The database's own errors are not
-- among its cases.
use graphite_bot.Common.Int.{ℤ}
use graphite_bot.Common.Values.{PlayerStatus, OperationState}

-- The text of `OperationTerminal`: a stored state, or "unexpected transition".
pub data TerminalReason : Type 0 where
  in_state : OperationState → TerminalReason
  unexpected_transition : TerminalReason

pub data BankError : Type 0 where
  snowflake_out_of_range invalid_amount below_minimum_withdrawal player_not_found : BankError
  account_frozen : PlayerStatus → BankError
  insufficient_wallet insufficient_bank : ℤ → ℤ → BankError
  lot_integrity_mismatch idempotency_conflict invalid_operation_result : BankError
  operation_terminal : TerminalReason → BankError
  operation_missing_after_insert arithmetic_overflow invalid_fee : BankError
