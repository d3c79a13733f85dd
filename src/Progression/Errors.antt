-- ===== src/Progression/Errors.antt =====
-- The errors of crates/graphite-progression/src/progression.rs, and checked operations
-- that fail with `ProgressionMathError`.
use graphite_bot.Common.{Result, ok, err, ok_or}
use graphite_bot.Common.Int.{ℤ, to_i64, to_i128}
use graphite_bot.Common.Values.{PlayerStatus, OperationState}
use graphite_bot.Economy.Interest.Tables.{BankInterestError}

pub data ProgressionMathError : Type 0 where
  invalid_account_xp invalid_activity_xp arithmetic_overflow : ProgressionMathError

abbrev pub narrow_64 : ℤ → Result ProgressionMathError ℤ
narrow_64 a = ok_or (to_i64 a) arithmetic_overflow

abbrev pub narrow_128 : ℤ → Result ProgressionMathError ℤ
narrow_128 a = ok_or (to_i128 a) arithmetic_overflow

-- `ProgressionError`, without the database's own failures.
pub data ProgressionError : Type 0 where
  bank_interest : BankInterestError → ProgressionError
  math : ProgressionMathError → ProgressionError
  snowflake_out_of_range player_not_found : ProgressionError
  account_frozen : PlayerStatus → ProgressionError
  invalid_xp_amount invalid_source idempotency_conflict : ProgressionError
  operation_terminal : OperationState → ProgressionError
  operation_missing_after_insert invalid_operation_result invalid_progression_state :
      ProgressionError
  rebirth_requires_level_cap operation_commit_conflict : ProgressionError

-- `?` on a `ProgressionMathError`.
abbrev pub lift : {A : Type 0} → Result ProgressionMathError A → Result ProgressionError A
lift (ok a) = ok a
lift (err e) = err (math e)
