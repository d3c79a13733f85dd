-- ===== src/Economy/Interest/Tables.antt =====
-- The types of crates/graphite-economy/src/interest.rs and the tables that it reads and writes.
-- A player's row joins `players`, `player_balances` and `bank_interest_state`, which have one row
-- for each player. The database's own errors are left out.
use graphite_bot.Common.{ℕ, Option, List}
use graphite_bot.Common.Int.{ℤ}
use graphite_bot.Common.Values.{Uuid, Digest, PlayerStatus}
use graphite_bot.Economy.Tables.{LotRow, PostingRow}

pub data BankInterestError : Type 0 where
  snowflake_out_of_range player_not_found lot_integrity_mismatch invalid_state : BankInterestError
  arithmetic_overflow operation_conflict : BankInterestError

-- A `NaiveDate` by its number of days.
abbrev pub Date : Type 0
Date = ℕ

pub record InterestPlayer : Type 0 where
  pub player_id : Uuid
  pub discord_user_id : ℤ
  pub status : PlayerStatus
  pub bank : ℤ
  pub rebirth_count : ℤ
  pub remainder_q32 : ℤ
  pub last_accrual_day : Date

pub record InterestLot : Type 0 where
  pub id : Uuid
  pub principal : ℤ

pub record BankInterestSummary : Type 0 where
  pub player_id : Uuid
  pub days_processed : ℕ
  pub interest_credited : ℤ
  pub last_accrual_day : Date

pub record BankInterestBatchSummary : Type 0 where
  pub players_processed : ℕ
  pub days_processed : ℕ
  pub interest_credited : ℤ

-- The JSON that is stored with the operation and sent with its event.
pub record InterestResult : Type 0 where
  pub player_id : Uuid
  pub accrual_day : Date
  pub interest : ℤ
  pub bank_before : ℤ
  pub bank_after : ℤ
  pub rebirth_count : ℤ
  pub remainder_q32 : ℤ

-- A 'BANK_INTEREST' row of `operations`, always committed. Its `external_request_key` is the text
-- "system:bank-interest:{player}:{day}", kept here as the player and the day.
pub record InterestOperation : Type 0 where
  pub id : Uuid
  pub key_player : Uuid
  pub key_day : Date
  pub policy_version : ℕ
  pub request_hash : Digest
  pub rng_root : Digest
  pub result : InterestResult

pub record InterestTransaction : Type 0 where
  pub id : Uuid
  pub operation_id : Uuid
  pub accrual_day : Date
  pub rebirth_count : ℤ
  pub remainder_before_q32 : ℤ
  pub remainder_after_q32 : ℤ

pub record InterestEvent : Type 0 where
  pub id : Uuid
  pub operation_id : Uuid
  pub payload : InterestResult

pub record InterestDb : Type 0 where
  pub players : List InterestPlayer
  pub lots : List LotRow
  pub operations : List InterestOperation
  pub ledger : List InterestTransaction
  pub postings : List PostingRow
  pub outbox : List InterestEvent

-- What one day's operation draws.
pub record InterestDraws : Type 0 where
  pub operation_id : Uuid
  pub transaction_id : Uuid
  pub rng_root : Digest
  pub outbox_id : Uuid

-- What the code takes from chrono: `NaiveDate::succ_opt` and `checked_add_days`.
pub record Calendar : Type 0 where
  pub succ_opt : Date → Option Date
  pub checked_add_days : Date → ℕ → Option Date
