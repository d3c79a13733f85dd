-- ===== src/Economy/Interest.antt =====
-- crates/graphite-economy/src/interest.rs: Bank interest by the day. Each call is one database
-- transaction; a call that returns an error is rolled back.
pub mod Tables
pub mod Rate
pub mod Daily
pub mod Allocation
pub mod Exact
pub mod Accrual
pub mod LotWrites
pub mod Written
pub mod Raised
pub mod Days
pub mod Loaded
pub mod Sound
pub mod Accrued
pub mod Calls
use graphite_bot.Common.{
  ℕ, zero, suc, ◌+◌, Bool, not, ◌&&◌, ◌||◌, min, Option, none, some, List, [], ◌∷◌, Result, ok, err,
  ◌>>=◌, ◌>>◌, ok_or, fail_if, if◌then◌else◌, ◌==◌, ltb, leb,
}
use graphite_bot.Common.Int.{ℤ, pos, ltb_ℤ, leb_ℤ, eqb_ℤ, to_i64}
use graphite_bot.Common.Values.{Uuid, Digest, is_deleted}
use Tables.{
  BankInterestError, snowflake_out_of_range, player_not_found, invalid_state, Date, InterestPlayer,
  BankInterestSummary, BankInterestBatchSummary, InterestDb, InterestDraws, Calendar,
}
use Rate.{checked_add, interest_denominator_q32}
use Accrual.{accrue_locked_player, to_u32}

-- The remainder must lie in `0..denominator`.
abbrev pub interest_player_from_row : InterestPlayer → Result BankInterestError InterestPlayer
interest_player_from_row row = do
  fail_if (ltb_ℤ row.remainder_q32 (pos 0) || leb_ℤ interest_denominator_q32 row.remainder_q32)
      invalid_state
  ok row

-- `WHERE p.discord_user_id = $1 AND p.status <> 'DELETED'`, and the same by id.
unfoldable pub find_by_discord : ℤ → List InterestPlayer → Option InterestPlayer
find_by_discord user [] = none
find_by_discord user (row ∷ rows) =
    if eqb_ℤ row.discord_user_id user && not (is_deleted row.status)
    then some row
    else find_by_discord user rows

unfoldable pub find_by_id : Uuid → List InterestPlayer → Option InterestPlayer
find_by_id id [] = none
find_by_id id (row ∷ rows) =
    if (row.player_id == id) && not (is_deleted row.status) then some row else find_by_id id rows

abbrev pub lock_interest_player_by_discord :
    ℤ → InterestDb → Result BankInterestError InterestPlayer
lock_interest_player_by_discord user db = do
  row ← ok_or (find_by_discord user db.players) player_not_found
  interest_player_from_row row

abbrev pub lock_interest_player_by_id : Uuid → InterestDb → Result BankInterestError InterestPlayer
lock_interest_player_by_id id db = do
  row ← ok_or (find_by_id id db.players) player_not_found
  interest_player_from_row row

-- A failed call leaves the database as it was.
abbrev pub committed :
    {A : Type 0}
    → Result BankInterestError (A × InterestDb)
    → InterestDb
    → Result BankInterestError A × InterestDb
committed (ok (a, db')) db = (ok a, db')
committed (err e) db = (err e, db)

-- The players of a batch: `last_accrual_day < today`, by day and id.
abbrev pub is_due : Date → InterestPlayer → Bool
is_due today row = not (is_deleted row.status) && ltb row.last_accrual_day today

abbrev pub is_before : InterestPlayer → InterestPlayer → Bool
is_before a b =
    ltb a.last_accrual_day b.last_accrual_day
    || ((a.last_accrual_day == b.last_accrual_day) && leb a.player_id b.player_id)

unfoldable pub insert_due : InterestPlayer → List InterestPlayer → List InterestPlayer
insert_due row [] = row ∷ []
insert_due row (x ∷ xs) = if is_before row x then row ∷ x ∷ xs else x ∷ insert_due row xs

unfoldable pub select_due : Date → List InterestPlayer → List InterestPlayer
unfolding insert_due
select_due today [] = []
select_due today (row ∷ rows) =
    let rest = select_due today rows in if is_due today row then insert_due row rest else rest

unfoldable pub take : ℕ → List InterestPlayer → List InterestPlayer
take zero rows = []
take (suc n) [] = []
take (suc n) (row ∷ rows) = row ∷ take n rows

module _ (interest_request_hash : Uuid → Date → ℤ → ℤ → ℤ → Digest)
    (draws : Uuid → Date → InterestDraws) (calendar : Calendar) where
  unfoldable pub accrue_interest_tx :
      Date → ℕ → InterestDb → Result BankInterestError (BankInterestSummary × InterestDb)
  unfolding find_by_discord accrue_locked_player
  accrue_interest_tx today snowflake db = do
    user ← ok_or (to_i64 (pos snowflake)) snowflake_out_of_range
    player ← lock_interest_player_by_discord user db
    accrue_locked_player interest_request_hash (draws player.player_id) calendar player today db

  unfoldable pub accrue_interest :
      Date → ℕ → InterestDb → Result BankInterestError BankInterestSummary × InterestDb
  unfolding accrue_interest_tx
  accrue_interest today snowflake db = committed (accrue_interest_tx today snowflake db) db

  unfoldable pub accrue_by_id_tx :
      Date → Uuid → InterestDb → Result BankInterestError (BankInterestSummary × InterestDb)
  unfolding find_by_id accrue_locked_player
  accrue_by_id_tx today id db = do
    player ← lock_interest_player_by_id id db
    accrue_locked_player interest_request_hash (draws player.player_id) calendar player today db

  unfoldable pub accrue_interest_by_player_id :
      Date → Uuid → InterestDb → Result BankInterestError BankInterestSummary × InterestDb
  unfolding accrue_by_id_tx
  accrue_interest_by_player_id today id db = committed (accrue_by_id_tx today id db) db

  abbrev pub add_summary :
      BankInterestBatchSummary
      → BankInterestSummary
      → Result BankInterestError BankInterestBatchSummary
  add_summary batch summary = do
    players ← to_u32 (suc batch.players_processed)
    days ← to_u32 (batch.days_processed + summary.days_processed)
    interest ← checked_add batch.interest_credited summary.interest_credited
    ok (record { players_processed = players; days_processed = days; interest_credited = interest })

  -- Each player is a transaction of its own, which reads the day again: an error stops the batch,
  -- and what was committed stays.
  unfoldable pub accrue_rows :
      (ℕ → Date)
      → ℕ
      → List InterestPlayer
      → BankInterestBatchSummary
      → InterestDb
      → Result BankInterestError BankInterestBatchSummary × InterestDb
  unfolding accrue_interest_by_player_id
  accrue_rows today round [] batch db = (ok batch, db)
  accrue_rows today round (row ∷ rows) batch db =
      let accrued = accrue_interest_by_player_id (today round) row.player_id db in
      elim (accrued.0 >>= add_summary batch) [
        | err e ↦ (err e, accrued.1)
        | ok batch' ↦ accrue_rows today (suc round) rows batch' accrued.1
      ]

  abbrev pub empty_batch : BankInterestBatchSummary
  empty_batch = record { players_processed = 0; days_processed = 0; interest_credited = pos 0 }

  unfoldable pub accrue_due_interest_batch :
      (ℕ → Date) → ℕ → InterestDb → Result BankInterestError BankInterestBatchSummary × InterestDb
  unfolding select_due take accrue_rows
  accrue_due_interest_batch today limit db =
      let rows = take (min limit 1_000) (select_due (today 0) db.players) in
      if limit == 0 then (ok empty_batch, db) else accrue_rows today 1 rows empty_batch db
