-- ===== src/Progression/Service/Rebirths.antt =====
-- `ProgressionService::rebirth`: a transaction that lets the Bank accrue the player's interest, in
-- another transaction, between its check of the level and the update.
use graphite_bot.Common.{
  ℕ, suc, not, List, [], ◌∷◌, Result, ok, err, ◌>>=◌, ◌>>◌, ok_or, fail_if, if◌then◌else◌, ◌==◌,
  ltb,
}
use graphite_bot.Common.Int.{ℤ, pos, to_i64}
use graphite_bot.Common.Values.{Uuid, Text, Digest}
use graphite_bot.Economy.Interest.Tables.{
  InterestDb, InterestPlayer, BankInterestError, BankInterestSummary, InterestDraws, Calendar, Date,
}
use graphite_bot.Economy.Interest.{accrue_interest}
use graphite_bot.Progression.Errors.{
  ProgressionError, arithmetic_overflow, bank_interest, math, invalid_operation_result,
  rebirth_requires_level_cap, lift,
}
use graphite_bot.Progression.Account.{account_level, account_max_level}
use graphite_bot.Progression.Activity.{activity_progress}
use graphite_bot.Progression.Tables.{
  RebirthReceipt, granted, reborn, StoredResult, no_result, other_result, stored, MutationKind,
  rebirth_event, ProgressionDb, Draws,
}
use graphite_bot.Progression.Rows.{update_players, write_account_xp, write_rebirth_count}
use graphite_bot.Progression.Operations.{
  OperationResolution, resolved_pending, resolved_committed, resolve_operation,
}
use graphite_bot.Progression.Service.{
  snowflake_to_i64, to_u64, lock_progression, ensure_mutable, ensure_rebirth_eligible, finish,
}

-- The tables of the two crates. `players.rebirth_count` stands in both, and a Rebirth writes it.
pub record Store : Type 0 where
  pub progression : ProgressionDb
  pub interest : InterestDb

-- `checked_add(1)` of a `u64`, and the `i64` that the database takes.
abbrev pub next_rebirth : ℕ → Result ProgressionError ℤ
next_rebirth previous = do
  count ←
      if ltb (suc previous) 18_446_744_073_709_551_616
      then ok (suc previous)
      else err (math arithmetic_overflow)
  ok_or (to_i64 (pos count)) (math arithmetic_overflow)

abbrev pub rebirth_receipt : Uuid → ℕ → ℤ → ℕ → RebirthReceipt
rebirth_receipt operation previous points level = record {
  operation_id = operation;
  previous_rebirth_count = previous;
  rebirth_count = suc previous;
  activity_xp_points = points;
  activity_level = level;
}

abbrev pub write_rebirth : Uuid → ℤ → ProgressionDb → ProgressionDb
write_rebirth player count db =
    update_players player (write_account_xp (pos 0))
      (update_players player (write_rebirth_count count) db)

-- The player's id is returned for the other view of the table.
unfoldable pub settle_rebirth :
    Draws
    → Text
    → ℤ
    → Uuid
    → ProgressionDb
    → Result ProgressionError (RebirthReceipt × Uuid × ProgressionDb)
settle_rebirth draws primary user operation db = do
  player ← lock_progression user db
  ensure_mutable player.status
  level ← lift (account_level player.account_xp)
  fail_if (not (level == account_max_level)) rebirth_requires_level_cap
  previous ← to_u64 player.rebirth_count
  count ← next_rebirth previous
  activity ← lift (activity_progress player.activity_xp_points)
  let receipt = rebirth_receipt operation previous player.activity_xp_points activity.level
  done ←
      finish draws primary operation player.player_id rebirth_event (reborn receipt)
        (write_rebirth player.player_id count db)
  ok (receipt, player.player_id, done)

abbrev pub decode_rebirth : StoredResult → Result ProgressionError RebirthReceipt
decode_rebirth (stored (reborn receipt)) = ok receipt
decode_rebirth (stored (granted _)) = err invalid_operation_result
decode_rebirth no_result = err invalid_operation_result
decode_rebirth other_result = err invalid_operation_result

-- The column in the rows that the Bank reads.
unfoldable pub set_rebirth_count : Uuid → ℤ → List InterestPlayer → List InterestPlayer
set_rebirth_count player count [] = []
set_rebirth_count player count (row ∷ rows) =
    (if row.player_id == player then record row { rebirth_count = count } else row)
    ∷ set_rebirth_count player count rows

abbrev pub commit_rebirth :
    Store
    → Result ProgressionError (RebirthReceipt × Uuid × ProgressionDb)
    → Result ProgressionError RebirthReceipt × Store
commit_rebirth store (err e) = (err e, store)
commit_rebirth store (ok (receipt, player, db)) = (
  ok receipt,
  record {
    progression = db;
    interest = record store.interest {
      players = set_rebirth_count player (pos receipt.rebirth_count) store.interest.players;
    };
  },
)

-- What follows the interest; the Bank's transaction stays when the rest fails.
abbrev pub after_accrual :
    (ProgressionDb → Result ProgressionError (RebirthReceipt × Uuid × ProgressionDb))
    → ProgressionDb
    → ProgressionDb
    → Result BankInterestError BankInterestSummary × InterestDb
    → Result ProgressionError RebirthReceipt × Store
after_accrual settle before claimed (err e, interest) =
    (err (bank_interest e), record { progression = before; interest = interest })
after_accrual settle before claimed (ok _, interest) =
    commit_rebirth (record { progression = before; interest = interest }) (settle claimed)

-- `?` where a refusal leaves the tables.
abbrev pub or_refuse :
    {A : Type 0}
    → Result ProgressionError A
    → Store
    → (A → Result ProgressionError RebirthReceipt × Store)
    → Result ProgressionError RebirthReceipt × Store
or_refuse (err e) store next = (err e, store)
or_refuse (ok a) store next = next a

module _ (interest_request_hash : Uuid → Date → ℤ → ℤ → ℤ → Digest)
    (interest_draws : Uuid → Date → InterestDraws) (calendar : Calendar) (today : Date)
    (rebirth_request_hash : Digest) (primary : Text) where
  unfoldable pub resume_rebirth :
      Draws
      → ℕ
      → ℤ
      → Store
      → OperationResolution × ProgressionDb
      → Result ProgressionError RebirthReceipt × Store
  resume_rebirth draws snowflake user store (resolved_committed value, db) =
      (decode_rebirth value, store)
  resume_rebirth draws snowflake user store (resolved_pending operation, claimed) =
      or_refuse (ensure_rebirth_eligible user claimed) store λ _.
        after_accrual (settle_rebirth draws primary user operation) store.progression claimed (
          accrue_interest interest_request_hash interest_draws calendar today snowflake
            store.interest)

  unfoldable pub claim_rebirth :
      Draws
      → ℕ
      → Text
      → ProgressionDb
      → Result ProgressionError (ℤ × OperationResolution × ProgressionDb)
  claim_rebirth draws snowflake key db = do
    user ← snowflake_to_i64 snowflake
    resolved ← resolve_operation draws user key MutationKind.rebirth rebirth_request_hash db
    ok (user, resolved.0, resolved.1)

  unfoldable pub rebirth : Draws → ℕ → Text → Store → Result ProgressionError RebirthReceipt × Store
  unfolding claim_rebirth resume_rebirth
  rebirth draws snowflake key store =
      or_refuse (claim_rebirth draws snowflake key store.progression) store
        λ claim. resume_rebirth draws snowflake claim.0 store (claim.1, claim.2)
