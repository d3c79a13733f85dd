-- ===== src/Progression/Rows.antt =====
-- The statements of crates/graphite-progression on `players`, `player_progression`,
-- `player_balances` and the ledger.
pub mod Updates
pub mod Paid
use graphite_bot.Common.{
  ℕ, Bool, not, ◌&&◌, Option, none, some, List, [], ◌∷◌, Result, ok, err, ◌>>=◌, ok_or,
  if◌then◌else◌, ◌==◌,
}
use graphite_bot.Common.Int.{ℤ, pos, neg, eqb_ℤ, to_i64}
use graphite_bot.Common.Values.{
  Uuid, Text, PlayerStatus, is_deleted, wallet_account, system_account,
}
use graphite_bot.Economy.Bank.Updates.{posting}
use graphite_bot.Economy.Tables.{PostingRow}
use graphite_bot.Progression.Errors.{ProgressionMathError, arithmetic_overflow}
use graphite_bot.Progression.Tables.{
  ProgressRow, ProgressionPlayer, LevelRewardLedger, level_reward, LedgerRow, ProgressionDb,
}

-- The first row by Discord user, or by id, that is not deleted.
unfoldable pub find_by_discord : ℤ → List ProgressionPlayer → Option ProgressionPlayer
find_by_discord user [] = none
find_by_discord user (row ∷ rows) =
    if eqb_ℤ row.discord_user_id user && not (is_deleted row.status)
    then some row
    else find_by_discord user rows

unfoldable pub find_by_id : Uuid → List ProgressionPlayer → Option ProgressionPlayer
find_by_id id [] = none
find_by_id id (row ∷ rows) =
    if (row.id == id) && not (is_deleted row.status) then some row else find_by_id id rows

abbrev pub with_account_xp : ℤ → Option ProgressRow → Option ProgressRow
with_account_xp xp none = none
with_account_xp xp (some row) = some (record row { account_xp = xp })

abbrev pub with_activity_xp : ℤ → Option ProgressRow → Option ProgressRow
with_activity_xp points none = none
with_activity_xp points (some row) = some (record row { activity_xp_points = points })

abbrev pub with_wallet : ℤ → Option ℤ → Option ℤ
with_wallet wallet none = none
with_wallet wallet (some _) = some wallet

-- An `UPDATE … WHERE player_id = $2` of one of the three tables.
unfoldable pub update_player :
    Uuid → (ProgressionPlayer → ProgressionPlayer) → List ProgressionPlayer → List ProgressionPlayer
update_player id change [] = []
update_player id change (row ∷ rows) =
    (if row.id == id then change row else row) ∷ update_player id change rows

abbrev pub write_account_xp : ℤ → ProgressionPlayer → ProgressionPlayer
write_account_xp xp row = record row { progress = with_account_xp xp row.progress }

abbrev pub write_activity_xp : ℤ → ProgressionPlayer → ProgressionPlayer
write_activity_xp points row = record row { progress = with_activity_xp points row.progress }

abbrev pub write_wallet : ℤ → ProgressionPlayer → ProgressionPlayer
write_wallet wallet row = record row { wallet = with_wallet wallet row.wallet }

abbrev pub write_rebirth_count : ℤ → ProgressionPlayer → ProgressionPlayer
write_rebirth_count count row = record row { rebirth_count = count }

abbrev pub update_players :
    Uuid → (ProgressionPlayer → ProgressionPlayer) → ProgressionDb → ProgressionDb
update_players id change db = record db { players = update_player id change db.players }

-- `insert_level_reward_ledger`; the transaction id is drawn.
unfoldable pub insert_level_reward_ledger :
    Uuid
    → Uuid
    → Uuid
    → LevelRewardLedger
    → ProgressionDb
    → Result ProgressionMathError ProgressionDb
insert_level_reward_ledger transaction operation player ledger db = do
  debit ← ok_or (to_i64 (neg ledger.reward)) arithmetic_overflow
  ok (record db {
    ledger =
        record { id = transaction; operation_id = operation; entry = level_reward ledger }
        ∷ db.ledger;
    postings =
        posting transaction 0 (some player) wallet_account ledger.reward
        ∷ posting transaction 1 none system_account debit
        ∷ db.postings;
  })
