-- ===== src/Progression/Service.antt =====
-- `ProgressionService` of crates/graphite-progression/src/progression.rs: the snapshot, the grant of
-- Account XP and the Rebirth. A call is one database transaction, except that a Rebirth first lets
-- the Bank accrue its interest in a transaction of its own. The request hashes and whether a text
-- is blank are parameters.
pub mod Grants
pub mod Granted
pub mod Calls
pub mod Rebirths
pub mod Reborn
pub mod RebirthCalls
pub mod RebirthProgress
pub mod RebirthBranches
use graphite_bot.Common.{
  ℕ, suc, Bool, not, ◌&&◌, Option, none, some, List, [], ◌∷◌, Result, ok, err, ◌>>=◌, ◌>>◌, ok_or,
  fail_if, if◌then◌else◌, ◌==◌, ltb,
}
use graphite_bot.Common.Int.{ℤ, pos, pos_part, leb_ℤ, ltb_ℤ, to_i64}
use graphite_bot.Common.Values.{Uuid, Text, Digest, PlayerStatus, is_active}
use graphite_bot.Economy.Interest.Tables.{
  InterestDb, BankInterestError, BankInterestSummary, InterestDraws, Calendar, Date, InterestPlayer,
}
use graphite_bot.Economy.Interest.{accrue_interest}
use graphite_bot.Progression.Errors.{
  ProgressionError, ProgressionMathError, arithmetic_overflow, bank_interest, math,
  snowflake_out_of_range, player_not_found, account_frozen, invalid_xp_amount, invalid_source,
  invalid_operation_result, invalid_progression_state, rebirth_requires_level_cap, lift,
}
use graphite_bot.Progression.Account.{
  AccountProgress, AccountXpGrantProjection, AccountXpGrantProjectionError, invalid_state,
  account_level, account_progress, account_max_level, project_account_xp_grant,
}
use graphite_bot.Progression.Activity.{ActivityProgress, activity_progress}
use graphite_bot.Progression.Rebirth.{rebirth_aexp_bonus_ppm, rebirth_repair_reduction_ppm}
use graphite_bot.Progression.Tables.{
  ProgressRow, ProgressionPlayer, AccountXpGrantReceipt, RebirthReceipt, ProgressionReceipt,
  granted, reborn, StoredResult, no_result, other_result, stored, account_xp_grant, rebirth,
  EventKind, account_xp_granted, rebirth_event, service_event, EventRow, OutboxRow, ProgressionDb,
  Draws,
}
use graphite_bot.Progression.Rows.{
  find_by_discord, update_players, write_account_xp, write_wallet, write_rebirth_count,
  insert_level_reward_ledger,
}
use graphite_bot.Progression.Operations.{
  OperationResolution, resolved_pending, resolved_committed, resolve_operation, commit_operation,
}

pub record LockedProgression : Type 0 where
  pub player_id : Uuid
  pub status : PlayerStatus
  pub rebirth_count : ℤ
  pub account_xp : ℤ
  pub activity_xp_points : ℤ
  pub wallet : ℤ

pub record ProgressionSnapshot : Type 0 where
  pub player_id : Uuid
  pub rebirth_count : ℕ
  pub account : AccountProgress
  pub activity : ActivityProgress
  pub rebirth_aexp_bonus_ppm : ℤ
  pub rebirth_repair_reduction_ppm : ℤ

abbrev pub snowflake_to_i64 : ℕ → Result ProgressionError ℤ
snowflake_to_i64 value = ok_or (to_i64 (pos value)) snowflake_out_of_range

-- `u64::try_from` of a stored count.
abbrev pub to_u64 : ℤ → Result ProgressionError ℕ
to_u64 count = if ltb_ℤ count (pos 0) then err invalid_progression_state else ok (pos_part count)

unfoldable pub snapshot_from_values : Uuid → ℤ → ℤ → ℤ → Result ProgressionError ProgressionSnapshot
snapshot_from_values player_id rebirth_count account_xp activity_xp_points = do
  count ← to_u64 rebirth_count
  account ← lift (account_progress account_xp)
  activity ← lift (activity_progress activity_xp_points)
  bonus ← lift (rebirth_aexp_bonus_ppm count)
  reduction ← lift (rebirth_repair_reduction_ppm count)
  ok (record {
    player_id = player_id;
    rebirth_count = count;
    account = account;
    activity = activity;
    rebirth_aexp_bonus_ppm = bonus;
    rebirth_repair_reduction_ppm = reduction;
  })

unfoldable pub snapshot : ℕ → ProgressionDb → Result ProgressionError ProgressionSnapshot
unfolding find_by_discord
snapshot discord_user_id db = do
  user ← snowflake_to_i64 discord_user_id
  player ← ok_or (find_by_discord user db.players) player_not_found
  progress ← ok_or player.progress player_not_found
  snapshot_from_values player.id player.rebirth_count progress.account_xp
      progress.activity_xp_points

-- A player without one of the joined rows is not found.
unfoldable pub lock_progression : ℤ → ProgressionDb → Result ProgressionError LockedProgression
lock_progression user db = do
  player ← ok_or (find_by_discord user db.players) player_not_found
  progress ← ok_or player.progress player_not_found
  wallet ← ok_or player.wallet player_not_found
  ok (record {
    player_id = player.id;
    status = player.status;
    rebirth_count = player.rebirth_count;
    account_xp = progress.account_xp;
    activity_xp_points = progress.activity_xp_points;
    wallet = wallet;
  })

abbrev pub ensure_mutable : PlayerStatus → Result ProgressionError (Unit {0})
ensure_mutable status = fail_if (not (is_active status)) (account_frozen status)

unfoldable pub ensure_rebirth_eligible : ℤ → ProgressionDb → Result ProgressionError (Unit {0})
ensure_rebirth_eligible user db = do
  player ← ok_or (find_by_discord user db.players) player_not_found
  progress ← ok_or player.progress player_not_found
  ensure_mutable player.status
  level ← lift (account_level progress.account_xp)
  fail_if (not (level == account_max_level)) rebirth_requires_level_cap

-- `mutation_key` keeps its default, 'primary'.
abbrev pub insert_progression_event :
    Draws → Text → Uuid → Uuid → EventKind → ProgressionReceipt → ProgressionDb → ProgressionDb
insert_progression_event draws primary operation player kind receipt db = record db {
  events =
      record {
        id = draws.event_id;
        operation_id = operation;
        mutation_key = primary;
        player_id = player;
        event_kind = kind;
        payload = service_event receipt;
      }
      ∷ db.events;
}

abbrev pub insert_outbox : Draws → Uuid → ProgressionReceipt → ProgressionDb → ProgressionDb
insert_outbox draws operation receipt db = record db {
  outbox = record { id = draws.outbox_id; operation_id = operation; payload = receipt } ∷ db.outbox;
}

-- The end of both calls: the event, the commit of the operation, and its outbox event.
unfoldable pub finish :
    Draws
    → Text
    → Uuid
    → Uuid
    → EventKind
    → ProgressionReceipt
    → ProgressionDb
    → Result ProgressionError ProgressionDb
finish draws primary operation player kind receipt db = do
  settled ←
      commit_operation operation player receipt
        (insert_progression_event draws primary operation player kind receipt db)
  ok (insert_outbox draws operation receipt settled)

abbrev pub map_projection :
    Result AccountXpGrantProjectionError AccountXpGrantProjection
    → Result ProgressionError AccountXpGrantProjection
map_projection (ok projection) = ok projection
map_projection (err (AccountXpGrantProjectionError.math e)) = err (math e)
map_projection (err invalid_state) = err invalid_progression_state

-- The two updates of a grant; each is made only when it changes something.
unfoldable pub pay_grant :
    Draws
    → Uuid
    → Uuid
    → Text
    → AccountXpGrantProjection
    → ProgressionDb
    → Result ProgressionError ProgressionDb
pay_grant draws operation player source projection db =
    let earned =
      if ltb_ℤ (pos 0) projection.granted_xp
      then update_players player (write_account_xp projection.account_xp_after) db
      else db in
    let paid = update_players player (write_wallet projection.wallet_after) earned in
    if ltb_ℤ (pos 0) projection.level_money_reward
    then lift (
        insert_level_reward_ledger draws.transaction_id operation player
          (record {
            source = source;
            level_before = projection.before.level;
            level_after = projection.after.level;
            granted_xp = projection.granted_xp;
            reward = projection.level_money_reward;
          })
          paid)
    else ok earned

abbrev pub grant_receipt : Uuid → ℤ → Text → ℤ → AccountXpGrantProjection → AccountXpGrantReceipt
grant_receipt operation amount source before projection = record {
  operation_id = operation;
  requested_xp = amount;
  granted_xp = projection.granted_xp;
  source = source;
  account_xp_before = before;
  account_xp_after = projection.account_xp_after;
  level_before = projection.before.level;
  level_after = projection.after.level;
  level_money_reward = projection.level_money_reward;
  wallet_after = projection.wallet_after;
}

-- A grant once its operation is pending.
unfoldable pub settle_grant :
    Draws
    → Text
    → ℤ
    → ℤ
    → Text
    → Uuid
    → ProgressionDb
    → Result ProgressionError (AccountXpGrantReceipt × ProgressionDb)
settle_grant draws primary user amount source operation db = do
  player ← lock_progression user db
  ensure_mutable player.status
  projection ← map_projection (project_account_xp_grant player.account_xp player.wallet amount)
  paid ← pay_grant draws operation player.player_id source projection db
  let receipt = grant_receipt operation amount source player.account_xp projection
  done ← finish draws primary operation player.player_id account_xp_granted (granted receipt) paid
  ok (receipt, done)

abbrev pub decode_grant : StoredResult → Result ProgressionError AccountXpGrantReceipt
decode_grant (stored (granted receipt)) = ok receipt
decode_grant (stored (reborn _)) = err invalid_operation_result
decode_grant no_result = err invalid_operation_result
decode_grant other_result = err invalid_operation_result

unfoldable pub resume_grant :
    (Uuid → ProgressionDb → Result ProgressionError (AccountXpGrantReceipt × ProgressionDb))
    → OperationResolution × ProgressionDb
    → Result ProgressionError (AccountXpGrantReceipt × ProgressionDb)
resume_grant settle (resolved_committed value, db) = do
  receipt ← decode_grant value
  ok (receipt, db)
resume_grant settle (resolved_pending operation, db) = settle operation db

-- `primary` is the default mutation key.
module _ (is_blank : Text → Bool) (account_xp_request_hash : ℤ → Text → Digest)
    (primary : Text) where
  unfoldable pub grant_account_xp :
      Draws
      → ℕ
      → ℤ
      → Text
      → Text
      → ProgressionDb
      → Result ProgressionError (AccountXpGrantReceipt × ProgressionDb)
  unfolding resume_grant
  grant_account_xp draws discord_user_id amount source key db = do
    fail_if (leb_ℤ amount (pos 0)) invalid_xp_amount
    fail_if (is_blank source) invalid_source
    user ← snowflake_to_i64 discord_user_id
    resolved ←
        resolve_operation draws user key account_xp_grant (account_xp_request_hash amount source) db
    resume_grant (settle_grant draws primary user amount source) resolved
