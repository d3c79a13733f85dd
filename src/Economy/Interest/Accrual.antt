-- ===== src/Economy/Interest/Accrual.antt =====
-- `accrue_locked_player` of interest.rs: one player's days, with the rows that each day adds.
use graphite_bot.Common.{
  ℕ, zero, suc, Bool, ◌&&◌, ◌-◌, min, none, some, List, [], ◌∷◌, Result, ok, err, ◌>>=◌, ◌>>◌,
  ok_or, fail_if, if◌then◌else◌, ◌==◌, ltb, true, false,
}
use graphite_bot.Common.Int.{ℤ, pos, neg, ltb_ℤ, eqb_ℤ}
use graphite_bot.Common.Values.{Uuid, Digest, system_account, bank_account, is_hard_frozen}
use graphite_bot.Economy.Tables.{LotRow}
use graphite_bot.Economy.Bank.Lots.{select_lots}
use graphite_bot.Economy.Bank.Updates.{posting}
use graphite_bot.Economy.Interest.Tables.{
  BankInterestError, invalid_state, arithmetic_overflow, lot_integrity_mismatch, operation_conflict,
  Date, InterestPlayer, InterestLot, BankInterestSummary, InterestResult, InterestOperation,
  InterestTransaction, InterestEvent, InterestDb, InterestDraws, Calendar,
}
use graphite_bot.Economy.Interest.Rate.{checked_add, calculate_daily_interest}
use graphite_bot.Economy.Interest.Allocation.{allocate_interest_to_lots}

-- The rows of `load_interest_lots`: the open lots of the player, oldest first.
abbrev pub interest_lot : LotRow → InterestLot
interest_lot row = record { id = row.id; principal = row.principal_remaining }

unfoldable pub interest_lots : List LotRow → List InterestLot
interest_lots [] = []
interest_lots (row ∷ rows) = interest_lot row ∷ interest_lots rows

unfoldable pub load_interest_lots : Uuid → List LotRow → List InterestLot
unfolding interest_lots select_lots
load_interest_lots player rows = interest_lots (select_lots player rows)

unfoldable pub fold_principal : ℤ → List InterestLot → Result BankInterestError ℤ
fold_principal sum [] = ok sum
fold_principal sum (lot ∷ lots) = do next ← checked_add sum lot.principal; fold_principal next lots

unfoldable pub reconcile_lots : ℤ → List InterestLot → Result BankInterestError (Unit {0})
unfolding fold_principal
reconcile_lots bank lots = do
  total ← fold_principal (pos 0) lots
  if eqb_ℤ total bank then ok tt else err lot_integrity_mismatch

-- The unique `external_request_key`.
unfoldable pub has_key : Uuid → Date → List InterestOperation → Bool
has_key player day [] = false
has_key player day (row ∷ rows) =
    if (row.key_player == player) && (row.key_day == day) then true else has_key player day rows

-- The days so far: the player, its lots in memory, the interest credited, and the tables.
pub record Progress : Type 0 where
  pub player : InterestPlayer
  pub lots : List InterestLot
  pub total_interest : ℤ
  pub db : InterestDb

-- `UPDATE player_balances SET bank = $1 WHERE player_id = $2`.
unfoldable pub set_bank : Uuid → ℤ → List InterestPlayer → List InterestPlayer
set_bank player bank [] = []
set_bank player bank (row ∷ rows) =
    (if row.player_id == player then record row { bank = bank } else row)
    ∷ set_bank player bank rows

-- `UPDATE bank_interest_state … WHERE player_id = $3`, and whether a row has the id.
unfoldable pub set_state : Uuid → ℤ → Date → List InterestPlayer → List InterestPlayer
set_state player remainder day [] = []
set_state player remainder day (row ∷ rows) =
    (if row.player_id == player
      then record row { remainder_q32 = remainder; last_accrual_day = day }
      else row)
    ∷ set_state player remainder day rows

unfoldable pub has_state : Uuid → List InterestPlayer → Bool
has_state player [] = false
has_state player (row ∷ rows) = if row.player_id == player then true else has_state player rows

unfoldable pub update_interest_state :
    Uuid → ℤ → Date → InterestDb → Result BankInterestError InterestDb
unfolding set_state has_state
update_interest_state player remainder day db =
    if has_state player db.players
    then ok (record db { players = set_state player remainder day db.players })
    else err invalid_state

abbrev pub max_catchup_days_per_player : ℕ
max_catchup_days_per_player = 366

-- `u32::try_from`.
abbrev pub to_u32 : ℕ → Result BankInterestError ℕ
to_u32 n = if ltb n 4_294_967_296 then ok n else err arithmetic_overflow

abbrev pub summary_of : Uuid → ℕ → ℤ → Date → BankInterestSummary
summary_of player days interest day = record {
  player_id = player;
  days_processed = days;
  interest_credited = interest;
  last_accrual_day = day;
}

-- `interest_request_hash` is the BLAKE3 digest of player, day, balance, rebirths and remainder.
module _ (interest_request_hash : Uuid → Date → ℤ → ℤ → ℤ → Digest)
    (draws : Date → InterestDraws) where
  abbrev pub interest_result : InterestPlayer → Date → ℤ → ℤ → ℤ → ℤ → InterestResult
  interest_result player day bank_before bank_after interest remainder_after = record {
    player_id = player.player_id;
    accrual_day = day;
    interest = interest;
    bank_before = bank_before;
    bank_after = bank_after;
    rebirth_count = player.rebirth_count;
    remainder_q32 = remainder_after;
  }

  abbrev pub interest_operation : InterestPlayer → Date → ℤ → ℤ → InterestResult → InterestOperation
  interest_operation player day bank_before remainder_before result = record {
    id = (draws day).operation_id;
    key_player = player.player_id;
    key_day = day;
    policy_version = 1;
    request_hash =
        interest_request_hash player.player_id day bank_before player.rebirth_count
          remainder_before;
    rng_root = (draws day).rng_root;
    result = result;
  }

  abbrev pub interest_transaction : InterestPlayer → Date → ℤ → ℤ → InterestTransaction
  interest_transaction player day remainder_before remainder_after = record {
    id = (draws day).transaction_id;
    operation_id = (draws day).operation_id;
    accrual_day = day;
    rebirth_count = player.rebirth_count;
    remainder_before_q32 = remainder_before;
    remainder_after_q32 = remainder_after;
  }

  abbrev pub interest_event : Date → InterestResult → InterestEvent
  interest_event day result = record {
    id = (draws day).outbox_id;
    operation_id = (draws day).operation_id;
    payload = result;
  }

  unfoldable pub insert_interest_operation :
      InterestPlayer → Date → ℤ → ℤ → ℤ → ℤ → InterestDb → Result BankInterestError InterestDb
  unfolding has_key
  insert_interest_operation player day bank_before interest remainder_before remainder_after db = do
    bank_after ← checked_add bank_before interest
    let result = interest_result player day bank_before bank_after interest remainder_after
    let operation = interest_operation player day bank_before remainder_before result
    let transaction = (draws day).transaction_id
    fail_if (has_key player.player_id day db.operations) operation_conflict
    ok (record db {
      operations = operation ∷ db.operations;
      ledger = interest_transaction player day remainder_before remainder_after ∷ db.ledger;
      postings =
          posting transaction 0 none system_account (neg interest)
          ∷ posting transaction 1 (some player.player_id) bank_account interest
          ∷ db.postings;
      outbox = interest_event day result ∷ db.outbox;
    })

  -- What a day with interest does.
  unfoldable pub credit_day : Date → ℤ → ℤ → Progress → Result BankInterestError Progress
  unfolding insert_interest_operation
  credit_day day interest remainder_after p = do
    let bank_before = p.player.bank
    raised ← allocate_interest_to_lots p.lots interest bank_before p.db.lots
    bank ← checked_add bank_before interest
    let player = record p.player { bank = bank }
    let raised_db = record p.db { lots = raised.1 }
    db ←
        insert_interest_operation player day bank_before interest p.player.remainder_q32
          remainder_after raised_db
    total ← checked_add p.total_interest interest
    ok (record { player = player; lots = raised.0; total_interest = total; db = db })

  module _ (calendar : Calendar) where
    -- One round of the loop over the days.
    unfoldable pub accrue_day : Progress → Result BankInterestError Progress
    unfolding credit_day
    accrue_day p = do
      day ← ok_or (calendar.succ_opt p.player.last_accrual_day) arithmetic_overflow
      (interest, remainder_after) ←
          calculate_daily_interest p.player.bank p.player.rebirth_count p.player.remainder_q32
      credited ← if ltb_ℤ (pos 0) interest then credit_day day interest remainder_after p else ok p
      ok (record credited {
        player = record credited.player { remainder_q32 = remainder_after; last_accrual_day = day };
      })

    unfoldable pub accrue_days : ℕ → Progress → Result BankInterestError Progress
    unfolding accrue_day
    accrue_days zero p = ok p
    accrue_days (suc rounds) p = do next ← accrue_day p; accrue_days rounds next

    -- A hard-frozen account lets its days pass without interest.
    unfoldable pub skip_days :
        InterestPlayer
        → ℕ
        → InterestDb
        → Result BankInterestError (BankInterestSummary × InterestDb)
    unfolding update_interest_state
    skip_days player days db = do
      day ← ok_or (calendar.checked_add_days player.last_accrual_day days) arithmetic_overflow
      updated ← update_interest_state player.player_id player.remainder_q32 day db
      processed ← to_u32 days
      ok (summary_of player.player_id processed (pos 0) day, updated)

    unfoldable pub credit_days :
        InterestPlayer
        → ℕ
        → InterestDb
        → Result BankInterestError (BankInterestSummary × InterestDb)
    unfolding load_interest_lots reconcile_lots accrue_days update_interest_state set_bank
    credit_days player days db = do
      let lots = load_interest_lots player.player_id db.lots
      reconcile_lots player.bank lots
      p ←
          accrue_days days
            (record { player = player; lots = lots; total_interest = pos 0; db = db })
      let banked = set_bank player.player_id p.player.bank p.db.players
      let paid = if ltb_ℤ (pos 0) p.total_interest then record p.db { players = banked } else p.db
      updated ←
          update_interest_state player.player_id p.player.remainder_q32 p.player.last_accrual_day
            paid
      processed ← to_u32 days
      ok (summary_of player.player_id processed p.total_interest p.player.last_accrual_day, updated)

    unfoldable pub accrue_locked_player :
        InterestPlayer
        → Date
        → InterestDb
        → Result BankInterestError (BankInterestSummary × InterestDb)
    unfolding skip_days credit_days
    accrue_locked_player player today db =
        let days = min (today - player.last_accrual_day) max_catchup_days_per_player in
        if ltb player.last_accrual_day today
        then (if is_hard_frozen player.status
            then skip_days player days db
            else credit_days player days db)
        else ok (summary_of player.player_id 0 (pos 0) player.last_accrual_day, db)
