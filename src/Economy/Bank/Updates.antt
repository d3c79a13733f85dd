-- ===== src/Economy/Bank/Updates.antt =====
-- The statements of bank.rs on players, lots, withdrawals, ledger and outbox, and its checked sums.
use graphite_bot.Common.{
  ℕ, ◌+◌, Bool, false, not, ◌&&◌, ◌||◌, Option, none, some, List, [], ◌∷◌, ◌++◌, Result, ok, ◌>>=◌,
  fail_if, ok_or, if◌then◌else◌, ◌==◌, leb,
}
use graphite_bot.Common.Int.{ℤ, pos, neg, eqb_ℤ, ◌+ℤ◌, ◌-ℤ◌, ltb_ℤ, to_i64, to_i128}
use graphite_bot.Common.Values.{
  Uuid, Timestamp, PlayerStatus, AccountKind, is_active, is_deleted, wallet_account, bank_account,
  system_account,
}
use graphite_bot.Economy.Errors.{
  BankError, snowflake_out_of_range, player_not_found, account_frozen, arithmetic_overflow,
}
use graphite_bot.Economy.Tables.{
  BankMutationKind, deposit_kind, withdraw_kind, OperationKind, bank_mutation, eq_kind,
  BankMutationReceipt, PlayerRow, LotRow, WithdrawalRow, LedgerRow, PostingRow, OutboxRow, Db,
  Draws,
}
use graphite_bot.Economy.Fees.{FeeLot}
use graphite_bot.Economy.Bank.Lots.{LotDebit}

abbrev pub bank_policy_version : ℕ
bank_policy_version = 1

abbrev pub snowflake_to_i64 : ℕ → Result BankError ℤ
snowflake_to_i64 value = ok_or (to_i64 (pos value)) snowflake_out_of_range

-- `checked_add` and `checked_sub` compute in i128 and narrow; the i128 step cannot fail on two i64.
abbrev pub checked_add : ℤ → ℤ → Result BankError ℤ
checked_add left right = ok_or (to_i64 (left +ℤ right)) arithmetic_overflow

abbrev pub checked_sub : ℤ → ℤ → Result BankError ℤ
checked_sub left right = ok_or (to_i64 (left -ℤ right)) arithmetic_overflow

unfoldable pub find_player : ℤ → List PlayerRow → Option PlayerRow
find_player user [] = none
find_player user (row ∷ rows) =
    if eqb_ℤ row.discord_user_id user && not (is_deleted row.status)
    then some row
    else find_player user rows

abbrev pub lock_player : ℤ → Db → Result BankError PlayerRow
lock_player user db = ok_or (find_player user db.players) player_not_found

abbrev pub ensure_mutable : PlayerStatus → Result BankError (Unit {0})
ensure_mutable status = fail_if (not (is_active status)) (account_frozen status)

-- `UPDATE player_balances SET wallet = $1, bank = $2 WHERE player_id = $3`.
unfoldable pub set_balances : Uuid → ℤ → ℤ → List PlayerRow → List PlayerRow
set_balances player wallet bank [] = []
set_balances player wallet bank (row ∷ rows) =
    (if row.id == player then record row { wallet = wallet; bank = bank } else row)
    ∷ set_balances player wallet bank rows

abbrev pub update_balances : Uuid → ℤ → ℤ → Db → Db
update_balances player wallet bank db = record db {
  players = set_balances player wallet bank db.players;
}

abbrev pub create_bank_lot : Draws → Uuid → Uuid → ℤ → Db → Db
create_bank_lot draws player operation amount db = record db { lots = lot ∷ db.lots }
  where
    lot : LotRow
    lot = record {
      id = draws.lot_id;
      player_id = player;
      principal_remaining = amount;
      deposited_at = draws.now;
      created_by_operation_id = operation;
    }

-- `created_at >= now() - interval '24 hours'`, in microseconds.
unfoldable pub sum_recent : Uuid → Timestamp → List WithdrawalRow → ℤ
sum_recent player now [] = pos 0
sum_recent player now (row ∷ rows) =
    let rest = sum_recent player now rows in
    if (row.player_id == player) && leb now (row.created_at + 86_400_000_000)
    then row.gross_amount +ℤ rest
    else rest

abbrev pub rolling_24h_gross : Uuid → Timestamp → Db → Result BankError ℤ
rolling_24h_gross player now db =
    ok_or (to_i128 (sum_recent player now db.withdrawals)) arithmetic_overflow

abbrev pub insert_withdrawal_audit : Draws → Uuid → Uuid → ℤ → ℤ → Db → Db
insert_withdrawal_audit draws operation player gross fee db = record db {
  withdrawals = row ∷ db.withdrawals;
}
  where
    row : WithdrawalRow
    row = record {
      operation_id = operation;
      player_id = player;
      gross_amount = gross;
      fee_amount = fee;
      created_at = draws.now;
    }

abbrev pub posting : Uuid → ℕ → Option Uuid → AccountKind → ℤ → PostingRow
posting transaction sequence player account amount = record {
  transaction_id = transaction;
  sequence = sequence;
  player_id = player;
  account_kind = account;
  amount = amount;
}

-- The postings of `insert_ledger`, in the order of their sequence numbers.
unfoldable pub ledger_lines :
    Uuid → Uuid → BankMutationKind → ℤ → ℤ → Result BankError (List PostingRow)
ledger_lines transaction player deposit_kind gross fee = ok (
    posting transaction 0 (some player) wallet_account (neg gross)
    ∷ posting transaction 1 (some player) bank_account gross
    ∷ [])
ledger_lines transaction player withdraw_kind gross fee = do
  net ← checked_sub gross fee
  let fee_line = posting transaction 2 none system_account fee
  ok (
      posting transaction 0 (some player) bank_account (neg gross)
      ∷ posting transaction 1 (some player) wallet_account net
      ∷ (if ltb_ℤ (pos 0) fee then fee_line ∷ [] else []))

unfoldable pub insert_ledger :
    Draws → Uuid → Uuid → BankMutationKind → ℤ → ℤ → Db → Result BankError Db
unfolding ledger_lines
insert_ledger draws operation player kind gross fee db = do
  lines ← ledger_lines draws.transaction_id player kind gross fee
  ok (record db { ledger = row ∷ db.ledger; postings = lines ++ db.postings })
  where
    row : LedgerRow
    row = record {
      id = draws.transaction_id;
      operation_id = operation;
      kind = bank_mutation kind;
      policy_version = bank_policy_version;
    }

-- `ON CONFLICT (operation_id, topic) DO NOTHING`; the topic names the kind.
unfoldable pub has_event : Uuid → OperationKind → List OutboxRow → Bool
has_event operation topic [] = false
has_event operation topic (row ∷ rows) =
    ((row.operation_id == operation) && eq_kind row.topic topic) || has_event operation topic rows

abbrev pub insert_outbox : Draws → BankMutationReceipt → Db → Db
insert_outbox draws receipt db =
    if has_event receipt.operation_id (bank_mutation receipt.kind) db.outbox
    then db
    else record db { outbox = row ∷ db.outbox }
  where
    row : OutboxRow
    row = record {
      id = draws.outbox_id;
      operation_id = receipt.operation_id;
      topic = bank_mutation receipt.kind;
      payload = receipt;
    }

abbrev pub fee_lot : LotDebit → FeeLot
fee_lot debit = record { amount = debit.amount; deposited_at = debit.deposited_at }
