-- ===== src/Economy/Bank.antt =====
-- crates/graphite-economy/src/bank.rs: deposits and withdrawals, each in one database transaction.
-- A row lock (`FOR UPDATE`) is the atomicity of a call here; the database's own failures are left
-- out. A call that returns an error is rolled back.
pub mod Operations
pub mod Lots
pub mod Updates
pub mod LotLaws
pub mod Fifo
pub mod Invariant
pub mod Replay
pub mod Calls
pub mod Idempotency
pub mod Soundness
pub mod Money
pub mod WithdrawalMoney
pub mod Steps
pub mod WithdrawalSteps
use graphite_bot.Common.{ℕ, List, map, Result, ok, err, ◌>>=◌, ◌>>◌, fail_if}
use graphite_bot.Common.Int.{ℤ, pos, ltb_ℤ, leb_ℤ}
use graphite_bot.Common.Values.{Uuid, Text, Digest, Timestamp}
use graphite_bot.Economy.Errors.{
  BankError, invalid_amount, below_minimum_withdrawal, insufficient_wallet, insufficient_bank,
  invalid_fee,
}
use graphite_bot.Economy.Tables.{
  BankMutationKind, deposit_kind, withdraw_kind, BankMutationReceipt, PlayerRow, Db, Draws,
}
use graphite_bot.Economy.Fees.{bank_min_withdrawal, withdrawal_fee}
use Operations.{
  OperationResolution, resolved_committed, resolved_pending, resolve_operation, commit_operation,
}
use Lots.{LotDebit, load_fifo_lot_debits, apply_lot_debits}
use Updates.{
  snowflake_to_i64, checked_add, checked_sub, lock_player, ensure_mutable, update_balances,
  create_bank_lot, rolling_24h_gross, insert_withdrawal_audit, insert_ledger, insert_outbox,
  fee_lot,
}

unfoldable pub validate_deposit_amount : ℤ → Result BankError (Unit {0})
validate_deposit_amount amount = fail_if (leb_ℤ amount (pos 0)) invalid_amount

unfoldable pub validate_withdraw_amount : ℤ → Result BankError (Unit {0})
unfolding validate_deposit_amount
validate_withdraw_amount amount = do
  validate_deposit_amount amount
  fail_if (ltb_ℤ amount bank_min_withdrawal) below_minimum_withdrawal

abbrev pub receipt_of : Uuid → BankMutationKind → ℤ → ℤ → ℤ → ℤ → ℤ → BankMutationReceipt
receipt_of operation kind gross fee net wallet bank = record {
  operation_id = operation;
  kind = kind;
  gross_amount = gross;
  fee_amount = fee;
  net_amount = net;
  wallet = wallet;
  bank = bank;
}

-- The end of both calls: the operation is committed and its event queued.
unfoldable pub finish :
    Draws → Uuid → BankMutationReceipt → Db → Result BankError (BankMutationReceipt × Db)
finish draws player receipt db = do
  settled ← commit_operation player receipt db
  ok (receipt, insert_outbox draws receipt settled)

-- What a deposit does once its operation is pending.
unfoldable pub settle_deposit :
    Draws → ℤ → ℤ → Uuid → Db → Result BankError (BankMutationReceipt × Db)
settle_deposit draws user amount operation db = do
  player ← lock_player user db
  ensure_mutable player.status
  fail_if (ltb_ℤ player.wallet amount) (insufficient_wallet player.wallet amount)
  wallet ← checked_sub player.wallet amount
  bank ← checked_add player.bank amount
  let moved = update_balances player.id wallet bank db
  let funded = create_bank_lot draws player.id operation amount moved
  posted ← insert_ledger draws operation player.id deposit_kind amount (pos 0) funded
  finish draws player.id (receipt_of operation deposit_kind amount (pos 0) amount wallet bank)
      posted

-- An operation that is already committed answers with its receipt.
unfoldable pub resume :
    (Uuid → Db → Result BankError (BankMutationReceipt × Db))
    → OperationResolution × Db
    → Result BankError (BankMutationReceipt × Db)
resume settle (resolved_committed receipt, db) = ok (receipt, db)
resume settle (resolved_pending operation, db) = settle operation db

-- A failed call leaves the database as it was.
abbrev pub transact :
    Result BankError (BankMutationReceipt × Db) → Db → Result BankError BankMutationReceipt × Db
transact (ok (receipt, db')) db = (ok receipt, db')
transact (err e) db = (err e, db)

-- `bank_request_hash kind amount` is the BLAKE3 digest of the request.
module _ (bank_request_hash : BankMutationKind → ℤ → Digest) where
  unfoldable pub deposit_tx :
      Draws → ℕ → ℤ → Text → Db → Result BankError (BankMutationReceipt × Db)
  unfolding settle_deposit resume validate_deposit_amount
  deposit_tx draws snowflake amount key db = do
    validate_deposit_amount amount
    user ← snowflake_to_i64 snowflake
    resolution ←
        resolve_operation draws user key deposit_kind (bank_request_hash deposit_kind amount) db
    resume (settle_deposit draws user amount) resolution

  unfoldable pub deposit : Draws → ℕ → ℤ → Text → Db → Result BankError BankMutationReceipt × Db
  unfolding deposit_tx
  deposit draws snowflake amount key db = transact (deposit_tx draws snowflake amount key db) db

-- `seconds_since` is the whole seconds between two instants, by chrono.
module _ (seconds_since : Timestamp → Timestamp → ℤ) where
  unfoldable pub settle_withdrawal :
      Draws → ℤ → ℤ → Uuid → Db → Result BankError (BankMutationReceipt × Db)
  settle_withdrawal draws user amount operation db = do
    player ← lock_player user db
    ensure_mutable player.status
    fail_if (ltb_ℤ player.bank amount) (insufficient_bank player.bank amount)
    debits ← load_fifo_lot_debits player.id amount db.lots
    prior ← rolling_24h_gross player.id draws.now db
    fee ← withdrawal_fee seconds_since amount player.bank prior (map fee_lot debits) draws.now
    net ← checked_sub amount fee
    fail_if (leb_ℤ net (pos 0)) invalid_fee
    lots ← apply_lot_debits debits db.lots
    bank ← checked_sub player.bank amount
    wallet ← checked_add player.wallet net
    let moved = update_balances player.id wallet bank (record db { lots = lots })
    let audited = insert_withdrawal_audit draws operation player.id amount fee moved
    posted ← insert_ledger draws operation player.id withdraw_kind amount fee audited
    finish draws player.id (receipt_of operation withdraw_kind amount fee net wallet bank) posted

module _ (bank_request_hash : BankMutationKind → ℤ → Digest)
    (seconds_since : Timestamp → Timestamp → ℤ) where
  unfoldable pub withdraw_tx :
      Draws → ℕ → ℤ → Text → Db → Result BankError (BankMutationReceipt × Db)
  unfolding settle_withdrawal resume validate_withdraw_amount
  withdraw_tx draws snowflake amount key db = do
    validate_withdraw_amount amount
    user ← snowflake_to_i64 snowflake
    resolution ←
        resolve_operation draws user key withdraw_kind (bank_request_hash withdraw_kind amount) db
    resume (settle_withdrawal seconds_since draws user amount) resolution

  unfoldable pub withdraw : Draws → ℕ → ℤ → Text → Db → Result BankError BankMutationReceipt × Db
  unfolding withdraw_tx
  withdraw draws snowflake amount key db = transact (withdraw_tx draws snowflake amount key db) db
