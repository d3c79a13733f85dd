-- ===== src/Economy/Tests/Bank.antt =====
-- A player with 5,000 in the Wallet and 1,500 in two Bank lots.
use graphite_bot.Common.{ℕ, ◌≡◌, refl, false, none, [], ◌∷◌, Result, ok, err, arith, ◌/◌}
use graphite_bot.Common.Int.{ℤ, pos, neg, ◌+ℤ◌, ◌-ℤ◌, ◌*ℤ◌, ◌/ℤ◌, sub_ℕ}
use graphite_bot.Common.Values.{Timestamp, active, Digest}
use graphite_bot.Economy.Errors.{BankError, insufficient_wallet, idempotency_conflict}
use graphite_bot.Economy.Tables.{
  BankMutationKind, deposit_kind, withdraw_kind, BankMutationReceipt, PlayerRow, LotRow,
  OperationRow, Db, Draws,
}
use graphite_bot.Economy.Fees.{
  age_fee_ppm, balance_surcharge_ppm, segment_step, segment_loop, tail_step,
  rolling_marginal_numerator, ceil_ppm, age_numerator, withdrawal_fee,
}
use graphite_bot.Economy.Bank.{
  receipt_of, deposit, withdraw, settle_deposit, settle_withdrawal, finish,
}
use graphite_bot.Economy.Bank.Operations
use graphite_bot.Economy.Bank.Operations.{
  select_operation, validate_operation_row, resolve_operation, commit_rows, commit_operation,
}
use graphite_bot.Economy.Bank.Lots.{load_fifo_lot_debits, apply_lot_debits, debit_lot}
use graphite_bot.Economy.Bank.Updates.{
  find_player, set_balances, sum_recent, ledger_lines, insert_ledger, has_event,
}
use graphite_bot.Economy.Bank.LotLaws.{owner, lot_total}
use graphite_bot.Economy.Bank.Invariant.{IsSound}
use graphite_bot.Economy.Bank.Replay.{has_operation}
use graphite_bot.Economy.Bank.Idempotency.{deposit_idempotent, withdraw_idempotent}
use graphite_bot.Economy.Bank.Soundness.{deposit-IsSound, withdraw-IsSound}
use graphite_bot.Economy.Bank.Money.{Moved, settle_deposit-Moved}
use graphite_bot.Economy.Bank.WithdrawalMoney.{settle_withdrawal-Moved}

abbrev request_hash : BankMutationKind → ℤ → Digest
request_hash kind amount = 11

-- Whole seconds between two instants in microseconds.
abbrev whole_seconds : Timestamp → Timestamp → ℤ
whole_seconds now t = sub_ℕ (now / 1_000_000) (t / 1_000_000)

abbrev lot : ℕ → ℕ → ℕ → LotRow
lot id principal at = record {
  id = id;
  player_id = 3;
  principal_remaining = pos principal;
  deposited_at = at;
  created_by_operation_id = 0;
}

abbrev player : PlayerRow
player = record {
  id = 3;
  discord_user_id = pos 7;
  status = active;
  wallet = pos 5_000;
  bank = pos 1_500;
  liability = pos 0;
}

abbrev db : Db
db = record {
  operations = [];
  players = player ∷ [];
  lots = lot 1 500 86_400_000_000 ∷ lot 2 1_000 0 ∷ [];
  withdrawals = [];
  ledger = [];
  postings = [];
  outbox = [];
}

abbrev draws : Draws
draws = record {
  operation_id = 21;
  rng_root = 22;
  lot_id = 23;
  transaction_id = 24;
  outbox_id = 25;
  now = 172_800_000_000;
}

abbrev later : Draws
later = record draws { operation_id = 31; lot_id = 33; now = 259_200_000_000 }

abbrev deposited : Result BankError BankMutationReceipt × Db
deposited = deposit request_hash draws 7 (pos 100) 9 db

-- 1,200 takes the whole older lot and 200 of the younger one, at 0.5% of each: both are a day old
-- or more.
abbrev withdrawn : Result BankError BankMutationReceipt × Db
withdrawn = withdraw request_hash whole_seconds draws 7 (pos 1_200) 9 db

abbrev after : Result BankError (BankMutationReceipt × Db) → Db
after (ok (r, d)) = d
after (err e) = db

-- What a run computes through.
every_step : Unit {0}
unfolding deposit withdraw find_player set_balances sum_recent ledger_lines insert_ledger has_event
    finish load_fifo_lot_debits apply_lot_debits debit_lot resolve_operation select_operation
    validate_operation_row commit_operation commit_rows withdrawal_fee age_numerator age_fee_ppm
    balance_surcharge_ppm rolling_marginal_numerator segment_loop segment_step tail_step ceil_ppm
    ◌+ℤ◌ ◌-ℤ◌ ◌*ℤ◌ ◌/ℤ◌ has_operation owner lot_total
every_step = tt

abbrev receipt : BankMutationReceipt
receipt = receipt_of 21 withdraw_kind (pos 1_200) (pos 6) (pos 1_194) (pos 6_194) (pos 300)

withdrawn_receipt : withdrawn.0 ≡ ok receipt
unfolding every_step
withdrawn_receipt = refl

withdrawn_lots : withdrawn.1.lots ≡ lot 1 300 86_400_000_000 ∷ lot 2 0 0 ∷ []
unfolding every_step
withdrawn_lots = refl

overdrawn :
    (deposit request_hash draws 7 (pos 5_001) 9 db).0
    ≡ err (insufficient_wallet (pos 5_000) (pos 5_001))
unfolding every_step
overdrawn = refl

-- The key of the withdrawal cannot be used for a deposit.
reused : (deposit request_hash later 7 (pos 100) 9 withdrawn.1).0 ≡ err idempotency_conflict
unfolding every_step
reused = refl

db-IsSound : IsSound db.lots db.players
unfolding every_step
db-IsSound = record {
  distinct = (refl, (refl, tt));
  funded = omega arith;
  backed = ((omega arith, refl), tt);
}

new_lot : owner draws.lot_id db.lots ≡ none
unfolding every_step
new_lot = refl

new_operation : has_operation draws.operation_id db.operations ≡ false
unfolding every_step
new_operation = refl

deposit-IsSound_example : IsSound deposited.1.lots deposited.1.players
deposit-IsSound_example = deposit-IsSound request_hash draws 7 (pos 100) 9 db db-IsSound new_lot

withdraw-IsSound_example : IsSound withdrawn.1.lots withdrawn.1.players
withdraw-IsSound_example =
    withdraw-IsSound request_hash draws 7 (pos 1_200) 9 db db-IsSound whole_seconds

deposit_result : deposited ≡ (
  ok (receipt_of 21 deposit_kind (pos 100) (pos 0) (pos 100) (pos 4_900) (pos 1_600)),
  deposited.1,
)
unfolding every_step
deposit_result = refl

deposit_idempotent_example : deposit request_hash later 7 (pos 100) 9 deposited.1 ≡ (
  ok (receipt_of 21 deposit_kind (pos 100) (pos 0) (pos 100) (pos 4_900) (pos 1_600)),
  deposited.1,
)
deposit_idempotent_example =
    deposit_idempotent request_hash draws 7 (pos 100) 9 db later _ deposited.1 tt new_operation
      deposit_result

withdraw_result : withdrawn ≡ (ok receipt, withdrawn.1)
unfolding every_step
withdraw_result = refl

withdraw_idempotent_example :
    withdraw request_hash whole_seconds later 7 (pos 1_200) 9 withdrawn.1
    ≡ (ok receipt, withdrawn.1)
withdraw_idempotent_example =
    withdraw_idempotent request_hash whole_seconds draws 7 (pos 1_200) 9 db later receipt
      withdrawn.1 tt new_operation withdraw_result

abbrev settled_db : Db
settled_db = record db { operations = op ∷ [] }
  where
    op : OperationRow
    op = Operations.new_operation draws (pos 7) 9 withdraw_kind 11

abbrev settled : Result BankError (BankMutationReceipt × Db)
settled = settle_withdrawal whole_seconds draws (pos 7) (pos 1_200) 21 settled_db

settled_ok : settled ≡ ok (receipt, after settled)
unfolding every_step settle_withdrawal
settled_ok = refl

settle_withdrawal-Moved_example :
    (before after' : PlayerRow) × Moved
      (pos 7)
      settled_db
      (after settled)
      before
      after'
      (neg (pos 1_200))
      (pos 6)
settle_withdrawal-Moved_example =
    settle_withdrawal-Moved whole_seconds draws (pos 7) (pos 1_200) 21 settled_db settled_ok
      (omega arith)

settled_deposit_ok :
    settle_deposit draws (pos 7) (pos 100) 21 settled_db
    ≡ ok (
      receipt_of 21 deposit_kind (pos 100) (pos 0) (pos 100) (pos 4_900) (pos 1_600),
      after (settle_deposit draws (pos 7) (pos 100) 21 settled_db),
    )
unfolding every_step settle_deposit
settled_deposit_ok = refl

settle_deposit-Moved_example :
    (before after' : PlayerRow) × Moved
      (pos 7)
      settled_db
      (after (settle_deposit draws (pos 7) (pos 100) 21 settled_db))
      before
      after'
      (pos 100)
      (pos 0)
settle_deposit-Moved_example =
    settle_deposit-Moved draws (pos 7) (pos 100) 21 settled_db settled_deposit_ok
