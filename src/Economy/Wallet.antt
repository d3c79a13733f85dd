-- ===== src/Economy/Wallet.antt =====
-- crates/graphite-economy/src/wallet.rs: spending from the Wallet inside a transaction of its
-- caller. `serde_json::Value` is a number that is only compared; whether a value is a non-empty
-- object, and whether a text is blank, are parameters.
pub mod Tables
pub mod Spent
pub mod Again
use graphite_bot.Common.{
  ℕ, suc, Bool, not, ◌&&◌, ◌||◌, Option, none, some, List, [], ◌∷◌, Result, ok, err, ◌>>=◌, ◌>>◌,
  ok_or, fail_if, if◌then◌else◌, ◌==◌, leb, true, false,
}
use graphite_bot.Common.Int.{ℤ, pos, neg, ◌-ℤ◌, ltb_ℤ, leb_ℤ, eqb_ℤ, to_i64}
use graphite_bot.Common.Values.{
  Uuid, Text, PlayerStatus, OperationState, AccountKind, wallet_account, system_account, is_active,
  is_deleted, is_pending,
}
use graphite_bot.Economy.Tables.{PlayerRow, PostingRow}
use graphite_bot.Economy.Bank.Updates.{posting}
use Tables.{
  JsonValue, InvalidSpend, WalletSpendError, LockedWalletSpendContext, WalletSpendRequest,
  WalletSpendReceipt, WalletSpendLedgerProvenance, LedgerKind, StoredProvenance, OwningOperation,
  LedgerTransaction, WalletDb, invalid_payload, unreconciled_receipt, posting_count, wallet_posting,
  sink_posting, invalid_amount, invalid_source, invalid_provenance, player_not_found,
  account_frozen, operation_not_found, operation_player_mismatch, operation_terminal,
  insufficient_wallet, mutation_conflict, invalid_stored_spend, arithmetic_overflow, wallet_spend,
  other_kind, spend_provenance, other_provenance,
}

abbrev is_wallet_spend : LedgerKind → Bool
is_wallet_spend wallet_spend = true
is_wallet_spend (other_kind _) = false

abbrev same_player : Option Uuid → Uuid → Bool
same_player none player = false
same_player (some stored) player = stored == player

abbrev is_none : Option Uuid → Bool
is_none none = true
is_none (some _) = false

abbrev is_wallet_account : AccountKind → Bool
is_wallet_account wallet_account = true
is_wallet_account _ = false

abbrev is_system_account : AccountKind → Bool
is_system_account system_account = true
is_system_account _ = false

unfoldable pub find_operation : Uuid → List OwningOperation → Option OwningOperation
find_operation id [] = none
find_operation id (row ∷ rows) = if row.id == id then some row else find_operation id rows

abbrev pub lock_wallet_operation : Uuid → WalletDb → Result WalletSpendError OwningOperation
lock_wallet_operation id db = ok_or (find_operation id db.operations) operation_not_found

-- An operation without a player belongs to anybody.
unfoldable pub ensure_operation_player : Option Uuid → Uuid → Result WalletSpendError (Unit {0})
ensure_operation_player none player = ok tt
ensure_operation_player (some stored) player =
    fail_if (not (stored == player)) operation_player_mismatch

unfoldable pub lock_existing_ledger : Uuid → List LedgerTransaction → Option LedgerTransaction
lock_existing_ledger operation [] = none
lock_existing_ledger operation (row ∷ rows) =
    if row.operation_id == operation then some row else lock_existing_ledger operation rows

unfoldable pub find_account : Uuid → List PlayerRow → Option PlayerRow
find_account id [] = none
find_account id (row ∷ rows) =
    if (row.id == id) && not (is_deleted row.status) then some row else find_account id rows

unfoldable pub lock_active_wallet_balance : Uuid → List PlayerRow → Result WalletSpendError ℤ
unfolding find_account
lock_active_wallet_balance player rows = do
  row ← ok_or (find_account player rows) player_not_found
  fail_if (not (is_active row.status)) (account_frozen row.status)
  ok row.wallet

unfoldable pub lock_new_wallet_spend_context :
    Uuid → Uuid → WalletDb → Result WalletSpendError LockedWalletSpendContext
unfolding find_operation ensure_operation_player lock_existing_ledger lock_active_wallet_balance
lock_new_wallet_spend_context operation_id player_id db = do
  operation ← lock_wallet_operation operation_id db
  ensure_operation_player operation.player_id player_id
  fail_if (not (is_pending operation.state)) (operation_terminal operation.state)
  elim (lock_existing_ledger operation_id db.ledger) [
    | some _ ↦ err mutation_conflict
    | none ↦ do
      wallet ← lock_active_wallet_balance player_id db.players
      ok (record { operation_id = operation_id; player_id = player_id; wallet = wallet })
  ]

-- The postings of a transaction, `ORDER BY sequence ASC`.
unfoldable pub insert_by_sequence : PostingRow → List PostingRow → List PostingRow
insert_by_sequence row [] = row ∷ []
insert_by_sequence row (x ∷ xs) =
    if leb row.sequence x.sequence then row ∷ x ∷ xs else x ∷ insert_by_sequence row xs

unfoldable pub select_postings : Uuid → List PostingRow → List PostingRow
unfolding insert_by_sequence
select_postings transaction [] = []
select_postings transaction (row ∷ rows) =
    let rest = select_postings transaction rows in
    if row.transaction_id == transaction then insert_by_sequence row rest else rest

abbrev pub is_debit : WalletSpendReceipt → PostingRow → Bool
is_debit receipt row =
    (row.sequence == 0)
    && same_player row.player_id receipt.player_id
    && is_wallet_account row.account_kind
    && eqb_ℤ row.amount (neg receipt.amount)

abbrev pub is_sink : WalletSpendReceipt → PostingRow → Bool
is_sink receipt row =
    (row.sequence == 1)
    && is_none row.player_id
    && is_system_account row.account_kind
    && eqb_ℤ row.amount receipt.amount

unfoldable pub check_postings :
    WalletSpendReceipt → List PostingRow → Result WalletSpendError (Unit {0})
check_postings receipt (debit ∷ sink ∷ []) = do
  fail_if (not (is_debit receipt debit)) (invalid_stored_spend wallet_posting)
  fail_if (not (is_sink receipt sink)) (invalid_stored_spend sink_posting)
check_postings receipt _ = err (invalid_stored_spend posting_count)

unfoldable pub validate_postings :
    WalletSpendReceipt → List PostingRow → Result WalletSpendError (Unit {0})
unfolding select_postings check_postings
validate_postings receipt rows =
    check_postings receipt (select_postings receipt.ledger_transaction_id rows)

-- Policy version 1, and the same spend.
abbrev pub matches_request : Uuid → WalletSpendLedgerProvenance → WalletSpendRequest → Bool
matches_request transaction stored request =
    (stored.wallet_spend_policy_version == 1)
    && (transaction == stored.receipt.ledger_transaction_id)
    && (stored.receipt.operation_id == request.operation_id)
    && (stored.receipt.player_id == request.player_id)
    && eqb_ℤ stored.receipt.amount request.amount
    && (stored.receipt.source == request.source)
    && (stored.source == request.source)
    && (stored.request_provenance == request.provenance)

-- `wallet_before < amount || wallet_after != wallet_before.checked_sub(amount)?`.
unfoldable pub reconcile_receipt : WalletSpendReceipt → Result WalletSpendError (Unit {0})
reconcile_receipt receipt = do
  fail_if (ltb_ℤ receipt.wallet_before receipt.amount) (invalid_stored_spend unreconciled_receipt)
  expected ← ok_or (to_i64 (receipt.wallet_before -ℤ receipt.amount)) arithmetic_overflow
  fail_if (not (eqb_ℤ receipt.wallet_after expected)) (invalid_stored_spend unreconciled_receipt)

unfoldable pub replay_stored :
    Uuid
    → StoredProvenance
    → WalletSpendRequest
    → List PostingRow
    → Result WalletSpendError WalletSpendReceipt
unfolding reconcile_receipt validate_postings
replay_stored transaction (other_provenance _) request postings =
    err (invalid_stored_spend invalid_payload)
replay_stored transaction (spend_provenance stored) request postings = do
  fail_if (not (matches_request transaction stored request)) mutation_conflict
  reconcile_receipt stored.receipt
  validate_postings stored.receipt postings
  ok stored.receipt

unfoldable pub replay_wallet_spend :
    LedgerTransaction
    → WalletSpendRequest
    → List PostingRow
    → Result WalletSpendError WalletSpendReceipt
unfolding replay_stored
replay_wallet_spend row request postings = do
  fail_if (not (is_wallet_spend row.kind)) mutation_conflict
  replay_stored row.id row.provenance request postings

-- `UPDATE player_balances SET wallet = $1 WHERE player_id = $2`.
unfoldable pub set_wallet : Uuid → ℤ → List PlayerRow → List PlayerRow
set_wallet player wallet [] = []
set_wallet player wallet (row ∷ rows) =
    (if row.id == player then record row { wallet = wallet } else row)
    ∷ set_wallet player wallet rows

unfoldable pub has_account : Uuid → List PlayerRow → Bool
has_account player [] = false
has_account player (row ∷ rows) = if row.id == player then true else has_account player rows

abbrev pub receipt_of : Uuid → WalletSpendRequest → ℤ → ℤ → WalletSpendReceipt
receipt_of transaction request before after = record {
  ledger_transaction_id = transaction;
  operation_id = request.operation_id;
  player_id = request.player_id;
  amount = request.amount;
  source = request.source;
  wallet_before = before;
  wallet_after = after;
}

abbrev pub ledger_transaction : WalletSpendRequest → WalletSpendReceipt → LedgerTransaction
ledger_transaction request receipt = record {
  id = receipt.ledger_transaction_id;
  operation_id = request.operation_id;
  kind = wallet_spend;
  provenance = spend_provenance (record {
    wallet_spend_policy_version = 1;
    source = request.source;
    request_provenance = request.provenance;
    receipt = receipt;
  });
}

abbrev pub spend_postings : WalletSpendRequest → Uuid → List PostingRow → List PostingRow
spend_postings request transaction rows =
    posting transaction 0 (some request.player_id) wallet_account (neg request.amount)
    ∷ posting transaction 1 none system_account request.amount
    ∷ rows

abbrev pub insert_spend :
    WalletSpendRequest → WalletSpendReceipt → List PlayerRow → WalletDb → WalletDb
insert_spend request receipt players db = record db {
  players = players;
  ledger = ledger_transaction request receipt ∷ db.ledger;
  postings = spend_postings request receipt.ledger_transaction_id db.postings;
}

-- A new spend, once the operation is known to be pending; `transaction` is the drawn id.
unfoldable pub settle_spend :
    Uuid → WalletSpendRequest → WalletDb → Result WalletSpendError (WalletSpendReceipt × WalletDb)
unfolding lock_active_wallet_balance set_wallet has_account
settle_spend transaction request db = do
  before ← lock_active_wallet_balance request.player_id db.players
  fail_if (ltb_ℤ before request.amount) (insufficient_wallet before request.amount)
  after ← ok_or (to_i64 (before -ℤ request.amount)) arithmetic_overflow
  fail_if (not (has_account request.player_id db.players)) player_not_found
  let players = set_wallet request.player_id after db.players
  let receipt = receipt_of transaction request before after
  ok (receipt, insert_spend request receipt players db)

-- `is_blank` is `source.trim().is_empty()`; `is_filled_object` says that a value is an object with
-- a field.
module _ (is_blank : Text → Bool) (is_filled_object : JsonValue → Bool) where
  unfoldable pub validate_request : WalletSpendRequest → Result WalletSpendError (Unit {0})
  validate_request request = do
    fail_if (leb_ℤ request.amount (pos 0)) invalid_amount
    fail_if (is_blank request.source) invalid_source
    fail_if (not (is_filled_object request.provenance)) invalid_provenance

  unfoldable pub apply_wallet_spend :
      Uuid → WalletSpendRequest → WalletDb → Result WalletSpendError (WalletSpendReceipt × WalletDb)
  unfolding validate_request find_operation ensure_operation_player lock_existing_ledger
      replay_wallet_spend settle_spend
  apply_wallet_spend transaction request db = do
    validate_request request
    operation ← lock_wallet_operation request.operation_id db
    ensure_operation_player operation.player_id request.player_id
    elim (lock_existing_ledger request.operation_id db.ledger) [
      | some row ↦ do receipt ← replay_wallet_spend row request db.postings; ok (receipt, db)
      | none ↦ do
        fail_if (not (is_pending operation.state)) (operation_terminal operation.state)
        settle_spend transaction request db
    ]
