-- ===== src/Economy/Bank/Idempotency.antt =====
-- A deposit or withdrawal repeated with the same key.
use graphite_bot.Common.{ℕ, ◌≡◌, false, some, ok, err, arith, inl, inr, Result-cases}
use graphite_bot.Common.Int.{ℤ, pos, leb_ℤ, ltb_ℤ, to_i64}
use graphite_bot.Common.Values.{Text, Digest, Timestamp}
use graphite_bot.Economy.Errors.{BankError}
use graphite_bot.Economy.Tables.{
  BankMutationKind, deposit_kind, withdraw_kind, BankMutationReceipt, Db, Draws,
}
use graphite_bot.Economy.Bank.{
  resume, settle_deposit, settle_withdrawal, deposit_tx, deposit, withdraw_tx, withdraw,
}
use graphite_bot.Economy.Bank.Operations.{
  OperationResolution, resolved_committed, resolve_operation,
}
use graphite_bot.Economy.Bank.Replay.{has_operation, DistinctOperations}
use graphite_bot.Economy.Bank.Calls.{
  Settle, settle_deposit-Commits, settle_withdrawal-Commits, resolve_again,
}

-- What a transaction that returned `Ok` went through.
pub record Called (valid : ℤ → Type 0) (settle : ℤ → Settle) (draws : Draws) (snowflake : ℕ)
    (amount : ℤ) (key : Text) (kind : BankMutationKind) (hash : Digest) (db : Db)
    (out : BankMutationReceipt × Db) : Type 0 where
  pub amount_valid : valid amount
  pub fits : to_i64 (pos snowflake) ≡ some (pos snowflake)
  pub resolution : OperationResolution
  pub claimed : Db
  pub resolved : resolve_operation draws (pos snowflake) key kind hash db ≡ ok (resolution, claimed)
  pub resumed : resume (settle (pos snowflake)) (resolution, claimed) ≡ ok out

module _ (bank_request_hash : BankMutationKind → ℤ → Digest) (draws : Draws) (snowflake : ℕ)
    (amount : ℤ) (key : Text) (db : Db) where
  abbrev pub DepositCalled : BankMutationReceipt × Db → Type 0
  DepositCalled =
      Called (λ a. leb_ℤ a (pos 0) ≡ false) (λ user. settle_deposit draws user amount) draws
        snowflake amount key deposit_kind (bank_request_hash deposit_kind amount) db

  deposit_unresolved :
      (e : BankError) {out : BankMutationReceipt × Db}
      → resolve_operation draws
          (pos snowflake)
          key
          deposit_kind
          (bank_request_hash deposit_kind amount)
          db
        ≡ err e
      → deposit_tx bank_request_hash draws snowflake amount key db ≡ ok out
      → ⊥
  unfolding deposit_tx
  deposit_unresolved e r h = ground arith

  pub deposit_tx_inv :
      {out : BankMutationReceipt × Db}
      → deposit_tx bank_request_hash draws snowflake amount key db ≡ ok out
      → DepositCalled out
  unfolding deposit_tx
  deposit_tx_inv h =
      elim (Result-cases (
        resolve_operation draws (pos snowflake) key deposit_kind
          (bank_request_hash deposit_kind amount) db)) [
            | inr (e, bad) ↦ absurd (deposit_unresolved e bad h)
            | inl ((resolution, claimed), found) ↦ record {
              amount_valid = ground arith;
              fits = ground arith;
              resolution = resolution;
              claimed = claimed;
              resolved = found;
              resumed = ground arith;
            }
          ]

  pub deposit-eq-ok :
      (receipt : BankMutationReceipt) (db' : Db)
      → deposit bank_request_hash draws snowflake amount key db ≡ (ok receipt, db')
      → deposit_tx bank_request_hash draws snowflake amount key db ≡ ok (receipt, db')
  unfolding deposit
  deposit-eq-ok receipt db' h =
      elim (Result-cases (deposit_tx bank_request_hash draws snowflake amount key db)) [
        | inl ((r, d), e) ↦ ground arith
        | inr (b, e) ↦ ground arith
      ]

  deposit_replayed :
      (draws' : Draws) {out : BankMutationReceipt × Db}
      → DepositCalled out
      → resolve_operation draws'
          (pos snowflake)
          key
          deposit_kind
          (bank_request_hash deposit_kind amount)
          out.1
        ≡ ok (resolved_committed out.0, out.1)
      → deposit bank_request_hash draws' snowflake amount key out.1 ≡ (ok out.0, out.1)
  unfolding deposit
  deposit_replayed draws' c r = ground (arith, c.amount_valid, c.fits)

  -- A deposit that went through answers a repetition of the same request, whatever ids and time
  -- that draws, with the same receipt, and changes nothing; the operation ids stored before must
  -- be distinct and the first call's id new.
  pub deposit_idempotent :
      (draws' : Draws) (receipt : BankMutationReceipt) (db' : Db)
      → DistinctOperations db.operations
      → has_operation draws.operation_id db.operations ≡ false
      → deposit bank_request_hash draws snowflake amount key db ≡ (ok receipt, db')
      → deposit bank_request_hash draws' snowflake amount key db' ≡ (ok receipt, db')
  deposit_idempotent draws' receipt db' d fresh h =
      let c = deposit_tx_inv (deposit-eq-ok receipt db' h) in
      deposit_replayed draws' c (
        resolve_again (settle_deposit draws (pos snowflake) amount)
          (settle_deposit-Commits draws (pos snowflake) amount) draws draws' (pos snowflake) key
          deposit_kind (bank_request_hash deposit_kind amount) db d fresh c.resolution c.claimed
          (receipt, db') c.resolved c.resumed)

module _ (bank_request_hash : BankMutationKind → ℤ → Digest)
    (seconds_since : Timestamp → Timestamp → ℤ) (draws : Draws) (snowflake : ℕ) (amount : ℤ)
    (key : Text) (db : Db) where
  abbrev pub WithdrawalCalled : BankMutationReceipt × Db → Type 0
  WithdrawalCalled =
      Called (λ a. ltb_ℤ a (pos 500) ≡ false)
        (λ user. settle_withdrawal seconds_since draws user amount) draws snowflake amount key
        withdraw_kind (bank_request_hash withdraw_kind amount) db

  withdraw_unresolved :
      (e : BankError) {out : BankMutationReceipt × Db}
      → resolve_operation draws
          (pos snowflake)
          key
          withdraw_kind
          (bank_request_hash withdraw_kind amount)
          db
        ≡ err e
      → withdraw_tx bank_request_hash seconds_since draws snowflake amount key db ≡ ok out
      → ⊥
  unfolding withdraw_tx
  withdraw_unresolved e r h = ground arith

  pub withdraw_tx_inv :
      {out : BankMutationReceipt × Db}
      → withdraw_tx bank_request_hash seconds_since draws snowflake amount key db ≡ ok out
      → WithdrawalCalled out
  unfolding withdraw_tx
  withdraw_tx_inv h =
      elim (Result-cases (
        resolve_operation draws (pos snowflake) key withdraw_kind
          (bank_request_hash withdraw_kind amount) db)) [
            | inr (e, bad) ↦ absurd (withdraw_unresolved e bad h)
            | inl ((resolution, claimed), found) ↦ record {
              amount_valid = ground arith;
              fits = ground arith;
              resolution = resolution;
              claimed = claimed;
              resolved = found;
              resumed = ground arith;
            }
          ]

  pub withdraw-eq-ok :
      (receipt : BankMutationReceipt) (db' : Db)
      → withdraw bank_request_hash seconds_since draws snowflake amount key db ≡ (ok receipt, db')
      → withdraw_tx bank_request_hash seconds_since draws snowflake amount key db
        ≡ ok (receipt, db')
  unfolding withdraw
  withdraw-eq-ok receipt db' h =
      elim (Result-cases
        (withdraw_tx bank_request_hash seconds_since draws snowflake amount key db)) [
          | inl ((r, d), e) ↦ ground arith
          | inr (b, e) ↦ ground arith
        ]

  withdraw_replayed :
      (draws' : Draws) {out : BankMutationReceipt × Db}
      → WithdrawalCalled out
      → resolve_operation draws'
          (pos snowflake)
          key
          withdraw_kind
          (bank_request_hash withdraw_kind amount)
          out.1
        ≡ ok (resolved_committed out.0, out.1)
      → withdraw bank_request_hash seconds_since draws' snowflake amount key out.1
        ≡ (ok out.0, out.1)
  unfolding withdraw
  withdraw_replayed draws' c r = ground (arith, c.amount_valid, c.fits)

  -- A withdrawal that went through answers a repetition of the same request, whatever ids and
  -- time that draws, with the same receipt, and changes nothing; the operation ids stored before
  -- must be distinct and the first call's id new.
  pub withdraw_idempotent :
      (draws' : Draws) (receipt : BankMutationReceipt) (db' : Db)
      → DistinctOperations db.operations
      → has_operation draws.operation_id db.operations ≡ false
      → withdraw bank_request_hash seconds_since draws snowflake amount key db ≡ (ok receipt, db')
      → withdraw bank_request_hash seconds_since draws' snowflake amount key db' ≡ (ok receipt, db')
  withdraw_idempotent draws' receipt db' d fresh h =
      let c = withdraw_tx_inv (withdraw-eq-ok receipt db' h) in
      withdraw_replayed draws' c (
        resolve_again (settle_withdrawal seconds_since draws (pos snowflake) amount)
          (settle_withdrawal-Commits seconds_since draws (pos snowflake) amount) draws draws'
          (pos snowflake) key withdraw_kind (bank_request_hash withdraw_kind amount) db d fresh
          c.resolution c.claimed (receipt, db') c.resolved c.resumed)
