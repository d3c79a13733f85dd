-- ===== src/Economy/Bank/Replay.antt =====
-- Idempotency: repeating a call that went through.
use graphite_bot.Common.{
  ◌≡◌, true, false, Bool, none, some, List, [], ◌∷◌, ok, ◌==◌, ◌||◌, arith, inl, inr, Option-cases,
}
use graphite_bot.Common.Int.{ℤ}
use graphite_bot.Common.Values.{Uuid, Text, Digest, is_pending}
use graphite_bot.Economy.Tables.{BankMutationKind, BankMutationReceipt, OperationRow, Db, Draws}
use graphite_bot.Economy.Bank.Operations.{
  OperationResolution, resolved_pending, resolved_committed, select_operation,
  validate_operation_row, new_operation, resolve_operation, committed_row, commit_rows,
}

unfoldable pub has_operation : Uuid → List OperationRow → Bool
has_operation id [] = false
has_operation id (row ∷ rows) = (row.id == id) || has_operation id rows

-- An operation id is a primary key.
abbrev pub DistinctOperations : List OperationRow → Type 0
DistinctOperations [] = Unit
DistinctOperations (row ∷ rows) = (has_operation row.id rows ≡ false) × DistinctOperations rows

has_operation-select :
    (key : Text) (rows : List OperationRow) {row : OperationRow}
    → select_operation key rows ≡ some row
    → has_operation row.id rows ≡ true
unfolding has_operation select_operation
has_operation-select key [] h = cc
has_operation-select key (x ∷ xs) {row} h =
    ground (arith, λ (e : select_operation key xs ≡ some row). has_operation-select key xs e)

module _ (key : Text) (player : Uuid) (receipt : BankMutationReceipt) where
  -- After the commit the key finds the committed row.
  pub select-commit_rows :
      (rows : List OperationRow) {row : OperationRow} {out : List OperationRow}
      → DistinctOperations rows
      → select_operation key rows ≡ some row
      → row.id ≡ receipt.operation_id
      → is_pending row.state ≡ true
      → commit_rows player receipt rows ≡ some out
      → select_operation key out ≡ some (committed_row player receipt row)
  unfolding commit_rows select_operation
  select-commit_rows [] d h i p c = cc
  select-commit_rows (x ∷ xs) {row} {out} d h i p c =
      elim (Option-cases (commit_rows player receipt xs)) [
        | inl e ↦
            ground
              (arith, λ (f : select_operation key xs ≡ some row). has_operation-select key xs f)
        | inr (rest, e) ↦ ground (
          arith,
          λ (f : select_operation key xs ≡ some row). has_operation-select key xs f,
          λ (f : select_operation key xs ≡ some row).
              select-commit_rows xs {row = row} {out = rest} d.1 f i p e,
        )
      ]

pub validated_pending :
    (row : OperationRow) (user : ℤ) (kind : BankMutationKind) (hash : Digest) (operation : Uuid)
    → validate_operation_row row user kind hash ≡ ok (resolved_pending operation)
    → (row.id ≡ operation) × (is_pending row.state ≡ true)
unfolding validate_operation_row
validated_pending row user kind hash operation h = ground arith

pub validated_committed :
    (row : OperationRow) (user : ℤ) (kind : BankMutationKind) (hash : Digest) (operation : Uuid)
    (player : Uuid) (receipt : BankMutationReceipt)
    → validate_operation_row row user kind hash ≡ ok (resolved_pending operation)
    → validate_operation_row (committed_row player receipt row) user kind hash
      ≡ ok (resolved_committed receipt)
unfolding validate_operation_row
validated_committed row user kind hash operation player receipt h = ground arith

module _ (draws : Draws) (user : ℤ) (key : Text) (kind : BankMutationKind) (hash : Digest) where
  -- A stored row is found again, and the database is not touched.
  pub resolve_stored :
      (db : Db) (row : OperationRow) (r : OperationResolution)
      → select_operation key db.operations ≡ some row
      → validate_operation_row row user kind hash ≡ ok r
      → resolve_operation draws user key kind hash db ≡ ok (r, db)
  unfolding resolve_operation
  resolve_stored db row r e v = rw (e, resolve_operation) (rw v)

  resolve_found :
      (db : Db) (row : OperationRow) {operation : Uuid} {db' : Db}
      → select_operation key db.operations ≡ some row
      → resolve_operation draws user key kind hash db ≡ ok (resolved_pending operation, db')
      → (validate_operation_row row user kind hash ≡ ok (resolved_pending operation)) × (db' ≡ db)
  unfolding resolve_operation
  resolve_found db row e h = ground arith

  resolve_new :
      (db : Db) {operation : Uuid} {db' : Db}
      → select_operation key db.operations ≡ none
      → resolve_operation draws user key kind hash db ≡ ok (resolved_pending operation, db')
      → (operation ≡ draws.operation_id)
        × (db' ≡ record db { operations = new_operation draws user key kind hash ∷ db.operations })
  unfolding resolve_operation select_operation validate_operation_row
  resolve_new db e h = ground arith

  pub resolve_committed :
      (db : Db) {receipt : BankMutationReceipt} {db' : Db}
      → resolve_operation draws user key kind hash db ≡ ok (resolved_committed receipt, db')
      → (row : OperationRow) × (select_operation key db.operations ≡ some row)
        × (validate_operation_row row user kind hash ≡ ok (resolved_committed receipt))
        × (db' ≡ db)
  unfolding resolve_operation
  resolve_committed db {receipt} {db'} h =
      elim (Option-cases (select_operation key db.operations)) [
        | inl e ↦ absurd (never_committed db receipt db' e h)
        | inr (row, e) ↦ (row, e, ground arith, ground arith)
      ]
    where
      never_committed :
          (db : Db) (receipt : BankMutationReceipt) (db' : Db)
          → select_operation key db.operations ≡ none
          → resolve_operation draws user key kind hash db ≡ ok (resolved_committed receipt, db')
          → ⊥
      never_committed db receipt db' e h =
          unfold resolve_operation select_operation validate_operation_row in ground arith

  fresh_valid :
      validate_operation_row (new_operation draws user key kind hash) user kind hash
      ≡ ok (resolved_pending draws.operation_id)
  unfolding validate_operation_row
  fresh_valid = ground arith

  -- A call that found its operation pending has a valid pending row under its key.
  pub resolve_pending :
      (db : Db) {operation : Uuid} {db' : Db}
      → DistinctOperations db.operations
      → has_operation draws.operation_id db.operations ≡ false
      → resolve_operation draws user key kind hash db ≡ ok (resolved_pending operation, db')
      → (row : OperationRow) × (select_operation key db'.operations ≡ some row)
        × (validate_operation_row row user kind hash ≡ ok (resolved_pending operation))
        × DistinctOperations db'.operations
  unfolding select_operation
  resolve_pending db {operation} {db'} d fresh h =
      elim (Option-cases (select_operation key db.operations)) [
        | inr (row, e) ↦
            let (valid, same) = resolve_found db row e h in (row, ground arith, valid, ground arith)
        | inl e ↦
            let (id, same) = resolve_new db e h in
            (
              new_operation draws user key kind hash,
              ground arith,
              ground (arith, fresh_valid),
              ground arith,
            )
      ]
