-- ===== src/Progression/Replay.antt =====
-- Idempotency: repeating a call that went through.
use graphite_bot.Common.{
  ◌≡◌, true, false, Bool, none, some, List, [], ◌∷◌, ok, ◌==◌, ◌||◌, arith, inl, inr, Option-cases,
  Result-cases,
}
use graphite_bot.Common.Int.{ℤ}
use graphite_bot.Common.Values.{Uuid, Text, Digest, is_pending, is_committed}
use graphite_bot.Progression.Tables.{
  MutationKind, eq_kind, ProgressionReceipt, StoredResult, stored, OperationRow, ProgressionDb,
  Draws,
}
use graphite_bot.Progression.Operations.{
  OperationResolution, resolved_pending, resolved_committed, select_operation, is_actor,
  validate_operation_row, new_operation, resolve_operation, committed_row, commit_rows,
}

unfoldable pub has_operation : Uuid → List OperationRow → Bool
has_operation id [] = false
has_operation id (row ∷ rows) = (row.id == id) || has_operation id rows

-- An operation id is a primary key.
abbrev pub DistinctOperations : List OperationRow → Type 0
DistinctOperations [] = Unit
DistinctOperations (row ∷ rows) = (has_operation row.id rows ≡ false) × DistinctOperations rows

has_operation-select :
    (key : Text) (rows : List OperationRow) {row : OperationRow}
    → select_operation key rows ≡ some row
    → has_operation row.id rows ≡ true
unfolding has_operation select_operation
has_operation-select key [] h = cc
has_operation-select key (x ∷ xs) {row} h =
    ground (arith, λ (e : select_operation key xs ≡ some row). has_operation-select key xs e)

module _ (key : Text) (operation player : Uuid) (receipt : ProgressionReceipt) where
  -- After the commit the key finds the committed row.
  pub select-commit_rows :
      (rows : List OperationRow) {row : OperationRow} {out : List OperationRow}
      → DistinctOperations rows
      → select_operation key rows ≡ some row
      → row.id ≡ operation
      → is_pending row.state ≡ true
      → commit_rows operation player receipt rows ≡ some out
      → select_operation key out ≡ some (committed_row player receipt row)
  unfolding commit_rows select_operation
  select-commit_rows [] d h i p c = cc
  select-commit_rows (x ∷ xs) {row} {out} d h i p c =
      elim (Option-cases (commit_rows operation player receipt xs)) [
        | inl e ↦
            ground
              (arith, λ (f : select_operation key xs ≡ some row). has_operation-select key xs f)
        | inr (rest, e) ↦ ground (
          arith,
          λ (f : select_operation key xs ≡ some row). has_operation-select key xs f,
          λ (f : select_operation key xs ≡ some row).
              select-commit_rows xs {row = row} {out = rest} d.1 f i p e,
        )
      ]

pub validated_pending :
    (row : OperationRow) (user : ℤ) (kind : MutationKind) (hash : Digest) (operation : Uuid)
    → validate_operation_row row user kind hash ≡ ok (resolved_pending operation)
    → (row.id ≡ operation) × (is_pending row.state ≡ true)
unfolding validate_operation_row
validated_pending row user kind hash operation h = ground arith

pub validated_committed :
    (row : OperationRow) (user : ℤ) (kind : MutationKind) (hash : Digest) (operation : Uuid)
    (player : Uuid) (receipt : ProgressionReceipt)
    → validate_operation_row row user kind hash ≡ ok (resolved_pending operation)
    → validate_operation_row (committed_row player receipt row) user kind hash
      ≡ ok (resolved_committed (stored receipt))
unfolding validate_operation_row
validated_committed row user kind hash operation player receipt h = ground arith

module _ (draws : Draws) (user : ℤ) (key : Text) (kind : MutationKind) (hash : Digest) where
  -- A stored row is found again, and the database is not touched.
  pub resolve_stored :
      (db : ProgressionDb) (row : OperationRow) (r : OperationResolution)
      → select_operation key db.operations ≡ some row
      → validate_operation_row row user kind hash ≡ ok r
      → resolve_operation draws user key kind hash db ≡ ok (r, db)
  unfolding resolve_operation
  resolve_stored db row r e v = rw (e, resolve_operation) (rw v)

  pub resolve_found :
      (db : ProgressionDb) (row : OperationRow) {operation : Uuid} {db' : ProgressionDb}
      → select_operation key db.operations ≡ some row
      → resolve_operation draws user key kind hash db ≡ ok (resolved_pending operation, db')
      → (validate_operation_row row user kind hash ≡ ok (resolved_pending operation)) × (db' ≡ db)
  unfolding resolve_operation
  resolve_found db row e h = ground arith

  pub resolve_new :
      (db : ProgressionDb) {operation : Uuid} {db' : ProgressionDb}
      → select_operation key db.operations ≡ none
      → resolve_operation draws user key kind hash db ≡ ok (resolved_pending operation, db')
      → (operation ≡ draws.operation_id)
        × (db' ≡ record db { operations = new_operation draws user key kind hash ∷ db.operations })
  unfolding resolve_operation select_operation validate_operation_row
  resolve_new db e h = ground arith

  never_committed :
      (db db' : ProgressionDb) (value : StoredResult)
      → select_operation key db.operations ≡ none
      → resolve_operation draws user key kind hash db ≡ ok (resolved_committed value, db')
      → ⊥
  unfolding resolve_operation select_operation validate_operation_row
  never_committed db db' value e h = ground arith

  pub resolve_committed :
      (db : ProgressionDb) {value : StoredResult} {db' : ProgressionDb}
      → resolve_operation draws user key kind hash db ≡ ok (resolved_committed value, db')
      → (row : OperationRow) × (select_operation key db.operations ≡ some row)
        × (validate_operation_row row user kind hash ≡ ok (resolved_committed value))
        × (db' ≡ db)
  unfolding resolve_operation
  resolve_committed db {value} {db'} h = elim (Option-cases (select_operation key db.operations)) [
    | inl e ↦ absurd (never_committed db db' value e h)
    | inr (row, e) ↦ (row, e, ground arith, ground arith)
  ]

  fresh_valid :
      validate_operation_row (new_operation draws user key kind hash) user kind hash
      ≡ ok (resolved_pending draws.operation_id)
  unfolding validate_operation_row
  fresh_valid = ground arith

  -- A call that found its operation pending has a valid pending row under its key.
  pub resolve_pending :
      (db : ProgressionDb) {operation : Uuid} {db' : ProgressionDb}
      → DistinctOperations db.operations
      → has_operation draws.operation_id db.operations ≡ false
      → resolve_operation draws user key kind hash db ≡ ok (resolved_pending operation, db')
      → (row : OperationRow) × (select_operation key db'.operations ≡ some row)
        × (validate_operation_row row user kind hash ≡ ok (resolved_pending operation))
        × DistinctOperations db'.operations
  unfolding select_operation
  resolve_pending db {operation} {db'} d fresh h =
      elim (Option-cases (select_operation key db.operations)) [
        | inr (row, e) ↦
            let (valid, same) = resolve_found db row e h in (row, ground arith, valid, ground arith)
        | inl e ↦
            let (id, same) = resolve_new db e h in
            (
              new_operation draws user key kind hash,
              ground arith,
              ground (arith, fresh_valid),
              ground arith,
            )
      ]

-- Resolving touches the operations only.
pub resolve_operation_keeps :
    (draws : Draws) (user : ℤ) (key : Text) (kind : MutationKind) (hash : Digest)
    (db : ProgressionDb) {resolution : OperationResolution} {claimed : ProgressionDb}
    → resolve_operation draws user key kind hash db ≡ ok (resolution, claimed)
    → (claimed.players ≡ db.players) × (claimed.postings ≡ db.postings)
unfolding resolve_operation
resolve_operation_keeps draws user key kind hash db {resolution} {claimed} h =
    elim (Option-cases (select_operation key db.operations)) [
      | inr (row, e) ↦ elim (Result-cases (validate_operation_row row user kind hash)) [
        | inr (_, bad) ↦ absurd (ground arith)
        | inl (found, valid) ↦ ground arith
      ]
      | inl fresh ↦
          let row = new_operation draws user key kind hash in
          elim (Result-cases (validate_operation_row row user kind hash)) [
            | inr (_, bad) ↦ absurd (unfold select_operation in ground arith)
            | inl (found, valid) ↦ unfold select_operation in ground arith
          ]
    ]

-- Resolving again, with anything drawn.
module _ (draws draws' : Draws) (user : ℤ) (key : Text) (kind : MutationKind) (hash : Digest)
    (db : ProgressionDb) where
  -- A stored result is found as it was.
  pub replay_committed :
      {value : StoredResult} {db' : ProgressionDb}
      → resolve_operation draws user key kind hash db ≡ ok (resolved_committed value, db')
      → (db' ≡ db)
        × (resolve_operation draws' user key kind hash db ≡ ok (resolved_committed value, db))
  replay_committed h =
      let (row, selected, valid, same) = resolve_committed draws user key kind hash db h in
      (same, resolve_stored draws' user key kind hash db row _ selected valid)

  -- An operation that was pending and then committed is found with its receipt.
  pub replay_pending :
      {operation : Uuid} {claimed : ProgressionDb} (player : Uuid) (receipt : ProgressionReceipt)
      (db' : ProgressionDb)
      → DistinctOperations db.operations
      → has_operation draws.operation_id db.operations ≡ false
      → resolve_operation draws user key kind hash db ≡ ok (resolved_pending operation, claimed)
      → commit_rows operation player receipt claimed.operations ≡ some db'.operations
      → resolve_operation draws' user key kind hash db'
        ≡ ok (resolved_committed (stored receipt), db')
  replay_pending {operation} {claimed} player receipt db' d fresh h c =
      let (row, selected, valid, distinct) =
        resolve_pending draws user key kind hash db d fresh h in
      let (row_id, pending) = validated_pending row user kind hash operation valid in
      resolve_stored draws' user key kind hash db' (committed_row player receipt row) _
        (select-commit_rows key operation player receipt claimed.operations distinct selected row_id
          pending c)
        (validated_committed row user kind hash operation player receipt valid)

-- The answer of a call that was stored before: its key finds a committed operation of the same
-- user, kind and request, and the operation's result is the receipt.
pub record Answered (user : ℤ) (key : Text) (kind : MutationKind) (hash : Digest)
    (receipt : ProgressionReceipt) (db : ProgressionDb) : Type 0 where
  pub row : OperationRow
  pub selected : select_operation key db.operations ≡ some row
  pub actor : is_actor row.actor_discord_user_id user ≡ true
  pub same_kind : eq_kind row.kind kind ≡ true
  pub same_request : row.request_hash ≡ hash
  pub committed : is_committed row.state ≡ true
  pub result : row.result ≡ stored receipt

pub resolve_committed-Answered :
    (draws : Draws) (user : ℤ) (key : Text) (kind : MutationKind) (hash : Digest)
    (receipt : ProgressionReceipt) (db : ProgressionDb) {value : StoredResult} {db' : ProgressionDb}
    → resolve_operation draws user key kind hash db ≡ ok (resolved_committed value, db')
    → value ≡ stored receipt
    → Answered user key kind hash receipt db
unfolding validate_operation_row
resolve_committed-Answered draws user key kind hash receipt db h decoded =
    let (row, selected, valid, _) = resolve_committed draws user key kind hash db h in
    record {
      row = row;
      selected = selected;
      actor = ground arith;
      same_kind = ground arith;
      same_request = ground arith;
      committed = ground arith;
      result = ground arith;
    }
