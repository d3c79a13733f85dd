-- ===== src/Economy/Bank/Operations.antt =====
-- `resolve_operation`, `validate_operation_row` and `commit_operation` of bank.rs.
use graphite_bot.Common.{
  not, ◌&&◌, ◌||◌, Option, none, some, List, [], ◌∷◌, Result, ok, err, ◌>>=◌, ok_or, if◌then◌else◌,
  ◌==◌,
}
use graphite_bot.Common.Int.{ℤ, eqb_ℤ}
use graphite_bot.Common.Values.{Uuid, Text, Digest, pending, committed, is_committed, is_pending}
use graphite_bot.Economy.Errors.{
  BankError, idempotency_conflict, invalid_operation_result, operation_terminal, in_state,
  unexpected_transition, operation_missing_after_insert,
}
use graphite_bot.Economy.Tables.{
  BankMutationKind, bank_mutation, eq_kind, BankMutationReceipt, StoredResult, no_result,
  other_result, bank_result, OperationRow, Db, Draws,
}

pub data OperationResolution : Type 0 where
  resolved_pending : Uuid → OperationResolution
  resolved_committed : BankMutationReceipt → OperationResolution

unfoldable pub select_operation : Text → List OperationRow → Option OperationRow
select_operation key [] = none
select_operation key (row ∷ rows) =
    if row.external_request_key == key then some row else select_operation key rows

abbrev pub decode_receipt : StoredResult → Result BankError OperationResolution
decode_receipt (bank_result receipt) = ok (resolved_committed receipt)
decode_receipt no_result = err invalid_operation_result
decode_receipt other_result = err invalid_operation_result

-- The row must carry the caller's actor, kind, policy version (1) and request hash.
unfoldable pub validate_operation_row :
    OperationRow → ℤ → BankMutationKind → Digest → Result BankError OperationResolution
validate_operation_row row discord_user_id kind request_hash =
    if not (eqb_ℤ row.actor_discord_user_id discord_user_id)
      || not (eq_kind row.kind (bank_mutation kind))
      || not (row.policy_version == 1)
      || not (row.request_hash == request_hash)
    then err idempotency_conflict
    else if is_committed row.state
    then decode_receipt row.result
    else if is_pending row.state
    then ok (resolved_pending row.id)
    else err (operation_terminal (in_state row.state))

abbrev pub new_operation : Draws → ℤ → Text → BankMutationKind → Digest → OperationRow
new_operation draws discord_user_id key kind request_hash = record {
  id = draws.operation_id;
  external_request_key = key;
  actor_discord_user_id = discord_user_id;
  player_id = none;
  kind = bank_mutation kind;
  state = pending;
  policy_version = 1;
  request_hash = request_hash;
  rng_root = draws.rng_root;
  result = no_result;
}

-- `INSERT … ON CONFLICT (external_request_key) DO NOTHING`.
unfoldable pub insert_operation : OperationRow → List OperationRow → List OperationRow
unfolding select_operation
insert_operation row rows = elim (select_operation row.external_request_key rows) [
  | none ↦ row ∷ rows
  | some _ ↦ rows
]

unfoldable pub resolve_operation :
    Draws → ℤ → Text → BankMutationKind → Digest → Db → Result BankError (OperationResolution × Db)
unfolding insert_operation
resolve_operation draws user key kind request_hash db = elim (select_operation key db.operations) [
  | some row ↦ do
    resolution ← validate_operation_row row user kind request_hash
    ok (resolution, db)
  | none ↦ do
    let rows = insert_operation (new_operation draws user key kind request_hash) db.operations
    row ← ok_or (select_operation key rows) operation_missing_after_insert
    resolution ← validate_operation_row row user kind request_hash
    ok (resolution, record db { operations = rows })
]

abbrev pub committed_row : Uuid → BankMutationReceipt → OperationRow → OperationRow
committed_row player receipt row = record row {
  player_id = some player;
  state = committed;
  result = bank_result receipt;
}

-- `UPDATE operations … WHERE id = $3 AND state = 'PENDING'`; `none` when no row fits. An id is a
-- primary key, so at most one row does.
unfoldable pub commit_rows :
    Uuid → BankMutationReceipt → List OperationRow → Option (List OperationRow)
commit_rows player receipt [] = none
commit_rows player receipt (row ∷ rows) =
    let rest = commit_rows player receipt rows in
    if row.id == receipt.operation_id && is_pending row.state
    then some (committed_row player receipt row ∷ rows)
    else elim rest [ none ↦ none | some rows' ↦ some (row ∷ rows') ]

unfoldable pub commit_operation : Uuid → BankMutationReceipt → Db → Result BankError Db
commit_operation player receipt db = do
  rows ← ok_or (commit_rows player receipt db.operations) (operation_terminal unexpected_transition)
  ok (record db { operations = rows })
