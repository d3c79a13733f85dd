-- ===== src/Progression/Operations.antt =====
-- `resolve_operation`, `validate_operation_row` and `commit_operation` of
-- crates/graphite-progression/src/progression.rs.
use graphite_bot.Common.{
  not, Bool, false, ◌&&◌, ◌||◌, Option, none, some, List, [], ◌∷◌, Result, ok, err, ◌>>=◌, ok_or,
  if◌then◌else◌, ◌==◌,
}
use graphite_bot.Common.Int.{ℤ, eqb_ℤ}
use graphite_bot.Common.Values.{Uuid, Text, Digest, pending, committed, is_committed, is_pending}
use graphite_bot.Progression.Errors.{
  ProgressionError, idempotency_conflict, operation_terminal, operation_missing_after_insert,
  operation_commit_conflict,
}
use graphite_bot.Progression.Tables.{
  MutationKind, mutation, eq_kind, ProgressionReceipt, StoredResult, no_result, stored,
  OperationRow, ProgressionDb, Draws,
}

pub data OperationResolution : Type 0 where
  resolved_pending : Uuid → OperationResolution
  resolved_committed : StoredResult → OperationResolution

unfoldable pub select_operation : Text → List OperationRow → Option OperationRow
select_operation key [] = none
select_operation key (row ∷ rows) =
    if row.external_request_key == key then some row else select_operation key rows

abbrev pub is_actor : Option ℤ → ℤ → Bool
is_actor none user = false
is_actor (some actor) user = eqb_ℤ actor user

unfoldable pub validate_operation_row :
    OperationRow → ℤ → MutationKind → Digest → Result ProgressionError OperationResolution
validate_operation_row row discord_user_id kind request_hash =
    if not (is_actor row.actor_discord_user_id discord_user_id)
      || not (eq_kind row.kind kind)
      || not (row.policy_version == 1)
      || not (row.request_hash == request_hash)
    then err idempotency_conflict
    else if is_committed row.state
    then ok (resolved_committed row.result)
    else if not (is_pending row.state)
    then err (operation_terminal row.state)
    else ok (resolved_pending row.id)

abbrev pub new_operation : Draws → ℤ → Text → MutationKind → Digest → OperationRow
new_operation draws discord_user_id key kind request_hash = record {
  id = draws.operation_id;
  external_request_key = key;
  actor_discord_user_id = some discord_user_id;
  player_id = none;
  kind = mutation kind;
  state = pending;
  policy_version = 1;
  request_hash = request_hash;
  rng_root = draws.rng_root;
  result = no_result;
}

-- `INSERT … ON CONFLICT (external_request_key) DO NOTHING`.
unfoldable pub insert_operation : OperationRow → List OperationRow → List OperationRow
unfolding select_operation
insert_operation row rows = elim (select_operation row.external_request_key rows) [
  | none ↦ row ∷ rows
  | some _ ↦ rows
]

unfoldable pub resolve_operation :
    Draws
    → ℤ
    → Text
    → MutationKind
    → Digest
    → ProgressionDb
    → Result ProgressionError (OperationResolution × ProgressionDb)
unfolding insert_operation
resolve_operation draws user key kind request_hash db = elim (select_operation key db.operations) [
  | some row ↦ do
    resolution ← validate_operation_row row user kind request_hash
    ok (resolution, db)
  | none ↦ do
    let rows = insert_operation (new_operation draws user key kind request_hash) db.operations
    row ← ok_or (select_operation key rows) operation_missing_after_insert
    resolution ← validate_operation_row row user kind request_hash
    ok (resolution, record db { operations = rows })
]

abbrev pub committed_row : Uuid → ProgressionReceipt → OperationRow → OperationRow
committed_row player receipt row = record row {
  player_id = some player;
  state = committed;
  result = stored receipt;
}

-- `UPDATE operations … WHERE id = $3 AND state = 'PENDING'`; `none` when no row fits. An id is a
-- primary key, so at most one row does.
unfoldable pub commit_rows :
    Uuid → Uuid → ProgressionReceipt → List OperationRow → Option (List OperationRow)
commit_rows operation player receipt [] = none
commit_rows operation player receipt (row ∷ rows) =
    let rest = commit_rows operation player receipt rows in
    if row.id == operation && is_pending row.state
    then some (committed_row player receipt row ∷ rows)
    else elim rest [ none ↦ none | some rows' ↦ some (row ∷ rows') ]

unfoldable pub commit_operation :
    Uuid → Uuid → ProgressionReceipt → ProgressionDb → Result ProgressionError ProgressionDb
commit_operation operation player receipt db = do
  rows ← ok_or (commit_rows operation player receipt db.operations) operation_commit_conflict
  ok (record db { operations = rows })
