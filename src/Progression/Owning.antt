-- ===== src/Progression/Owning.antt =====
-- What crates/graphite-progression/src/progression/account_settlement.rs and src/activity.rs share:
-- the owning operation of a settlement, and its keyed event.
use graphite_bot.Common.{◌&&◌, Option, none, some, List, [], ◌∷◌, if◌then◌else◌, ◌==◌}
use graphite_bot.Common.Values.{Uuid, Text}
use graphite_bot.Progression.Tables.{OperationRow, EventRow, LedgerRow, LedgerEntry}

unfoldable pub find_operation : Uuid → List OperationRow → Option OperationRow
find_operation id [] = none
find_operation id (row ∷ rows) = if row.id == id then some row else find_operation id rows

-- `WHERE operation_id = $1 AND mutation_key = $2`.
unfoldable pub find_event : Uuid → Text → List EventRow → Option EventRow
find_event operation key [] = none
find_event operation key (row ∷ rows) =
    if (row.operation_id == operation) && (row.mutation_key == key)
    then some row
    else find_event operation key rows

unfoldable pub find_ledger : Uuid → List LedgerRow → Option LedgerEntry
find_ledger operation [] = none
find_ledger operation (row ∷ rows) =
    if row.operation_id == operation then some row.entry else find_ledger operation rows
