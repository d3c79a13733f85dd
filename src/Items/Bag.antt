-- ===== src/Items/Bag.antt =====
-- The statements of crates/graphite-items/src/transactional_stack.rs and
-- transactional_stack_consumption.rs on `item_stacks` in the Item Bag. The primary key (player,
-- definition, version, location) leaves at most one row to each: the first that matches.
pub mod Laws
pub mod SlotLaws
use graphite_bot.Common.{
  ℕ, Bool, not, ◌&&◌, Option, List, [], ◌∷◌, ◌==◌, if◌then◌else◌, find_first, sum_by,
}
use graphite_bot.Common.Int.{ℤ, pos, ◌+ℤ◌, eqb_ℤ}
use graphite_bot.Common.Values.{Uuid, Text, is_deleted}
use graphite_bot.Items.Tables.{
  item_bag, StackRow, PlayerRow, OperationRow, PendingDeliveryRow, EventRow,
}
use graphite_bot.Items.Slots.{is_item_bag}

unfoldable pub find_operation : Uuid → List OperationRow → Option OperationRow
find_operation id = find_first (λ row. row.id == id)

-- `WHERE p.id = $1 AND p.status <> 'DELETED'`.
unfoldable pub find_player : Uuid → List PlayerRow → Option PlayerRow
find_player id = find_first (λ row. (row.id == id) && not (is_deleted row.status))

-- `WHERE operation_id = $1 AND mutation_key = $2`.
unfoldable pub find_event : Uuid → Text → List EventRow → Option EventRow
find_event operation key =
    find_first (λ row. (row.operation_id == operation) && (row.mutation_key == key))

module _ (player : Uuid) (key : Text) (version : ℤ) where
  abbrev pub is_stack : StackRow → Bool
  is_stack row =
      ((row.player_id == player) && (row.definition_key == key))
      && (eqb_ℤ row.definition_version version && is_item_bag row.location)

  -- `SELECT quantity …`, 0 where there is no row.
  unfoldable pub stack_quantity : List StackRow → ℤ
  stack_quantity [] = pos 0
  stack_quantity (row ∷ rows) = if is_stack row then row.quantity else stack_quantity rows

  -- `INSERT … ON CONFLICT … DO UPDATE SET quantity = item_stacks.quantity + EXCLUDED.quantity`.
  unfoldable pub insert_or_add : ℤ → List StackRow → List StackRow
  insert_or_add quantity [] =
      record {
        player_id = player;
        definition_key = key;
        definition_version = version;
        location = item_bag;
        quantity = quantity;
      }
      ∷ []
  insert_or_add quantity (row ∷ rows) =
      let rest = insert_or_add quantity rows in
      if is_stack row then record row { quantity = row.quantity +ℤ quantity } ∷ rows else row ∷ rest

  abbrev pub add_row : StackRow → List StackRow × ℕ → List StackRow × ℕ
  add_row row (rows, affected) = (row ∷ rows, affected)

  -- `DELETE … AND quantity = $4`, with the rows affected.
  unfoldable pub delete_stack : ℤ → List StackRow → List StackRow × ℕ
  delete_stack before [] = ([], 0)
  delete_stack before (row ∷ rows) =
      let rest = delete_stack before rows in
      if is_stack row && eqb_ℤ row.quantity before then (rows, 1) else add_row row rest

  -- `UPDATE … SET quantity = $1 … AND quantity = $5`, with the rows affected.
  unfoldable pub update_stack : ℤ → ℤ → List StackRow → List StackRow × ℕ
  update_stack quantity before [] = ([], 0)
  update_stack quantity before (row ∷ rows) =
      let rest = update_stack quantity before rows in
      if is_stack row && eqb_ℤ row.quantity before
      then (record row { quantity = quantity } ∷ rows, 1)
      else add_row row rest

  -- The rows of the stack; the primary key allows one.
  abbrev pub stack_rows : List StackRow → ℕ
  stack_rows = sum_by (λ row. if is_stack row then 1 else 0)

  -- What waits for the stack in `pending_asset_deliveries`.
  abbrev pub waits_for_stack : PendingDeliveryRow → Bool
  waits_for_stack row =
      ((row.player_id == player) && (row.definition_key == key))
      && eqb_ℤ row.definition_version version

  unfoldable pub pending_quantity : List PendingDeliveryRow → ℤ
  pending_quantity [] = pos 0
  pending_quantity (row ∷ rows) =
      if waits_for_stack row then row.quantity +ℤ pending_quantity rows else pending_quantity rows
