-- ===== src/Items/Slots.antt =====
-- crates/graphite-items/src/lib.rs: the slots a quantity takes, the slots of a bag by its level, and
-- the slots in use.
use graphite_bot.Common.{
  ℕ, ◌+◌, ◌-◌, ◌/◌, Bool, true, false, ◌&&◌, ◌||◌, Option, none, some, List, [], ◌∷◌, Result, ok,
  err, ◌>>=◌, ok_or, if◌then◌else◌, ◌==◌, sum_by, find_first,
}
use graphite_bot.Common.Int.{
  ℤ, pos, pos_part, ◌+ℤ◌, ◌-ℤ◌, ◌*ℤ◌, ◌/ℤ◌, eqb_ℤ, leb_ℤ, ltb_ℤ, to_i128, to_u64,
}
use graphite_bot.Common.Values.{Uuid, Text}
use graphite_bot.Items.Errors.{ItemError, database, arithmetic_overflow}
use graphite_bot.Items.Tables.{Location, item_bag, StackRow, DefinitionRow, ItemInstanceRow, ItemDb}

abbrev pub item_bag_base_slots : ℤ
item_bag_base_slots = pos 36

abbrev pub item_bag_slots_per_level : ℤ
item_bag_slots_per_level = pos 6

unfoldable pub item_bag_capacity_slots : ℤ → Result ItemError ℕ
item_bag_capacity_slots level =
    if ltb_ℤ level (pos 0)
    then err arithmetic_overflow
    else (ok_or (to_i128 (item_bag_slots_per_level *ℤ level)) arithmetic_overflow >>= λ grown.
        ok_or (to_i128 (item_bag_base_slots +ℤ grown)) arithmetic_overflow >>= λ capacity.
        ok_or (to_u64 capacity) arithmetic_overflow)

unfoldable pub slots_for_quantity : ℤ → ℤ → Result ItemError ℕ
slots_for_quantity quantity stack_limit =
    if ltb_ℤ quantity (pos 0) || leb_ℤ stack_limit (pos 0)
    then err arithmetic_overflow
    else if eqb_ℤ quantity (pos 0)
    then ok 0
    else (ok_or (to_i128 (quantity +ℤ (stack_limit -ℤ pos 1))) arithmetic_overflow >>= λ numerator.
        ok_or (to_u64 (numerator /ℤ stack_limit)) arithmetic_overflow)

abbrev pub is_item_bag : Location → Bool
is_item_bag item_bag = true
is_item_bag _ = false

abbrev pub checked_add_slots : ℕ → ℕ → Result ItemError ℕ
checked_add_slots a b = ok_or (to_u64 (pos (a + b))) arithmetic_overflow

unfoldable pub find_definition : Text → ℤ → List DefinitionRow → Option DefinitionRow
find_definition key version = find_first (λ row. (row.key == key) && eqb_ℤ row.version version)

-- One joined row: a stack without its definition is not in the join, and a NULL limit does not read
-- as a number.
abbrev pub add_joined : Option DefinitionRow → ℤ → ℕ → Result ItemError ℕ
add_joined none quantity used = ok used
add_joined (some definition) quantity used = do
  stack_limit ← ok_or definition.stack_limit database
  slots ← slots_for_quantity quantity stack_limit
  checked_add_slots used slots

module _ (definitions : List DefinitionRow) (player : Uuid) where
  unfoldable pub add_stack_slots : StackRow → ℕ → Result ItemError ℕ
  add_stack_slots row used =
      if (row.player_id == player) && is_item_bag row.location
      then add_joined (find_definition row.definition_key row.definition_version definitions)
          row.quantity used
      else ok used

  unfoldable pub used_stack_slots : List StackRow → ℕ → Result ItemError ℕ
  used_stack_slots [] used = ok used
  used_stack_slots (row ∷ rows) used = add_stack_slots row used >>= used_stack_slots rows

abbrev pub unique_rows : Uuid → List ItemInstanceRow → ℕ
unique_rows player =
    sum_by (λ row. if (row.owner_player_id == player) && is_item_bag row.location then 1 else 0)

unfoldable pub item_bag_used_slots : Uuid → ItemDb → Result ItemError ℕ
item_bag_used_slots player db = do
  used ← used_stack_slots db.definitions player db.stacks 0
  checked_add_slots used (unique_rows player db.items)

-- What the slots in use are, without the order of the sums or the widths.
abbrev pub slots_of : ℕ → ℕ → ℕ
slots_of quantity limit = if quantity == 0 then 0 else ((quantity + (limit - 1)) / limit)

abbrev pub joined_slots : Option DefinitionRow → ℤ → ℕ
joined_slots none quantity = 0
joined_slots (some definition) quantity = elim definition.stack_limit [
  | none ↦ 0
  | some limit ↦ slots_of (pos_part quantity) (pos_part limit)
]

module _ (definitions : List DefinitionRow) (player : Uuid) where
  abbrev pub row_slots : StackRow → ℕ
  row_slots row =
      if (row.player_id == player) && is_item_bag row.location
      then joined_slots (find_definition row.definition_key row.definition_version definitions)
          row.quantity
      else 0

abbrev pub bag_slots : Uuid → ItemDb → ℕ
bag_slots player db =
    sum_by (row_slots db.definitions player) db.stacks + unique_rows player db.items
