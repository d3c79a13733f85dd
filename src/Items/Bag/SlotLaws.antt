-- ===== src/Items/Bag/SlotLaws.antt =====
-- The slots in use, as the loop over the rows counts them, are the sum over the rows; and what a
-- delivery to a stack adds to them.
use graphite_bot.Common.{
  ◌>>=◌, sym, ◌∙◌, eq_refl, ℕ, ◌+◌, ◌*◌, ◌≡◌, refl, true, ◌&&◌, Option, none, some, List, [], ◌∷◌,
  ok, ◌==◌, sum_by, arith, inl, inr, Bool-cases, Option-cases, Result-cases,
}
use graphite_bot.Common.Int.{ℤ, pos_part, ◌+ℤ◌, ◌-ℤ◌, ◌*ℤ◌, ◌/ℤ◌, eqb_sound, eqb_refl, zero_add}
use graphite_bot.Common.Values.{Uuid, Text}
use graphite_bot.Items.Tables.{item_bag, StackRow, DefinitionRow, ItemDb}
use graphite_bot.Items.Slots.{
  is_item_bag, find_definition, slots_for_quantity, add_joined, checked_add_slots,
  item_bag_capacity_slots, add_stack_slots, used_stack_slots, item_bag_used_slots, slots_of,
  joined_slots, row_slots, bag_slots,
}
use graphite_bot.Items.Bag.{is_stack, stack_quantity, insert_or_add}

-- A quantity's slots, once it has any.
pub slots_for_quantity-slots_of :
    (quantity limit : ℤ) {n : ℕ}
    → slots_for_quantity quantity limit ≡ ok n
    → n ≡ slots_of (pos_part quantity) (pos_part limit)
unfolding slots_for_quantity ◌+ℤ◌ ◌-ℤ◌ ◌/ℤ◌
slots_for_quantity-slots_of quantity limit h = ground arith

-- The bag of a level that is in range has 36 slots and 6 for each level.
pub capacity_of_level :
    (level : ℤ) {n : ℕ} → item_bag_capacity_slots level ≡ ok n → n ≡ 36 + 6 * pos_part level
unfolding item_bag_capacity_slots ◌+ℤ◌ ◌*ℤ◌
capacity_of_level level h = ground arith

module _ (definitions : List DefinitionRow) (player : Uuid) where
  joined_counted :
      (joined : Option DefinitionRow) (quantity : ℤ) (used : ℕ) {n : ℕ}
      → add_joined joined quantity used ≡ ok n
      → n ≡ used + joined_slots joined quantity
  joined_counted none quantity used h = ground arith
  joined_counted (some definition) quantity used {n} h =
      elim (Option-cases definition.stack_limit) [
        | inl e ↦ absurd (ground arith)
        | inr (limit, e) ↦
            let opened : add_joined (some definition) quantity used
                ≡ (slots_for_quantity quantity limit >>= λ slots. checked_add_slots used slots) =
              rw (e) refl in
            let counted = sym opened ∙ h in
            elim (Result-cases (slots_for_quantity quantity limit)) [
              | inr (_, refused) ↦ absurd (ground arith)
              | inl (slots, some_slots) ↦
                  let taken = slots_for_quantity-slots_of quantity limit some_slots in
                  let total : n ≡ used + slots = ground arith in rw (e, ← taken) total
            ]
      ]

  row_counted :
      (row : StackRow) (used : ℕ) {n : ℕ}
      → add_stack_slots definitions player row used ≡ ok n
      → n ≡ used + row_slots definitions player row
  unfolding add_stack_slots
  row_counted row used h =
      let joined =
        joined_counted (find_definition row.definition_key row.definition_version definitions)
          row.quantity used in
      elim (Bool-cases ((row.player_id == player) && is_item_bag row.location)) [
        | inl own ↦ rw (own) (joined (ground arith))
        | inr apart ↦ rw (apart) (ground arith)
      ]

  pub rows_counted :
      (rows : List StackRow) (used : ℕ) {n : ℕ}
      → used_stack_slots definitions player rows used ≡ ok n
      → n ≡ used + sum_by (row_slots definitions player) rows
  unfolding used_stack_slots
  rows_counted [] used h = ground arith
  rows_counted (row ∷ rows) used {n} h =
      elim (Result-cases (add_stack_slots definitions player row used)) [
        | inr (_, e) ↦ absurd (ground arith)
        | inl (used', counted) ↦
            let first = row_counted row used counted in
            let rest : n ≡ used' + sum_by (row_slots definitions player) rows =
              rows_counted rows used' (ground arith) in
            omega arith
      ]

-- The slots in use, when the read succeeds.
pub item_bag_used_slots-eq-bag_slots :
    (player : Uuid) (db : ItemDb) {n : ℕ}
    → item_bag_used_slots player db ≡ ok n
    → n ≡ bag_slots player db
unfolding item_bag_used_slots
item_bag_used_slots-eq-bag_slots player db h =
    elim (Result-cases (used_stack_slots db.definitions player db.stacks 0)) [
      | inr (_, e) ↦ absurd (ground arith)
      | inl (used, counted) ↦
          let stacks = rows_counted db.definitions player db.stacks 0 counted in ground arith
    ]

module _ (definitions : List DefinitionRow) (player : Uuid) (key : Text) (version : ℤ)
    {definition : DefinitionRow} {limit : ℤ}
    (found : find_definition key version definitions ≡ some definition)
    (limited : definition.stack_limit ≡ some limit) where
  own_slots :
      (row : StackRow)
      → is_stack player key version row ≡ true
      → row_slots definitions player row ≡ slots_of (pos_part row.quantity) (pos_part limit)
  own_slots row own =
      let key_eq : row.definition_key ≡ key = ground arith in
      let version_eq : row.definition_version ≡ version =
        eqb_sound row.definition_version version (ground arith) in
      let kept : (row.player_id == player) ≡ true = ground arith in
      let bagged : is_item_bag row.location ≡ true = ground arith in
      rw (kept, bagged, key_eq, version_eq, found, limited) refl

  -- A delivery trades the slots of the old quantity for those of the new one.
  pub slots-insert_or_add :
      (quantity : ℤ) (rows : List StackRow)
      → sum_by (row_slots definitions player) (insert_or_add player key version quantity rows)
          + slots_of (pos_part (stack_quantity player key version rows)) (pos_part limit)
        ≡ sum_by (row_slots definitions player) rows
          + slots_of
              (pos_part (stack_quantity player key version rows +ℤ quantity))
              (pos_part limit)
  unfolding insert_or_add stack_quantity
  slots-insert_or_add quantity [] =
      let new =
        own_slots
          record {
            player_id = player;
            definition_key = key;
            definition_version = version;
            location = item_bag;
            quantity = quantity;
          }
          (rw (eq_refl player, eq_refl key, eqb_refl version) refl) in
      rw (zero_add quantity) (omega (arith, new))
  slots-insert_or_add quantity (row ∷ rows) =
      let rest = slots-insert_or_add quantity rows in
      elim (Bool-cases (is_stack player key version row)) [
        | inl own ↦
            let before = own_slots row own in
            let after = own_slots (record row { quantity = row.quantity +ℤ quantity }) own in
            rw (own) (omega arith)
        | inr apart ↦ rw (apart) (omega (arith, rest))
      ]
