-- ===== src/Items/Bag/Laws.antt =====
-- What the statements on the stacks of the bag do to its quantities and to its slots.
use graphite_bot.Common.{
  max, ℕ, ◌≤◌, ◌<◌, ◌≡◌, refl, Bool, true, false, ◌∙◌, ◌&&◌, List, [], ◌∷◌, ◌==◌, if◌then◌else◌,
  arith, inl, inr, Bool-cases,
}
use graphite_bot.Common.Int.{ℤ, pos, ◌+ℤ◌, eqb_ℤ, eqb_sound, eqb_refl}
use graphite_bot.Common.Values.{Uuid, Text}
use graphite_bot.Items.Tables.{StackRow}
use graphite_bot.Items.Bag.{
  is_stack, stack_quantity, insert_or_add, delete_stack, update_stack, stack_rows,
}

abbrev pub same_stack : Uuid → Text → ℤ → Uuid → Text → ℤ → Bool
same_stack player key version player' key' version' =
    ((player == player') && (key == key')) && eqb_ℤ version version'

-- Two stacks that share a row are the same.
pub same_of_row :
    (player : Uuid) (key : Text) (version : ℤ) (player' : Uuid) (key' : Text) (version' : ℤ)
    (row : StackRow)
    → is_stack player key version row ≡ true
    → is_stack player' key' version' row ≡ same_stack player key version player' key' version'
same_of_row player key version player' key' version' row h = ground arith

module _ (player : Uuid) (key : Text) (version : ℤ) (player' : Uuid) (key' : Text)
    (version' : ℤ) where
  -- The quantity of every stack after a delivery: only its own grows.
  pub quantity-insert_or_add :
      (quantity : ℤ) (rows : List StackRow)
      → stack_quantity player' key' version' (insert_or_add player key version quantity rows) ≡ (
          if same_stack player key version player' key' version'
          then stack_quantity player' key' version' rows +ℤ quantity
          else stack_quantity player' key' version' rows)
  unfolding stack_quantity insert_or_add ◌+ℤ◌
  quantity-insert_or_add quantity [] = ground arith
  quantity-insert_or_add quantity (row ∷ rows) =
      let rest = quantity-insert_or_add quantity rows in
      elim (Bool-cases (is_stack player key version row)) [
        | inl own ↦
            let other = same_of_row player key version player' key' version' row own in
            rw (own, other) (ground arith)
        | inr apart ↦ rw (apart, rest) (ground arith)
      ]

pub same_quantity :
    (player : Uuid) (key : Text) (version : ℤ) (player' : Uuid) (key' : Text) (version' : ℤ)
    (rows : List StackRow)
    → same_stack player key version player' key' version' ≡ true
    → stack_quantity player' key' version' rows ≡ stack_quantity player key version rows
same_quantity player key version player' key' version' rows h =
    let player_eq : player ≡ player' = ground arith in
    let key_eq : key ≡ key' = ground arith in
    let version_eq : version ≡ version' = eqb_sound version version' (ground arith) in
    rw (player_eq, key_eq, version_eq) refl

-- A row is of both of two stacks that are the same, or of neither.
same_row :
    (player : Uuid) (key : Text) (version : ℤ) (player' : Uuid) (key' : Text) (version' : ℤ)
    (row : StackRow)
    → same_stack player key version player' key' version' ≡ true
    → is_stack player' key' version' row ≡ is_stack player key version row
same_row player key version player' key' version' row h =
    let player_eq : player ≡ player' = ground arith in
    let key_eq : key ≡ key' = ground arith in
    let version_eq : version ≡ version' = eqb_sound version version' (ground arith) in
    rw (player_eq, key_eq, version_eq) refl

module _ (player : Uuid) (key : Text) (version : ℤ) where
  -- Without a row the stack holds nothing.
  pub quantity-none :
      (rows : List StackRow)
      → stack_rows player key version rows ≡ 0
      → stack_quantity player key version rows ≡ pos 0
  unfolding stack_quantity
  quantity-none [] h = refl
  quantity-none (row ∷ rows) h =
      let rest = quantity-none rows in
      elim (Bool-cases (is_stack player key version row)) [
        | inl own ↦ absurd (ground arith)
        | inr apart ↦ ground arith
      ]

  -- A stack that holds something has the row with that quantity: one row is written.
  pub one_updated :
      (quantity : ℤ) (before : ℕ) (rows : List StackRow)
      → 0 < before
      → stack_quantity player key version rows ≡ pos before
      → (update_stack player key version quantity (pos before) rows).1 ≡ 1
  unfolding stack_quantity update_stack
  one_updated quantity before [] positive h = absurd (ground arith)
  one_updated quantity before (row ∷ rows) positive h =
      let rest = one_updated quantity before rows positive in
      elim (Bool-cases (is_stack player key version row)) [
        | inl own ↦
            let held : row.quantity ≡ pos before = ground arith in
            rw (own, held, eqb_refl (pos before)) refl
        | inr apart ↦ let tail = rest (ground arith) in ground arith
      ]

  pub one_deleted :
      (before : ℕ) (rows : List StackRow)
      → 0 < before
      → stack_quantity player key version rows ≡ pos before
      → (delete_stack player key version (pos before) rows).1 ≡ 1
  unfolding stack_quantity delete_stack
  one_deleted before [] positive h = absurd (ground arith)
  one_deleted before (row ∷ rows) positive h =
      let rest = one_deleted before rows positive in
      elim (Bool-cases (is_stack player key version row)) [
        | inl own ↦
            let held : row.quantity ≡ pos before = ground arith in
            rw (own, held, eqb_refl (pos before)) refl
        | inr apart ↦ let tail = rest (ground arith) in ground arith
      ]

module _ (player : Uuid) (key : Text) (version : ℤ) (player' : Uuid) (key' : Text)
    (version' : ℤ) where
  -- The quantity of every stack after one row is written: only its own is the new one.
  pub quantity-update_stack :
      (quantity before : ℤ) (rows : List StackRow)
      → (update_stack player key version quantity before rows).1 ≡ 1
      → stack_quantity player key version rows ≡ before
      → stack_quantity player' key' version'
          (update_stack player key version quantity before rows).0
        ≡ (if same_stack player key version player' key' version'
            then quantity
            else stack_quantity player' key' version' rows)
  unfolding stack_quantity update_stack
  quantity-update_stack quantity before [] one h = absurd (ground arith)
  quantity-update_stack quantity before (row ∷ rows) one h =
      let rest = quantity-update_stack quantity before rows in
      elim (Bool-cases (is_stack player key version row)) [
        | inl own ↦
            let other = same_of_row player key version player' key' version' row own in
            let held : row.quantity ≡ before = ground arith in
            rw (own, held, eqb_refl before, other) (ground arith)
        | inr apart ↦
            let tail = rest (ground arith) (ground arith) in rw (apart, tail) (ground arith)
      ]

  -- The quantity of every stack after its row is removed.
  pub quantity-delete_stack :
      (before : ℤ) (rows : List StackRow)
      → stack_rows player' key' version' rows ≤ 1
      → (delete_stack player key version before rows).1 ≡ 1
      → stack_quantity player key version rows ≡ before
      → stack_quantity player' key' version' (delete_stack player key version before rows).0 ≡ (
          if same_stack player key version player' key' version'
          then pos 0
          else stack_quantity player' key' version' rows)
  unfolding stack_quantity delete_stack
  quantity-delete_stack before [] single one h = absurd (ground arith)
  quantity-delete_stack before (row ∷ rows) single one h =
      let rest = quantity-delete_stack before rows in
      elim (Bool-cases (is_stack player key version row)) [
        | inl own ↦
            let other = same_of_row player key version player' key' version' row own in
            let held : row.quantity ≡ before = ground arith in
            elim (Bool-cases (same_stack player key version player' key' version')) [
              | inl same ↦
                  let empty = quantity-none player' key' version' rows (ground arith) in
                  rw (own, held, eqb_refl before, same) empty
              | inr differs ↦ rw (own, held, eqb_refl before, other, differs) (ground arith)
            ]
        | inr apart ↦
            let tail = rest (ground arith) (ground arith) (ground arith) in
            rw (apart, tail) (ground arith)
      ]

  -- Each statement leaves a stack at most one row, when it had that.
  pub rows-insert_or_add :
      (quantity : ℤ) (rows : List StackRow)
      → stack_rows player' key' version' (insert_or_add player key version quantity rows) ≡ (
          if same_stack player key version player' key' version'
          then max 1 (stack_rows player' key' version' rows)
          else stack_rows player' key' version' rows)
  unfolding insert_or_add
  rows-insert_or_add quantity [] = ground arith
  rows-insert_or_add quantity (row ∷ rows) =
      let rest = rows-insert_or_add quantity rows in
      elim (Bool-cases (is_stack player key version row)) [
        | inl own ↦
            let other = same_of_row player key version player' key' version' row own in
            rw (own) (ground arith)
        | inr apart ↦ elim (Bool-cases (same_stack player key version player' key' version')) [
          | inl same ↦
              let foreign : is_stack player' key' version' row ≡ false =
                same_row player key version player' key' version' row same ∙ apart in
              rw (apart, rest, foreign, same) (omega arith)
          | inr differs ↦ rw (apart, rest, differs) refl
        ]
      ]

  pub rows-update_stack :
      (quantity before : ℤ) (rows : List StackRow)
      → stack_rows player' key' version' (update_stack player key version quantity before rows).0
        ≡ stack_rows player' key' version' rows
  unfolding update_stack
  rows-update_stack quantity before [] = refl
  rows-update_stack quantity before (row ∷ rows) =
      let rest = rows-update_stack quantity before rows in
      elim (Bool-cases (is_stack player key version row && eqb_ℤ row.quantity before)) [
        | inl own ↦ rw (own) refl
        | inr apart ↦ rw (apart) (omega (arith, rest))
      ]

  pub rows-delete_stack :
      (before : ℤ) (rows : List StackRow)
      → stack_rows player' key' version' (delete_stack player key version before rows).0
        ≤ stack_rows player' key' version' rows
  unfolding delete_stack
  rows-delete_stack before [] = omega arith
  rows-delete_stack before (row ∷ rows) =
      let rest = rows-delete_stack before rows in
      elim (Bool-cases (is_stack player key version row && eqb_ℤ row.quantity before)) [
        | inl own ↦ rw (own) (omega arith)
        | inr apart ↦ rw (apart) (omega (arith, rest))
      ]
