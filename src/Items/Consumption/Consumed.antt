-- ===== src/Items/Consumption/Consumed.antt =====
-- What a new consumption does, and when it is refused.
use graphite_bot.Common.{
  ℕ, ◌-◌, ◌≤◌, ◌<◌, ◌≡◌, refl, sym, Bool, true, none, some, List, ok, err, if◌then◌else◌, ltb,
  arith, ◌⊎◌, inl, inr, Bool-cases, subst, ltb→lt, ltb_false→le, ◌==◌, Result,
}
use graphite_bot.Common.Int.{ℤ, pos, eqb_ℤ, eqb_sound, ◌-ℤ◌}
use graphite_bot.Common.Checked.{i64_limit}
use graphite_bot.Common.Values.{Uuid, Text, is_pending}
use graphite_bot.Items.Tables.{
  JsonValue, StackRow, StackConsumptionMutationReceipt, ItemDb, OperationRow,
}
use graphite_bot.Items.Bag.{
  find_operation, find_event, stack_quantity, stack_rows, delete_stack, update_stack,
}
use graphite_bot.Items.Bag.Laws.{
  same_stack, one_updated, one_deleted, quantity-update_stack, quantity-delete_stack,
  rows-delete_stack, rows-update_stack,
}
use graphite_bot.Items.Consumption.{
  StackConsumptionMutationRequest, StackConsumptionMutationError, ensure_operation_player,
  lock_active_player, ensure_stackable, insufficient, quantity_left, write_consumption,
  consumption_receipt, record_consumption, settle_consumption, validate_input,
  apply_stack_consumption_mutation,
}

-- A quantity that suffices leaves the difference, and one that does not is refused.
left_of :
    (m a : ℕ) (request : StackConsumptionMutationRequest)
    → request.quantity ≡ pos a
    → m < i64_limit
    → a ≤ m
    → quantity_left (pos m) request ≡ ok (pos (m - a))
unfolding quantity_left ◌-ℤ◌
left_of m a request q small enough = rw (q) (ground arith)

too_much :
    (m a : ℕ) (request : StackConsumptionMutationRequest)
    → request.quantity ≡ pos a
    → m < a
    → quantity_left (pos m) request ≡ err (insufficient request (pos m))
unfolding quantity_left
too_much m a request q over = rw (q) (ground arith)

positive_amount :
    (is_blank : Text → Bool) (byte_length : Text → ℕ) (is_filled_object : JsonValue → Bool)
    (request : StackConsumptionMutationRequest) (a : ℕ)
    → request.quantity ≡ pos a
    → validate_input is_blank byte_length is_filled_object request ≡ ok tt
    → 0 < a
unfolding validate_input
positive_amount is_blank byte_length is_filled_object request a q h = ground arith

module _ (request : StackConsumptionMutationRequest) (rows : List StackRow) (m a : ℕ)
    (positive : 0 < m)
    (holds : stack_quantity request.player_id request.definition_key request.definition_version rows
      ≡ pos m) where
  one_written : (write_consumption (pos m) (pos a) request rows).1 ≡ 1
  unfolding write_consumption
  one_written = elim (Bool-cases (a == 0)) [
    | inl zero ↦ rw (zero) (
        one_deleted request.player_id request.definition_key request.definition_version m rows
          positive holds)
    | inr rest ↦ rw (rest) (
        one_updated request.player_id request.definition_key request.definition_version (pos a) m
          rows positive holds)
  ]

module _ (request : StackConsumptionMutationRequest) (before after : ℤ) (rows : List StackRow)
    (one : (write_consumption before after request rows).1 ≡ 1)
    (holds : stack_quantity request.player_id request.definition_key request.definition_version rows
      ≡ before)
    (player : Uuid) (key : Text) (version : ℤ)
    (single : stack_rows player key version rows ≤ 1) where
  -- Only the stack itself changes, to what is left.
  pub quantity-write_consumption :
      stack_quantity player key version (write_consumption before after request rows).0 ≡ (
        if same_stack request.player_id request.definition_key request.definition_version player key
          version
        then after
        else stack_quantity player key version rows)
  unfolding write_consumption
  quantity-write_consumption = elim (Bool-cases (eqb_ℤ after (pos 0))) [
    | inl none_left ↦
        let nothing = eqb_sound after (pos 0) none_left in
        let deleted : (delete_stack request.player_id request.definition_key
              request.definition_version before rows).1
            ≡ 1 =
          ground arith in
        rw (none_left, nothing)
          (quantity-delete_stack request.player_id request.definition_key request.definition_version
            player key version before rows single deleted holds)
    | inr rest ↦
        let updated : (update_stack request.player_id request.definition_key
              request.definition_version after before rows).1
            ≡ 1 =
          ground arith in
        rw (rest) (
          quantity-update_stack request.player_id request.definition_key request.definition_version
            player key version after before rows updated holds)
  ]

  pub rows-write_consumption :
      stack_rows player key version (write_consumption before after request rows).0 ≤ 1
  unfolding write_consumption
  rows-write_consumption =
      let deleted =
        rows-delete_stack request.player_id request.definition_key request.definition_version player
          key version before rows in
      let updated =
        rows-update_stack request.player_id request.definition_key request.definition_version player
          key version after before rows in
      elim (Bool-cases (eqb_ℤ after (pos 0))) [
        | inl none_left ↦ rw (none_left) (omega (arith, deleted, single))
        | inr rest ↦ rw (rest) (omega (arith, updated, single))
      ]

-- The outcome of a consumption of `a` from a stack of `m`, seen at any stack.
abbrev pub Outcome :
    Uuid
    → StackConsumptionMutationRequest
    → ItemDb
    → ℕ
    → ℕ
    → Uuid
    → Text
    → ℤ
    → Result StackConsumptionMutationError (StackConsumptionMutationReceipt × ItemDb)
    → Type 0
Outcome event request db m a player key version r =
    ((m < a) × (r ≡ err (insufficient request (pos m))))
    ⊎ ((a ≤ m)
        × (db' : ItemDb) × (r ≡ ok (consumption_receipt event request (pos m) (pos (m - a)), db'))
        × (stack_quantity player key version db'.stacks ≡ (
            if same_stack request.player_id request.definition_key request.definition_version player
              key version
            then pos (m - a)
            else stack_quantity player key version db.stacks))
        × (db'.pending_deliveries ≡ db.pending_deliveries))

module _ (event : Uuid) (request : StackConsumptionMutationRequest) (db : ItemDb)
    (operation : OperationRow) (m a : ℕ) (player : Uuid) (key : Text) (version : ℤ)
    (pending : is_pending operation.state ≡ true)
    (active : lock_active_player request.player_id db ≡ ok tt)
    (stackable : ensure_stackable request.definition_key request.definition_version db ≡ ok tt)
    (single : stack_rows player key version db.stacks ≤ 1)
    (holds : stack_quantity request.player_id request.definition_key request.definition_version
        db.stacks
      ≡ pos m)
    (small : m < i64_limit) (amount : request.quantity ≡ pos a) where
  settle_consumption-Outcome :
      0 < a
      → Outcome event request db m a player key version
          (settle_consumption event operation.state request db)
  unfolding settle_consumption
  settle_consumption-Outcome positive = elim (Bool-cases (ltb m a)) [
    | inl over ↦
        let less = ltb→lt m a over in
        inl (less, rw (pending, active, stackable, holds, too_much m a request amount less) refl)
    | inr enough ↦
        let fits = ltb_false→le m a enough in
        let some_left : 0 < m = omega arith in
        let one = one_written request db.stacks m (m - a) some_left holds in
        inr (
          fits,
          record_consumption (write_consumption (pos m) (pos (m - a)) request db.stacks).0 request
              (consumption_receipt event request (pos m) (pos (m - a))) db,
          rw (pending, active, stackable, holds, left_of m a request amount small fits, one) refl,
          quantity-write_consumption request (pos m) (pos (m - a)) db.stacks one holds player key
              version single,
          refl,
        )
  ]

  -- Once the request is valid, its operation pending and without an event under the key, the
  -- player active and the definition stackable, and the quantity of its stack in range: a
  -- consumption of more than the stack holds is refused with that error; any other goes through,
  -- reports the quantity before and the difference after, leaves the stack with that difference,
  -- changes no other stack of any player that has one row at most, and nothing that waits.
  pub apply_stack_consumption_mutation-Outcome :
      (is_blank : Text → Bool) (byte_length : Text → ℕ) (is_filled_object : JsonValue → Bool)
      → validate_input is_blank byte_length is_filled_object request ≡ ok tt
      → find_operation request.operation_id db.operations ≡ some operation
      → ensure_operation_player operation.player_id request.player_id ≡ ok tt
      → find_event request.operation_id request.mutation_key db.events ≡ none
      → Outcome event request db m a player key version
          (apply_stack_consumption_mutation is_blank byte_length is_filled_object event request db)
  unfolding apply_stack_consumption_mutation
  apply_stack_consumption_mutation-Outcome is_blank byte_length is_filled_object valid found mine
        fresh =
      let positive : 0 < a =
        positive_amount is_blank byte_length is_filled_object request a amount valid in
      let same : apply_stack_consumption_mutation is_blank byte_length is_filled_object event
            request db
          ≡ settle_consumption event operation.state request db =
        rw (valid, found, mine, fresh) refl in
      subst (Outcome event request db m a player key version) (sym same)
        (settle_consumption-Outcome positive)
