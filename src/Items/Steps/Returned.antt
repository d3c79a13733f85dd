-- ===== src/Items/Steps/Returned.antt =====
-- A delivery that joined its stack can be taken back by a consumption.
use graphite_bot.Common.{
  ℕ, ◌+◌, ◌-◌, ◌≤◌, ◌<◌, ◌≡◌, refl, sym, ◌∙◌, Bool, true, false, none, some, ok, if◌then◌else◌,
  arith, inl, inr, Bool-cases, eq_refl,
}
use graphite_bot.Common.Int.{ℤ, pos, ◌+ℤ◌, eqb_refl}
use graphite_bot.Common.Checked.{i64_limit}
use graphite_bot.Common.Values.{Uuid, Text, is_pending}
use graphite_bot.Items.Tables.{
  JsonValue, StackDeliveryMutationReceipt, StackConsumptionMutationReceipt, OperationRow, ItemDb,
}
use graphite_bot.Items.Bag.{find_operation, find_event, stack_quantity, stack_rows}
use graphite_bot.Items.Bag.Laws.{same_stack, same_quantity, quantity-insert_or_add}
use graphite_bot.Items.Delivery.{
  StackDeliveryMutationRequest, write_delivery, apply_stack_delivery_mutation,
}
use graphite_bot.Items.Delivery.Delivered.{Delivered, apply_stack_delivery_mutation-IsDelivery}
use graphite_bot.Items.Consumption.{
  StackConsumptionMutationRequest, ensure_operation_player, lock_active_player, ensure_stackable,
  consumption_receipt, validate_input, apply_stack_consumption_mutation,
}
use graphite_bot.Items.Consumption.Consumed.{apply_stack_consumption_mutation-Outcome}

same_stack_refl :
    (request : StackDeliveryMutationRequest)
    → same_stack request.player_id request.definition_key request.definition_version
        request.player_id request.definition_key request.definition_version
      ≡ true
same_stack_refl request =
    rw
      (
        eq_refl request.player_id,
        eq_refl request.definition_key,
        eqb_refl request.definition_version,
      )
      refl

sum_of : (m a : ℕ) → pos m +ℤ pos a ≡ pos (m + a)
unfolding ◌+ℤ◌
sum_of m a = refl

-- Any stack after a delivery that did not have to wait.
joined :
    {id event : Uuid} {request : StackDeliveryMutationRequest} {db db' : ItemDb}
    {receipt : StackDeliveryMutationReceipt} (player : Uuid) (key : Text) (version : ℤ)
    → Delivered id event request db receipt db'
    → receipt.pending ≡ false
    → stack_quantity player key version db'.stacks ≡ (
        if same_stack request.player_id request.definition_key request.definition_version player key
          version
        then stack_quantity player key version db.stacks +ℤ request.quantity
        else stack_quantity player key version db.stacks)
unfolding write_delivery
joined {id} {event} {request} {db} {db'} {receipt} player key version d here =
    let now : d.pending ≡ false = sym (rw d.receipt_eq refl) ∙ here in
    rw (d.db_eq, now)
      (quantity-insert_or_add request.player_id request.definition_key request.definition_version
        player key version request.quantity db.stacks)

-- The consumption that takes a delivery back.
abbrev pub take_back : StackDeliveryMutationRequest → Uuid → Text → StackConsumptionMutationRequest
take_back request operation key = record {
  operation_id = operation;
  player_id = request.player_id;
  mutation_key = key;
  definition_key = request.definition_key;
  definition_version = request.definition_version;
  quantity = request.quantity;
  source = request.source;
  provenance = request.provenance;
}

module _ (is_blank : Text → Bool) (byte_length : Text → ℕ)
    (is_filled_object : JsonValue → Bool) where
  -- After a new delivery of a stack that did not have to wait, with the sum in range, a valid
  -- consumption of the same quantity, under a fresh key of a pending operation of the active
  -- player and a stackable definition, goes through, and leaves each stack that has one row at
  -- most with the quantity it had before the delivery.
  pub apply_stack_consumption_mutation-apply_stack_delivery_mutation :
      (id event event' : Uuid) (request : StackDeliveryMutationRequest) (db db' : ItemDb)
      (receipt : StackDeliveryMutationReceipt) (operation : OperationRow) (mutation_key : Text)
      (m a : ℕ) (player : Uuid) (key : Text) (version : ℤ)
      → apply_stack_delivery_mutation is_blank byte_length is_filled_object id event request db
        ≡ ok (receipt, db')
      → find_event request.operation_id request.mutation_key db.events ≡ none
      → receipt.pending ≡ false
      → stack_quantity request.player_id request.definition_key request.definition_version db.stacks
        ≡ pos m
      → request.quantity ≡ pos a
      → m + a < i64_limit
      → stack_rows player key version db'.stacks ≤ 1
      → is_pending operation.state ≡ true
      → find_operation operation.id db'.operations ≡ some operation
      → ensure_operation_player operation.player_id request.player_id ≡ ok tt
      → lock_active_player request.player_id db' ≡ ok tt
      → ensure_stackable request.definition_key request.definition_version db' ≡ ok tt
      → validate_input is_blank byte_length is_filled_object
          (take_back request operation.id mutation_key)
        ≡ ok tt
      → find_event operation.id mutation_key db'.events ≡ none
      → (receipt' : StackConsumptionMutationReceipt) × (db'' : ItemDb)
        × (apply_stack_consumption_mutation is_blank byte_length is_filled_object event'
              (take_back request operation.id mutation_key)
              db'
            ≡ ok (receipt', db''))
        × (stack_quantity player key version db''.stacks
            ≡ stack_quantity player key version db.stacks)
  apply_stack_consumption_mutation-apply_stack_delivery_mutation id event event' request db db'
        receipt operation mutation_key m a player key version delivered fresh here held amount small
        single unsettled found mine active stackable valid fresh' =
      let d =
        apply_stack_delivery_mutation-IsDelivery is_blank byte_length is_filled_object id event
          request db player key version delivered fresh in
      let own =
        joined request.player_id request.definition_key request.definition_version d.delivered
          here in
      let any = joined player key version d.delivered here in
      let total : stack_quantity request.player_id request.definition_key request.definition_version
            db'.stacks
          ≡ pos (m + a) =
        own ∙ rw (same_stack_refl request, held, amount) (sum_of m a) in
      let outcome =
        apply_stack_consumption_mutation-Outcome event'
          (take_back request operation.id mutation_key) db' operation (m + a) a player key version
          unsettled active stackable single total small amount is_blank byte_length is_filled_object
          valid found mine fresh' in
      elim outcome [
        | inl over ↦ absurd (omega (arith, over.0))
        | inr (enough, db'', went, seen, waits) ↦
            let back : m + a - a ≡ m = omega arith in
            let restored : (if same_stack request.player_id request.definition_key
                    request.definition_version player key version
                  then pos (m + a - a)
                  else stack_quantity player key version db'.stacks)
                ≡ stack_quantity player key version db.stacks =
              elim (Bool-cases (
                same_stack request.player_id request.definition_key request.definition_version
                  player key version)) [
                    | inl same ↦
                        rw (same, back)
                          (sym (
                            same_quantity request.player_id request.definition_key
                              request.definition_version player key version db.stacks same
                            ∙ held))
                    | inr differs ↦ rw (differs, any, differs) refl
                  ] in
            (
              consumption_receipt event' (take_back request operation.id mutation_key) (pos (m + a))
                  (pos (m + a - a)),
              db'',
              went,
              seen ∙ restored,
            )
      ]
