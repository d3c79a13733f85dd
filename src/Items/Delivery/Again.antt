-- ===== src/Items/Delivery/Again.antt =====
-- A delivery that went through answers its repetition with the same receipt.
use graphite_bot.Common.{
  ℕ, find_first, eq_refl, ◌≡◌, refl, Bool, true, false, some, ok, inl, inr, arith, Result-cases,
  Option-cases,
}
use graphite_bot.Common.Int.{eqb_refl}
use graphite_bot.Common.Values.{Uuid, Text}
use graphite_bot.Items.Tables.{
  JsonValue, StackDeliveryMutationReceipt, OperationRow, EventRow, ItemDb,
}
use graphite_bot.Items.Bag.{find_operation, find_event}
use graphite_bot.Items.Delivery.{
  StackDeliveryMutationRequest, ensure_operation_player, write_delivery, delivery_receipt,
  delivery_event, add_event, replay_payload, replay_stack_delivery, settle_delivery, validate_input,
  apply_stack_delivery_mutation,
}
use graphite_bot.Items.Delivery.Delivered.{settle_delivery-Delivered}

replay_own :
    (pending : Bool) (id event : Uuid) (request : StackDeliveryMutationRequest)
    → replay_stack_delivery
        (delivery_event request (delivery_receipt pending id event request))
        request
      ≡ ok (delivery_receipt pending id event request)
unfolding replay_stack_delivery replay_payload
replay_own true id event request =
    rw
      (
        eq_refl event,
        eq_refl request.player_id,
        eq_refl request.operation_id,
        eq_refl request.mutation_key,
        eq_refl request.definition_key,
        eqb_refl request.definition_version,
        eqb_refl request.quantity,
        eq_refl request.source,
        eq_refl request.provenance,
      )
      refl
replay_own false id event request =
    rw
      (
        eq_refl event,
        eq_refl request.player_id,
        eq_refl request.operation_id,
        eq_refl request.mutation_key,
        eq_refl request.definition_key,
        eqb_refl request.definition_version,
        eqb_refl request.quantity,
        eq_refl request.source,
        eq_refl request.provenance,
      )
      refl

-- A written delivery keeps the operations, and its event is found under its key.
same_operations :
    (pending : Bool) (id : Uuid) (event : EventRow) (request : StackDeliveryMutationRequest)
    (db : ItemDb)
    → (add_event event (write_delivery pending id request db)).operations ≡ db.operations
unfolding write_delivery
same_operations true id event request db = refl
same_operations false id event request db = refl

own_event :
    (request : StackDeliveryMutationRequest) (receipt : StackDeliveryMutationReceipt) (db : ItemDb)
    → find_event request.operation_id request.mutation_key
        (add_event (delivery_event request receipt) db).events
      ≡ some (delivery_event request receipt)
unfolding find_event find_first
own_event request receipt db = rw (eq_refl request.operation_id, eq_refl request.mutation_key) refl

module _ (is_blank : Text → Bool) (byte_length : Text → ℕ)
    (is_filled_object : JsonValue → Bool) where
  answered :
      (id event : Uuid) (request : StackDeliveryMutationRequest) (db : ItemDb)
      (operation : OperationRow) (row : EventRow) (receipt : StackDeliveryMutationReceipt)
      → validate_input is_blank byte_length is_filled_object request ≡ ok tt
      → find_operation request.operation_id db.operations ≡ some operation
      → ensure_operation_player operation.player_id request.player_id ≡ ok tt
      → find_event request.operation_id request.mutation_key db.events ≡ some row
      → replay_stack_delivery row request ≡ ok receipt
      → apply_stack_delivery_mutation is_blank byte_length is_filled_object id event request db
        ≡ ok (receipt, db)
  unfolding apply_stack_delivery_mutation
  answered id event request db operation row receipt valid found mine stored replayed =
      rw (valid, found, mine, stored, replayed) refl

  -- A delivery that went through, new or replayed, answers its repetition under any drawn ids
  -- with the same receipt, and changes nothing.
  pub apply_stack_delivery_mutation_idempotent :
      (id event id' event' : Uuid) (request : StackDeliveryMutationRequest) (db : ItemDb)
      {receipt : StackDeliveryMutationReceipt} {db' : ItemDb}
      → apply_stack_delivery_mutation is_blank byte_length is_filled_object id event request db
        ≡ ok (receipt, db')
      → apply_stack_delivery_mutation is_blank byte_length is_filled_object id' event' request db'
        ≡ ok (receipt, db')
  unfolding apply_stack_delivery_mutation
  apply_stack_delivery_mutation_idempotent id event id' event' request db {receipt} {db'} h =
      elim (Result-cases (validate_input is_blank byte_length is_filled_object request)) [
        | inr (_, e) ↦ absurd (ground arith)
        | inl (_, valid) ↦ elim (Option-cases (find_operation request.operation_id db.operations)) [
          | inl e ↦ absurd (ground arith)
          | inr (operation, found) ↦
              elim (Result-cases (ensure_operation_player operation.player_id request.player_id)) [
                | inr (_, e) ↦ absurd (ground arith)
                | inl (_, mine) ↦
                    elim (Option-cases
                      (find_event request.operation_id request.mutation_key db.events)) [
                        | inr (row, existing) ↦
                            elim (Result-cases (replay_stack_delivery row request)) [
                              | inr (_, e) ↦ absurd (ground arith)
                              | inl (known, replayed) ↦
                                  let same : db ≡ db' = ground arith in
                                  let same_receipt : known ≡ receipt = ground arith in
                                  rw (← same) (ground arith)
                            ]
                        | inl fresh ↦
                            let new : settle_delivery id event operation.state request db
                                ≡ ok (receipt, db') =
                              ground arith in
                            let s =
                              settle_delivery-Delivered id event operation.state request db new in
                            answered id' event' request db' operation
                              (delivery_event request receipt) receipt valid
                              (rw
                                (
                                  s.db_eq,
                                  same_operations s.pending id (delivery_event request receipt)
                                      request db,
                                )
                                found)
                              mine
                              (rw s.db_eq (
                                own_event request receipt (write_delivery s.pending id request db)))
                              (rw s.receipt_eq (replay_own s.pending id event request))
                      ]
              ]
        ]
      ]
