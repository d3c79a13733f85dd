-- ===== src/Items/Consumption/Again.antt =====
-- A consumption that went through answers its repetition with the same receipt.
use graphite_bot.Common.{
  ℕ, find_first, eq_refl, ◌≡◌, refl, Bool, some, List, ok, inl, inr, arith, Result-cases,
  Option-cases, Bool-cases,
}
use graphite_bot.Common.Int.{ℤ, ltb_ℤ, eqb_refl, ◌-ℤ◌, to_i64}
use graphite_bot.Common.Values.{Uuid, Text}
use graphite_bot.Items.Tables.{
  JsonValue, StackRow, StackConsumptionMutationReceipt, OperationRow, EventRow, ItemDb,
}
use graphite_bot.Items.Bag.{find_operation, find_event}
use graphite_bot.Items.Consumption.Settled.{settle_consumption-Settled}
use graphite_bot.Items.Consumption.{
  StackConsumptionMutationRequest, ensure_operation_player, quantity_left, write_consumption,
  consumption_receipt, consumption_event, record_consumption, replay_payload,
  replay_stack_consumption, settle_consumption, validate_input, apply_stack_consumption_mutation,
}

replay_own :
    (event : Uuid) (request : StackConsumptionMutationRequest) (before after : ℤ)
    → quantity_left before request ≡ ok after
    → replay_stack_consumption
        (consumption_event request (consumption_receipt event request before after))
        request
      ≡ ok (consumption_receipt event request before after)
unfolding replay_stack_consumption replay_payload quantity_left
replay_own event request before after left = elim (Bool-cases (ltb_ℤ before request.quantity)) [
  | inl over ↦ absurd (ground arith)
  | inr enough ↦ elim (Option-cases (to_i64 (before -ℤ request.quantity))) [
    | inl e ↦ absurd (ground arith)
    | inr (rest, exact) ↦
        let same : rest ≡ after = ground arith in
        rw
          (
            eq_refl event,
            eq_refl request.player_id,
            eq_refl request.operation_id,
            eq_refl request.mutation_key,
            eq_refl request.definition_key,
            eqb_refl request.definition_version,
            eqb_refl request.quantity,
            enough,
            exact,
            same,
            eqb_refl after,
            eq_refl request.source,
            eq_refl request.provenance,
          )
          refl
  ]
]

own_event :
    (request : StackConsumptionMutationRequest) (receipt : StackConsumptionMutationReceipt)
    (stacks : List StackRow) (db : ItemDb)
    → find_event request.operation_id request.mutation_key
        (record_consumption stacks request receipt db).events
      ≡ some (consumption_event request receipt)
unfolding find_event find_first
own_event request receipt stacks db =
    rw (eq_refl request.operation_id, eq_refl request.mutation_key) refl

module _ (is_blank : Text → Bool) (byte_length : Text → ℕ)
    (is_filled_object : JsonValue → Bool) where
  answered :
      (event : Uuid) (request : StackConsumptionMutationRequest) (db : ItemDb)
      (operation : OperationRow) (row : EventRow) (receipt : StackConsumptionMutationReceipt)
      → validate_input is_blank byte_length is_filled_object request ≡ ok tt
      → find_operation request.operation_id db.operations ≡ some operation
      → ensure_operation_player operation.player_id request.player_id ≡ ok tt
      → find_event request.operation_id request.mutation_key db.events ≡ some row
      → replay_stack_consumption row request ≡ ok receipt
      → apply_stack_consumption_mutation is_blank byte_length is_filled_object event request db
        ≡ ok (receipt, db)
  unfolding apply_stack_consumption_mutation
  answered event request db operation row receipt valid found mine stored replayed =
      rw (valid, found, mine, stored, replayed) refl

  -- A consumption that went through, new or replayed, answers its repetition under any drawn
  -- event id with the same receipt, and changes nothing.
  pub apply_stack_consumption_mutation_idempotent :
      (event event' : Uuid) (request : StackConsumptionMutationRequest) (db : ItemDb)
      {receipt : StackConsumptionMutationReceipt} {db' : ItemDb}
      → apply_stack_consumption_mutation is_blank byte_length is_filled_object event request db
        ≡ ok (receipt, db')
      → apply_stack_consumption_mutation is_blank byte_length is_filled_object event' request db'
        ≡ ok (receipt, db')
  unfolding apply_stack_consumption_mutation
  apply_stack_consumption_mutation_idempotent event event' request db {receipt} {db'} h =
      elim (Result-cases (validate_input is_blank byte_length is_filled_object request)) [
        | inr (_, e) ↦ absurd (ground arith)
        | inl (_, valid) ↦ elim (Option-cases (find_operation request.operation_id db.operations)) [
          | inl e ↦ absurd (ground arith)
          | inr (operation, found) ↦
              elim (Result-cases (ensure_operation_player operation.player_id request.player_id)) [
                | inr (_, e) ↦ absurd (ground arith)
                | inl (_, mine) ↦
                    elim (Option-cases
                      (find_event request.operation_id request.mutation_key db.events)) [
                        | inr (row, existing) ↦
                            elim (Result-cases (replay_stack_consumption row request)) [
                              | inr (_, e) ↦ absurd (ground arith)
                              | inl (known, replayed) ↦
                                  let same : db ≡ db' = ground arith in
                                  let same_receipt : known ≡ receipt = ground arith in
                                  rw (← same) (ground arith)
                            ]
                        | inl fresh ↦
                            let new : settle_consumption event operation.state request db
                                ≡ ok (receipt, db') =
                              ground arith in
                            let s =
                              settle_consumption-Settled event operation.state request db new in
                            answered event' request db' operation
                              (consumption_event request receipt) receipt valid (rw s.db_eq found)
                              mine
                              (rw s.db_eq (
                                own_event request receipt
                                  (write_consumption s.before s.after request db.stacks).0 db))
                              (rw s.receipt_eq
                                (replay_own event request s.before s.after s.left_eq))
                      ]
              ]
        ]
      ]
