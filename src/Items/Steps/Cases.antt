-- ===== src/Items/Steps/Cases.antt =====
-- A mutation that goes through is a replay, which changes nothing, or new.
use graphite_bot.Common.{ℕ, ◌≡◌, Bool, none, ok, arith, ◌⊎◌, inl, inr, Option-cases, Result-cases}
use graphite_bot.Common.Values.{Uuid, Text}
use graphite_bot.Items.Tables.{
  JsonValue, StackDeliveryMutationReceipt, StackConsumptionMutationReceipt, ItemDb,
}
use graphite_bot.Items.Bag.{find_operation, find_event}
use graphite_bot.Items.Delivery
use graphite_bot.Items.Delivery.{
  StackDeliveryMutationRequest, replay_stack_delivery, apply_stack_delivery_mutation,
}
use graphite_bot.Items.Consumption
use graphite_bot.Items.Consumption.{
  StackConsumptionMutationRequest, replay_stack_consumption, settle_consumption,
  apply_stack_consumption_mutation,
}
use graphite_bot.Items.Consumption.Settled.{Settled, settle_consumption-Settled}

module _ (is_blank : Text → Bool) (byte_length : Text → ℕ)
    (is_filled_object : JsonValue → Bool) where
  pub delivery_replayed_or_new :
      (id event : Uuid) (request : StackDeliveryMutationRequest) (db : ItemDb)
      {receipt : StackDeliveryMutationReceipt} {db' : ItemDb}
      → apply_stack_delivery_mutation is_blank byte_length is_filled_object id event request db
        ≡ ok (receipt, db')
      → (db ≡ db') ⊎ (find_event request.operation_id request.mutation_key db.events ≡ none)
  unfolding apply_stack_delivery_mutation
  delivery_replayed_or_new id event request db {receipt} {db'} h =
      elim (Option-cases (find_event request.operation_id request.mutation_key db.events)) [
        | inl fresh ↦ inr fresh
        | inr (row, existing) ↦
            elim (Result-cases
              (Delivery.validate_input is_blank byte_length is_filled_object request)) [
                | inr (_, e) ↦ absurd (ground arith)
                | inl (_, valid) ↦
                    elim (Option-cases (find_operation request.operation_id db.operations)) [
                      | inl e ↦ absurd (ground arith)
                      | inr (operation, found) ↦
                          elim (Result-cases (
                            Delivery.ensure_operation_player operation.player_id
                              request.player_id)) [
                                | inr (_, e) ↦ absurd (ground arith)
                                | inl (_, mine) ↦
                                    elim (Result-cases (replay_stack_delivery row request)) [
                                      | inr (_, e) ↦ absurd (ground arith)
                                      | inl (known, replayed) ↦ inl (ground arith)
                                    ]
                              ]
                    ]
              ]
      ]

  pub consumption_replayed_or_new :
      (event : Uuid) (request : StackConsumptionMutationRequest) (db : ItemDb)
      {receipt : StackConsumptionMutationReceipt} {db' : ItemDb}
      → apply_stack_consumption_mutation is_blank byte_length is_filled_object event request db
        ≡ ok (receipt, db')
      → (db ≡ db') ⊎ Settled event request db receipt db'
  unfolding apply_stack_consumption_mutation
  consumption_replayed_or_new event request db {receipt} {db'} h =
      elim (Result-cases
        (Consumption.validate_input is_blank byte_length is_filled_object request)) [
          | inr (_, e) ↦ absurd (ground arith)
          | inl (_, valid) ↦
              elim (Option-cases (find_operation request.operation_id db.operations)) [
                | inl e ↦ absurd (ground arith)
                | inr (operation, found) ↦
                    elim (Result-cases
                      (Consumption.ensure_operation_player operation.player_id request.player_id)) [
                        | inr (_, e) ↦ absurd (ground arith)
                        | inl (_, mine) ↦
                            elim (Option-cases
                              (find_event request.operation_id request.mutation_key db.events)) [
                                | inr (row, existing) ↦
                                    elim (Result-cases (replay_stack_consumption row request)) [
                                      | inr (_, e) ↦ absurd (ground arith)
                                      | inl (known, replayed) ↦ inl (ground arith)
                                    ]
                                | inl fresh ↦ inr (
                                    settle_consumption-Settled event operation.state request db
                                      (ground arith))
                              ]
                      ]
              ]
        ]
