-- ===== src/Items/Steps.antt =====
-- The keyed mutations of crates/graphite-items/src/transactional_stack.rs and
-- transactional_stack_consumption.rs one after another, in any order and with repetitions, while the
-- owning services change operations and accounts in between.
pub mod Cases
pub mod Accounted
pub mod Returned
use graphite_bot.Common.{ℕ, Bool, ◌≡◌, ok, List, [], ◌∷◌, if◌then◌else◌}
use graphite_bot.Common.Int.{ℤ, pos, ◌+ℤ◌, ◌-ℤ◌}
use graphite_bot.Common.Values.{Uuid, Text}
use graphite_bot.Items.Tables.{
  JsonValue, PlayerRow, OperationRow, StackDeliveryMutationReceipt, StackConsumptionMutationReceipt,
  EventPayload, stack_delivery, stack_consumption, other_payload, EventRow, ItemDb,
}
use graphite_bot.Items.Bag.Laws.{same_stack}
use graphite_bot.Items.Delivery.{StackDeliveryMutationRequest, apply_stack_delivery_mutation}
use graphite_bot.Items.Consumption.{
  StackConsumptionMutationRequest, apply_stack_consumption_mutation,
}

-- What the events say of a stack: the deliveries less the consumptions.
module _ (player : Uuid) (key : Text) (version : ℤ) where
  abbrev pub signed : EventPayload → ℤ → ℤ
  signed (stack_delivery receipt source provenance) before =
      if same_stack receipt.player_id receipt.definition_key receipt.definition_version player key
        version
      then before +ℤ receipt.quantity
      else before
  signed (stack_consumption receipt source provenance) before =
      if same_stack receipt.player_id receipt.definition_key receipt.definition_version player key
        version
      then before -ℤ receipt.quantity
      else before
  signed (other_payload value) before = before

  abbrev pub logged : List EventRow → ℤ
  logged [] = pos 0
  logged (event ∷ events) = signed event.payload (logged events)

module _ (is_blank : Text → Bool) (byte_length : Text → ℕ)
    (is_filled_object : JsonValue → Bool) where
  pub data Step : ItemDb → ItemDb → Type 0 where
    delivers :
        {db db' : ItemDb} (id event : Uuid) (request : StackDeliveryMutationRequest)
        {receipt : StackDeliveryMutationReceipt}
        → apply_stack_delivery_mutation is_blank byte_length is_filled_object id event request db
          ≡ ok (receipt, db')
        → Step db db'
    consumes :
        {db db' : ItemDb} (event : Uuid) (request : StackConsumptionMutationRequest)
        {receipt : StackConsumptionMutationReceipt}
        → apply_stack_consumption_mutation is_blank byte_length is_filled_object event request db
          ≡ ok (receipt, db')
        → Step db db'
    changes :
        (db : ItemDb) (operations : List OperationRow) (players : List PlayerRow)
        → Step db (record db { operations = operations; players = players })

  pub data Steps : ItemDb → ItemDb → Type 0 where
    stay : {db : ItemDb} → Steps db db
    next : {db db' db'' : ItemDb} → Steps db db' → Step db' db'' → Steps db db''
