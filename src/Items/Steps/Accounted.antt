-- ===== src/Items/Steps/Accounted.antt =====
-- After any steps the events account for every stack.
use graphite_bot.Common.{
  ℕ, ◌≤◌, ◌≡◌, refl, ◌∙◌, Bool, true, false, if◌then◌else◌, arith, inl, inr, Bool-cases, subst,
}
use graphite_bot.Common.Int.{ℤ, ◌+ℤ◌, ◌-ℤ◌, sub_swap}
use graphite_bot.Common.Values.{Uuid, Text}
use graphite_bot.Items.Tables.{
  JsonValue, StackDeliveryMutationReceipt, StackConsumptionMutationReceipt, ItemDb,
}
use graphite_bot.Items.Bag.{stack_quantity, stack_rows, pending_quantity}
use graphite_bot.Items.Bag.Laws.{same_stack, same_quantity, rows-insert_or_add}
use graphite_bot.Items.Delivery.{
  StackDeliveryMutationRequest, write_delivery, add_event, delivery_event, delivery_receipt,
}
use graphite_bot.Items.Delivery.Delivered.{
  owned, IsDelivery, apply_stack_delivery_mutation-IsDelivery,
}
use graphite_bot.Items.Consumption.{StackConsumptionMutationRequest}
use graphite_bot.Items.Consumption.Settled.{Settled, quantity_left-exact}
use graphite_bot.Items.Consumption.Consumed.{quantity-write_consumption, rows-write_consumption}
use graphite_bot.Items.Steps.Cases.{delivery_replayed_or_new, consumption_replayed_or_new}
use graphite_bot.Items.Steps.{logged, Step, Steps, delivers, consumes, changes, stay, next}

module _ (player : Uuid) (key : Text) (version : ℤ) where
  -- A stack has one row at most, and what its owner has of it, in the bag or waiting, is what the
  -- events say.
  pub record IsAccounted (db : ItemDb) : Type 0 where
    pub single : stack_rows player key version db.stacks ≤ 1
    pub balanced : owned player key version db ≡ logged player key version db.events

  single-write_delivery :
      (pending : Bool) (id : Uuid) (request : StackDeliveryMutationRequest) (db : ItemDb)
      → stack_rows player key version db.stacks ≤ 1
      → stack_rows player key version (write_delivery pending id request db).stacks ≤ 1
  unfolding write_delivery
  single-write_delivery true id request db single = single
  single-write_delivery false id request db single =
      let added =
        rows-insert_or_add request.player_id request.definition_key request.definition_version
          player key version request.quantity db.stacks in
      rw (added) (ground arith)

  logged-write_delivery :
      (pending : Bool) (id event : Uuid) (request : StackDeliveryMutationRequest) (db : ItemDb)
      → logged player key version
          (add_event
            (delivery_event request (delivery_receipt pending id event request))
            (write_delivery pending id request db)).events
        ≡ (if same_stack request.player_id request.definition_key request.definition_version player
              key version
            then logged player key version db.events +ℤ request.quantity
            else logged player key version db.events)
  unfolding write_delivery
  logged-write_delivery true id event request db = refl
  logged-write_delivery false id event request db = refl

  IsDelivery-IsAccounted :
      {id event : Uuid} {request : StackDeliveryMutationRequest} {db db' : ItemDb}
      {receipt : StackDeliveryMutationReceipt}
      → IsDelivery id event request db receipt db' player key version
      → IsAccounted db
      → IsAccounted db'
  IsDelivery-IsAccounted {id} {event} {request} {db} {db'} {receipt} d a =
      let s = d.delivered in
      let log = logged-write_delivery s.pending id event request db in
      let log' : logged player key version db'.events ≡ (
          if same_stack request.player_id request.definition_key request.definition_version player
            key version
          then logged player key version db.events +ℤ request.quantity
          else logged player key version db.events) =
        rw (s.db_eq, s.receipt_eq) log in
      record {
        single = rw s.db_eq (single-write_delivery s.pending id request db a.single);
        balanced = d.total ∙ rw (a.balanced, log') refl;
      }

  -- What is left of the stack, with what waits, is what was there less the quantity.
  left-of_log :
      (before after waits q total : ℤ)
      → after ≡ before -ℤ q
      → before +ℤ waits ≡ total
      → after +ℤ waits ≡ total -ℤ q
  left-of_log before after waits q total left sum = rw (left, ← sum) (sub_swap before q waits)

  Settled-IsAccounted :
      {event : Uuid} {request : StackConsumptionMutationRequest} {db db' : ItemDb}
      {receipt : StackConsumptionMutationReceipt}
      → Settled event request db receipt db'
      → IsAccounted db
      → IsAccounted db'
  Settled-IsAccounted {event} {request} {db} {db'} {receipt} s a =
      let written =
        quantity-write_consumption request s.before s.after db.stacks s.one s.holds player key
          version a.single in
      let rows =
        rows-write_consumption request s.before s.after db.stacks s.one s.holds player key version
          a.single in
      let left = quantity_left-exact s.before request s.left_eq in
      let waits = pending_quantity player key version db.pending_deliveries in
      elim (Bool-cases (
        same_stack request.player_id request.definition_key request.definition_version player key
          version)) [
            | inl same ↦
                let held : stack_quantity player key version db.stacks ≡ s.before =
                  same_quantity request.player_id request.definition_key request.definition_version
                    player key version db.stacks same
                  ∙ s.holds in
                let sum : s.before +ℤ waits ≡ logged player key version db.events =
                  subst (λ q. q +ℤ waits ≡ logged player key version db.events) held a.balanced in
                record {
                  single = rw s.db_eq rows;
                  balanced =
                      rw (s.db_eq, s.receipt_eq, written, same)
                        (left-of_log s.before s.after waits request.quantity
                          (logged player key version db.events) left sum);
                }
            | inr differs ↦ record {
              single = rw s.db_eq rows;
              balanced = rw (s.db_eq, s.receipt_eq, written, differs) a.balanced;
            }
          ]

module _ (is_blank : Text → Bool) (byte_length : Text → ℕ) (is_filled_object : JsonValue → Bool)
    (player : Uuid) (key : Text) (version : ℤ) where
  Step-IsAccounted :
      {db db' : ItemDb}
      → Step is_blank byte_length is_filled_object db db'
      → IsAccounted player key version db
      → IsAccounted player key version db'
  Step-IsAccounted {db} (delivers id event request h) a =
      elim (delivery_replayed_or_new is_blank byte_length is_filled_object id event request db h) [
        | inl same ↦ subst (IsAccounted player key version) same a
        | inr fresh ↦
            IsDelivery-IsAccounted player key version
              (apply_stack_delivery_mutation-IsDelivery is_blank byte_length is_filled_object id
                event request db player key version h fresh)
              a
      ]
  Step-IsAccounted {db} (consumes event request h) a =
      elim (consumption_replayed_or_new is_blank byte_length is_filled_object event request db h) [
        | inl same ↦ subst (IsAccounted player key version) same a
        | inr new ↦ Settled-IsAccounted player key version new a
      ]
  Step-IsAccounted (changes db operations players) a = record {
    single = a.single;
    balanced = a.balanced;
  }

  -- Deliveries and consumptions that go through, new or replayed, in any order and number, with
  -- changes of operations and players between them, keep the account of every stack: it has one
  -- row at most, and what its owner has of it, in the bag or waiting, is what the events of the
  -- deliveries say less those of the consumptions.
  pub Steps-IsAccounted :
      {db db' : ItemDb}
      → Steps is_blank byte_length is_filled_object db db'
      → IsAccounted player key version db
      → IsAccounted player key version db'
  Steps-IsAccounted stay a = a
  Steps-IsAccounted (next steps step) a = Step-IsAccounted step (Steps-IsAccounted steps a)
