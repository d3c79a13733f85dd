-- ===== src/Items/Tests/Sequences.antt =====
-- The stack of ore as an earlier delivery left it, four more of it, and all of it used up or the four
-- taken back.
use graphite_bot.Common.{◌≡◌, refl, ok, arith, [], ◌∷◌, find_first}
use graphite_bot.Common.Int.{pos, ◌+ℤ◌, ◌-ℤ◌, ◌*ℤ◌, ◌/ℤ◌}
use graphite_bot.Items.Tables.{
  ItemDb, EventRow, stack_delivery, stack_consumption, stack_subconsumption_consumed,
  StackConsumptionMutationReceipt,
}
use graphite_bot.Items.Delivery
use graphite_bot.Items.Consumption
use graphite_bot.Items.Slots.{
  item_bag_capacity_slots, slots_for_quantity, find_definition, add_stack_slots, used_stack_slots,
  item_bag_used_slots,
}
use graphite_bot.Items.Bag.{
  find_operation, find_player, find_event, stack_quantity, insert_or_add, delete_stack,
  update_stack,
}
use graphite_bot.Items.Delivery.{
  settle_delivery, lock_item_bag_level, stack_limit_of, is_pending_delivery, write_delivery,
  StackDeliveryMutationRequest, StackDeliveryMutationError, apply_stack_delivery_mutation,
}
use graphite_bot.Items.Consumption.{
  settle_consumption, quantity_left, write_consumption, StackConsumptionMutationRequest,
  lock_active_player, ensure_stackable, apply_stack_consumption_mutation,
}
use graphite_bot.Items.Bag.{pending_quantity}
use graphite_bot.Items.Steps.{Steps, delivers, consumes, stay, next}
use graphite_bot.Items.Steps.Accounted.{IsAccounted, Steps-IsAccounted}
use graphite_bot.Items.Steps.Returned.{
  take_back, apply_stack_consumption_mutation-apply_stack_delivery_mutation,
}
use graphite_bot.Items.Tests.Data.{
  operation, is_blank, byte_length, is_filled_object, ore, bricks, db,
}
use graphite_bot.Items.Tests.Deliveries.{delivery, receipt, event}
use graphite_bot.Items.Tests.Consumptions.{consumption, consumed}

abbrev earlier : EventRow
earlier = record event {
  operation_id = 39;
  payload = stack_delivery (record receipt { operation_id = 39; quantity = pos 60 }) 3 9;
}

abbrev stocked : ItemDb
stocked = record db { events = earlier ∷ [] }

abbrev filled : ItemDb
filled = record stocked {
  stacks = record ore { quantity = pos 64 } ∷ bricks ∷ [];
  events = event ∷ earlier ∷ [];
}

abbrev used : StackConsumptionMutationReceipt
used = record consumed { quantity = pos 64; quantity_before = pos 64 }

abbrev emptied : ItemDb
emptied = record filled {
  stacks = bricks ∷ [];
  events =
      record event {
        id = 70;
        mutation_key = 6;
        event_kind = stack_subconsumption_consumed;
        payload = stack_consumption used 3 9;
      }
      ∷ event
      ∷ earlier
      ∷ [];
}

filled_up :
    apply_stack_delivery_mutation is_blank byte_length is_filled_object 50 51 (delivery 4) stocked
    ≡ ok (receipt, filled)
unfolding apply_stack_delivery_mutation Delivery.validate_input find_operation find_first
    Delivery.ensure_operation_player find_event settle_delivery lock_item_bag_level find_player
    stack_limit_of find_definition is_pending_delivery item_bag_capacity_slots item_bag_used_slots
    used_stack_slots add_stack_slots slots_for_quantity stack_quantity write_delivery insert_or_add
    ◌+ℤ◌ ◌-ℤ◌ ◌*ℤ◌ ◌/ℤ◌
filled_up = refl

used_up :
    apply_stack_consumption_mutation is_blank byte_length is_filled_object 70
      (consumption 64)
      filled
    ≡ ok (used, emptied)
unfolding apply_stack_consumption_mutation Consumption.validate_input find_operation find_first
    Consumption.ensure_operation_player find_event settle_consumption lock_active_player find_player
    ensure_stackable find_definition quantity_left write_consumption stack_quantity delete_stack
    update_stack ◌-ℤ◌
used_up = refl

both : Steps is_blank byte_length is_filled_object stocked emptied
both =
    next (next stay (delivers 50 51 (delivery 4) filled_up)) (consumes 70 (consumption 64) used_up)

stocked-IsAccounted : IsAccounted 1 7 (pos 2) stocked
unfolding stack_quantity pending_quantity ◌+ℤ◌
stocked-IsAccounted = record { single = omega arith; balanced = refl }

Steps-IsAccounted_example : IsAccounted 1 7 (pos 2) emptied
Steps-IsAccounted_example =
    Steps-IsAccounted is_blank byte_length is_filled_object 1 7 (pos 2) both stocked-IsAccounted

apply_stack_consumption_mutation-apply_stack_delivery_mutation_example :
    (receipt' : StackConsumptionMutationReceipt) × (db'' : ItemDb)
    × (apply_stack_consumption_mutation is_blank byte_length is_filled_object 70
          (take_back (delivery 4) 40 6)
          filled
        ≡ ok (receipt', db''))
    × (stack_quantity 1 7 (pos 2) db''.stacks ≡ stack_quantity 1 7 (pos 2) stocked.stacks)
unfolding find_event find_first stack_quantity find_operation find_player find_definition
    Consumption.ensure_operation_player lock_active_player ensure_stackable
    Consumption.validate_input
apply_stack_consumption_mutation-apply_stack_delivery_mutation_example =
    apply_stack_consumption_mutation-apply_stack_delivery_mutation is_blank byte_length
      is_filled_object 50 51 70 (delivery 4) stocked filled receipt operation 6 60 4 1 7 (pos 2)
      filled_up refl refl refl refl (omega arith) (omega arith) refl refl refl refl refl refl refl
