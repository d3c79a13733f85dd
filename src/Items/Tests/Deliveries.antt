-- ===== src/Items/Tests/Deliveries.antt =====
-- Four more of the ore fill its slot; a fifth would need another one.
use graphite_bot.Common.{ℕ, ◌≡◌, refl, true, false, none, some, [], ◌∷◌, ok, Result, find_first}
use graphite_bot.Common.Int.{pos, ◌+ℤ◌, ◌-ℤ◌, ◌*ℤ◌, ◌/ℤ◌}
use graphite_bot.Items.Tables.{
  StackDeliveryMutationReceipt, ItemDb, EventRow, stack_delivery, stack_subdelivery_delivered,
  stack_subdelivery_pending,
}
use graphite_bot.Items.Slots.{
  item_bag_capacity_slots, slots_for_quantity, find_definition, add_stack_slots, used_stack_slots,
  item_bag_used_slots,
}
use graphite_bot.Items.Bag.{find_operation, find_player, find_event, stack_quantity, insert_or_add}
use graphite_bot.Items.Delivery.{
  validate_input, ensure_operation_player, settle_delivery, lock_item_bag_level, stack_limit_of,
  is_pending_delivery, write_delivery, StackDeliveryMutationRequest, StackDeliveryMutationError,
  apply_stack_delivery_mutation,
}
use graphite_bot.Items.Delivery.Delivered.{IsDelivery, apply_stack_delivery_mutation-IsDelivery}
use graphite_bot.Items.Delivery.Again.{apply_stack_delivery_mutation_idempotent}
use graphite_bot.Items.Tests.Data.{is_blank, byte_length, is_filled_object, ore, bricks, db}

abbrev pub delivery : ℕ → StackDeliveryMutationRequest
delivery quantity = record {
  operation_id = 40;
  player_id = 1;
  mutation_key = 5;
  definition_key = 7;
  definition_version = pos 2;
  quantity = pos quantity;
  source = 3;
  provenance = 9;
}

abbrev pub receipt : StackDeliveryMutationReceipt
receipt = record {
  event_id = 51;
  operation_id = 40;
  player_id = 1;
  mutation_key = 5;
  definition_key = 7;
  definition_version = pos 2;
  quantity = pos 4;
  pending_delivery_id = none;
  pending = false;
}

abbrev pub event : EventRow
event = record {
  id = 51;
  operation_id = 40;
  mutation_key = 5;
  player_id = 1;
  event_kind = stack_subdelivery_delivered;
  payload = stack_delivery receipt 3 9;
}

abbrev delivered : ItemDb
delivered = record db {
  stacks = record ore { quantity = pos 64 } ∷ bricks ∷ [];
  events = event ∷ [];
}

abbrev waiting : StackDeliveryMutationReceipt
waiting = record receipt { quantity = pos 5; pending_delivery_id = some 50; pending = true }

abbrev put_aside : ItemDb
put_aside = record db {
  pending_deliveries =
      record {
        id = 50;
        operation_id = 40;
        mutation_key = 5;
        player_id = 1;
        definition_key = 7;
        definition_version = pos 2;
        quantity = pos 5;
      }
      ∷ [];
  events =
      record event { event_kind = stack_subdelivery_pending; payload = stack_delivery waiting 3 9 }
      ∷ [];
}

abbrev deliver :
    ℕ → ItemDb → Result StackDeliveryMutationError (StackDeliveryMutationReceipt × ItemDb)
deliver quantity before =
    apply_stack_delivery_mutation is_blank byte_length is_filled_object 50 51 (delivery quantity)
      before

fits_exactly : deliver 4 db ≡ ok (receipt, delivered)
unfolding apply_stack_delivery_mutation validate_input find_operation find_first
    ensure_operation_player find_event settle_delivery lock_item_bag_level find_player
    stack_limit_of find_definition is_pending_delivery item_bag_capacity_slots item_bag_used_slots
    used_stack_slots add_stack_slots slots_for_quantity stack_quantity write_delivery insert_or_add
    ◌+ℤ◌ ◌-ℤ◌ ◌*ℤ◌ ◌/ℤ◌
fits_exactly = refl

waits_for_room : deliver 5 db ≡ ok (waiting, put_aside)
unfolding apply_stack_delivery_mutation validate_input find_operation find_first
    ensure_operation_player find_event settle_delivery lock_item_bag_level find_player
    stack_limit_of find_definition is_pending_delivery item_bag_capacity_slots item_bag_used_slots
    used_stack_slots add_stack_slots slots_for_quantity stack_quantity write_delivery insert_or_add
    ◌+ℤ◌ ◌-ℤ◌ ◌*ℤ◌ ◌/ℤ◌
waits_for_room = refl

no_event : find_event 40 5 db.events ≡ none
unfolding find_event find_first
no_event = refl

apply_stack_delivery_mutation-IsDelivery_example :
    IsDelivery 50 51 (delivery 4) db receipt delivered 1 7 (pos 2)
apply_stack_delivery_mutation-IsDelivery_example =
    apply_stack_delivery_mutation-IsDelivery is_blank byte_length is_filled_object 50 51
      (delivery 4) db 1 7 (pos 2) fits_exactly no_event

apply_stack_delivery_mutation_idempotent_example :
    apply_stack_delivery_mutation is_blank byte_length is_filled_object 60 61 (delivery 5) put_aside
    ≡ ok (waiting, put_aside)
apply_stack_delivery_mutation_idempotent_example =
    apply_stack_delivery_mutation_idempotent is_blank byte_length is_filled_object 50 51 60 61
      (delivery 5) db waits_for_room
