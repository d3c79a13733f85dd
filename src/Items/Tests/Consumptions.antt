-- ===== src/Items/Tests/Consumptions.antt =====
-- The whole stack of ore is used up, and its row removed.
use graphite_bot.Common.{ℕ, ◌≡◌, refl, [], ◌∷◌, ok, arith, find_first}
use graphite_bot.Common.Int.{pos, ◌-ℤ◌}
use graphite_bot.Items.Tables.{
  ItemDb, StackConsumptionMutationReceipt, stack_consumption, stack_subconsumption_consumed,
}
use graphite_bot.Items.Slots.{find_definition}
use graphite_bot.Items.Bag.{
  find_operation, find_player, find_event, stack_quantity, delete_stack, update_stack,
}
use graphite_bot.Items.Consumption.{
  settle_consumption, quantity_left, write_consumption, StackConsumptionMutationRequest,
  lock_active_player, ensure_stackable, ensure_operation_player, validate_input,
  apply_stack_consumption_mutation,
}
use graphite_bot.Items.Consumption.Consumed.{Outcome, apply_stack_consumption_mutation-Outcome}
use graphite_bot.Items.Consumption.Again.{apply_stack_consumption_mutation_idempotent}
use graphite_bot.Items.Tests.Data.{is_blank, byte_length, is_filled_object, bricks, operation, db}

abbrev pub consumption : ℕ → StackConsumptionMutationRequest
consumption quantity = record {
  operation_id = 40;
  player_id = 1;
  mutation_key = 6;
  definition_key = 7;
  definition_version = pos 2;
  quantity = pos quantity;
  source = 3;
  provenance = 9;
}

abbrev pub consumed : StackConsumptionMutationReceipt
consumed = record {
  event_id = 70;
  operation_id = 40;
  player_id = 1;
  mutation_key = 6;
  definition_key = 7;
  definition_version = pos 2;
  quantity = pos 60;
  quantity_before = pos 60;
  quantity_after = pos 0;
}

abbrev emptied : ItemDb
emptied = record db {
  stacks = bricks ∷ [];
  events =
      record {
        id = 70;
        operation_id = 40;
        mutation_key = 6;
        player_id = 1;
        event_kind = stack_subconsumption_consumed;
        payload = stack_consumption consumed 3 9;
      }
      ∷ [];
}

used_up :
    apply_stack_consumption_mutation is_blank byte_length is_filled_object 70 (consumption 60) db
    ≡ ok (consumed, emptied)
unfolding apply_stack_consumption_mutation validate_input find_operation find_first
    ensure_operation_player find_event settle_consumption lock_active_player find_player
    ensure_stackable find_definition quantity_left write_consumption stack_quantity delete_stack
    update_stack ◌-ℤ◌
used_up = refl

apply_stack_consumption_mutation_idempotent_example :
    apply_stack_consumption_mutation is_blank byte_length is_filled_object 71
      (consumption 60)
      emptied
    ≡ ok (consumed, emptied)
apply_stack_consumption_mutation_idempotent_example =
    apply_stack_consumption_mutation_idempotent is_blank byte_length is_filled_object 70 71
      (consumption 60) db used_up

apply_stack_consumption_mutation-Outcome_example :
    Outcome 70 (consumption 60) db 60 60 1 7 (pos 2) (
      apply_stack_consumption_mutation is_blank byte_length is_filled_object 70 (consumption 60) db)
unfolding find_player find_first find_definition
apply_stack_consumption_mutation-Outcome_example =
    apply_stack_consumption_mutation-Outcome 70 (consumption 60) db operation 60 60 1 7 (pos 2) refl
      (unfold lock_active_player in refl) (unfold ensure_stackable in refl) (omega arith)
      (unfold stack_quantity in refl) (omega arith) refl is_blank byte_length is_filled_object
      (unfold validate_input in refl) (unfold find_operation in refl)
      (unfold ensure_operation_player in refl) (unfold find_event in refl)
