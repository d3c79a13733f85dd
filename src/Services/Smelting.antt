-- ===== src/Services/Smelting.antt =====
-- crates/graphite-services/src/smelting.rs: how much fuel a smelting job takes, what it gives back
-- when it stops, and the Activity EXP of its progress. Heat is counted in half units.
pub mod Heat
pub mod Preview
pub mod Experience
use graphite_bot.Common.{
  Bool, not, ◌||◌, Result, ok, err, ◌>>=◌, ◌>>◌, ok_or, fail_if, if◌then◌else◌,
}
use graphite_bot.Common.Int.{
  ℤ, pos, ◌+ℤ◌, ◌-ℤ◌, ◌*ℤ◌, ◌/ℤ◌, ◌%ℤ◌, ltb_ℤ, leb_ℤ, eqb_ℤ, min_ℤ, to_i64,
}

pub data SmeltFuelKind : Type 0 where
  coal wood_log : SmeltFuelKind

abbrev pub heat_half_units_per_smelt : ℤ
heat_half_units_per_smelt = pos 2

abbrev pub ordinary_smelt_seconds_per_unit : ℤ
ordinary_smelt_seconds_per_unit = pos 20

abbrev pub smelt_units_per_aexp : ℤ
smelt_units_per_aexp = pos 8

abbrev pub heat_half_units : SmeltFuelKind → ℤ
heat_half_units coal = pos 16
heat_half_units wood_log = pos 3

pub record SmeltPreview : Type 0 where
  pub requested_units : ℤ
  pub processable_units : ℤ
  pub unprocessed_units : ℤ
  pub fuel_kind : SmeltFuelKind
  pub available_fuel_items : ℤ
  pub fuel_items_needed_for_full_request : ℤ
  pub fuel_items_to_reserve : ℤ
  pub fuel_item_shortfall : ℤ
  pub base_duration_seconds : ℤ
  pub projected_activity_xp : ℤ
  pub residual_heat_half_units_after_completion : ℤ
  pub partial_for_fuel : Bool
  pub confirmable : Bool

pub record SmeltStopSettlement : Type 0 where
  pub completed_units : ℤ
  pub remaining_accepted_units : ℤ
  pub opened_fuel_items : ℤ
  pub returnable_whole_fuel_items : ℤ
  pub lost_residual_heat_half_units : ℤ

pub record SmeltingAexpProgress : Type 0 where
  pub newly_awarded_activity_xp : ℤ
  pub total_awarded_activity_xp : ℤ
  pub remainder_completed_units : ℤ

pub data SmeltingMathError : Type 0 where
  invalid_requested_units negative_availability : SmeltingMathError
  insufficient_input : ℤ → ℤ → SmeltingMathError
  invalid_completed_units completion_went_backwards arithmetic_overflow : SmeltingMathError

pub record FuelState : Type 0 where
  pub opened_fuel_items : ℤ
  pub returnable_whole_fuel_items : ℤ
  pub lost_residual_heat_half_units : ℤ

unfoldable pub checked_mul : ℤ → ℤ → Result SmeltingMathError ℤ
checked_mul left right = ok_or (to_i64 (left *ℤ right)) arithmetic_overflow

unfoldable pub checked_sub : ℤ → ℤ → Result SmeltingMathError ℤ
checked_sub left right = ok_or (to_i64 (left -ℤ right)) arithmetic_overflow

unfoldable pub ceil_div_positive : ℤ → ℤ → ℤ
ceil_div_positive numerator denominator =
    numerator /ℤ denominator +ℤ (if eqb_ℤ (numerator %ℤ denominator) (pos 0) then pos 0 else pos 1)

abbrev pub unopened : ℤ → FuelState
unopened reserved = record {
  opened_fuel_items = pos 0;
  returnable_whole_fuel_items = reserved;
  lost_residual_heat_half_units = pos 0;
}

-- The state after some units.
unfoldable pub open_fuel : ℤ → SmeltFuelKind → ℤ → Result SmeltingMathError FuelState
unfolding checked_mul checked_sub ceil_div_positive
open_fuel reserved kind completed = do
  consumed ← checked_mul completed heat_half_units_per_smelt
  let opened = ceil_div_positive consumed (heat_half_units kind)
  fail_if (ltb_ℤ reserved opened) invalid_completed_units
  returnable ← checked_sub reserved opened
  released ← checked_mul opened (heat_half_units kind)
  lost ← checked_sub released consumed
  ok (record {
    opened_fuel_items = opened;
    returnable_whole_fuel_items = returnable;
    lost_residual_heat_half_units = lost;
  })

unfoldable pub fuel_state_after_units : ℤ → SmeltFuelKind → ℤ → Result SmeltingMathError FuelState
unfolding open_fuel
fuel_state_after_units reserved kind completed =
    if ltb_ℤ reserved (pos 0) || ltb_ℤ completed (pos 0)
    then err invalid_completed_units
    else if eqb_ℤ completed (pos 0)
    then ok (unopened reserved)
    else open_fuel reserved kind completed

unfoldable pub preview_single_fuel_smelting :
    ℤ → ℤ → SmeltFuelKind → ℤ → Result SmeltingMathError SmeltPreview
preview_single_fuel_smelting requested input kind fuel = do
  fail_if (leb_ℤ requested (pos 0)) invalid_requested_units
  fail_if (ltb_ℤ input (pos 0) || ltb_ℤ fuel (pos 0)) negative_availability
  fail_if (ltb_ℤ input requested) (insufficient_input input requested)
  required_heat ← checked_mul requested heat_half_units_per_smelt
  let needed = ceil_div_positive required_heat (heat_half_units kind)
  let reserve = min_ℤ fuel needed
  reserved_heat ← checked_mul reserve (heat_half_units kind)
  let processable = min_ℤ (reserved_heat /ℤ heat_half_units_per_smelt) requested
  completion ← fuel_state_after_units reserve kind processable
  unprocessed ← checked_sub requested processable
  shortfall ← checked_sub needed reserve
  duration ← checked_mul processable ordinary_smelt_seconds_per_unit
  ok (record {
    requested_units = requested;
    processable_units = processable;
    unprocessed_units = unprocessed;
    fuel_kind = kind;
    available_fuel_items = fuel;
    fuel_items_needed_for_full_request = needed;
    fuel_items_to_reserve = reserve;
    fuel_item_shortfall = shortfall;
    base_duration_seconds = duration;
    projected_activity_xp = processable /ℤ smelt_units_per_aexp;
    residual_heat_half_units_after_completion = completion.lost_residual_heat_half_units;
    partial_for_fuel = ltb_ℤ processable requested;
    confirmable = ltb_ℤ (pos 0) processable;
  })

unfoldable pub stop_smelting : SmeltPreview → ℤ → Result SmeltingMathError SmeltStopSettlement
stop_smelting preview completed = do
  fail_if (ltb_ℤ completed (pos 0) || ltb_ℤ preview.processable_units completed)
      invalid_completed_units
  fuel ← fuel_state_after_units preview.fuel_items_to_reserve preview.fuel_kind completed
  remaining ← checked_sub preview.processable_units completed
  ok (record {
    completed_units = completed;
    remaining_accepted_units = remaining;
    opened_fuel_items = fuel.opened_fuel_items;
    returnable_whole_fuel_items = fuel.returnable_whole_fuel_items;
    lost_residual_heat_half_units = fuel.lost_residual_heat_half_units;
  })

abbrev pub progress_of : ℤ → ℤ → ℤ → SmeltingAexpProgress
progress_of newly total remainder = record {
  newly_awarded_activity_xp = newly;
  total_awarded_activity_xp = total;
  remainder_completed_units = remainder;
}

-- The award of a job that is not bypassed.
unfoldable pub award_progress : ℤ → ℤ → Result SmeltingMathError SmeltingAexpProgress
unfolding checked_sub
award_progress previous total = do
  newly ← checked_sub (total /ℤ smelt_units_per_aexp) (previous /ℤ smelt_units_per_aexp)
  ok (progress_of newly (total /ℤ smelt_units_per_aexp) (total %ℤ smelt_units_per_aexp))

unfoldable pub smelting_aexp_progress : ℤ → ℤ → Bool → Result SmeltingMathError SmeltingAexpProgress
unfolding award_progress
smelting_aexp_progress previous total bypassed = do
  fail_if (ltb_ℤ previous (pos 0) || ltb_ℤ total (pos 0)) invalid_completed_units
  fail_if (ltb_ℤ total previous) completion_went_backwards
  (if bypassed
      then ok (progress_of (pos 0) (pos 0) (total %ℤ smelt_units_per_aexp))
      else award_progress previous total)
