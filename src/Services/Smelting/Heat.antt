-- ===== src/Services/Smelting/Heat.antt =====
-- The heat of opened fuel: what is burnt, what is lost, and what comes back.
use graphite_bot.Common.{ℕ, zero, suc, ◌+◌, ◌*◌, ◌/◌, ◌-◌, ◌≤◌, ◌<◌, ◌≡◌, refl, ◌∙◌, ok, arith}
use graphite_bot.Common.Int.{pos, ◌+ℤ◌, ◌/ℤ◌, ◌%ℤ◌}
use graphite_bot.Common.Checked.{i64_limit, mul_i64_pos, sub_i64_pos}
use graphite_bot.Services.Smelting.{
  SmeltFuelKind, coal, wood_log, FuelState, arithmetic_overflow, open_fuel, fuel_state_after_units,
  checked_mul, checked_sub, ceil_div_positive,
}

-- The half units of one item.
abbrev pub heat : SmeltFuelKind → ℕ
heat coal = 16
heat wood_log = 3

-- The fewest items whose heat covers the half units.
unfoldable pub items_for : ℕ → SmeltFuelKind → ℕ
items_for n coal = (n + 15) / 16
items_for n wood_log = (n + 2) / 3

abbrev pub fuel_state : ℕ → ℕ → ℕ → FuelState
fuel_state opened returnable lost = record {
  opened_fuel_items = pos opened;
  returnable_whole_fuel_items = pos returnable;
  lost_residual_heat_half_units = pos lost;
}

heat_pos : (kind : SmeltFuelKind) → 0 < heat kind
heat_pos coal = omega arith
heat_pos wood_log = omega arith

pub ceil_div_positive-items_for :
    (n : ℕ) (kind : SmeltFuelKind)
    → ceil_div_positive (pos n) (pos (heat kind)) ≡ pos (items_for n kind)
unfolding ceil_div_positive items_for ◌+ℤ◌ ◌/ℤ◌ ◌%ℤ◌
ceil_div_positive-items_for n coal = ground arith
ceil_div_positive-items_for n wood_log = ground arith

open_fuel_lem :
    (reserved : ℕ) (kind : SmeltFuelKind) (completed opened : ℕ)
    → items_for (completed * 2) kind ≡ opened
    → reserved * 16 < i64_limit
    → opened ≤ reserved
    → completed * 2 ≤ opened * heat kind
    → open_fuel (pos reserved) kind (pos completed)
      ≡ ok (fuel_state opened (reserved - opened) (opened * heat kind - completed * 2))
unfolding open_fuel checked_mul checked_sub
open_fuel_lem r coal c o e h le enough =
    rw
      (
        mul_i64_pos arithmetic_overflow c 2 (omega arith),
        ceil_div_positive-items_for (c * 2) coal,
        e,
        sub_i64_pos arithmetic_overflow r o le (omega arith),
        mul_i64_pos arithmetic_overflow o 16 (omega arith),
        sub_i64_pos arithmetic_overflow (o * 16) (c * 2) enough (omega arith),
      )
      (ground arith)
open_fuel_lem r wood_log c o e h le enough =
    rw
      (
        mul_i64_pos arithmetic_overflow c 2 (omega arith),
        ceil_div_positive-items_for (c * 2) wood_log,
        e,
        sub_i64_pos arithmetic_overflow r o le (omega arith),
        mul_i64_pos arithmetic_overflow o 3 (omega arith),
        sub_i64_pos arithmetic_overflow (o * 3) (c * 2) enough (omega arith),
      )
      (ground arith)

-- The items cover the heat, with less than one item to spare, and no more items than are there.
pub items_for_bounds :
    (n reserved : ℕ) (kind : SmeltFuelKind)
    → (n ≤ items_for n kind * heat kind)
      × (items_for n kind * heat kind < n + heat kind)
      × (n ≤ reserved * heat kind → items_for n kind ≤ reserved)
unfolding items_for
items_for_bounds n reserved coal = (omega arith, omega arith, λ h. omega arith)
items_for_bounds n reserved wood_log = (omega arith, omega arith, λ h. omega arith)

-- What the fuel of a job that stops after some units comes to.
pub record Burnt (reserved : ℕ) (kind : SmeltFuelKind) (completed : ℕ) : Type 0 where
  pub opened : ℕ
  pub returnable : ℕ
  pub lost : ℕ
  pub computed :
      fuel_state_after_units (pos reserved) kind (pos completed)
      ≡ ok (fuel_state opened returnable lost)
  pub items : opened + returnable ≡ reserved
  pub heat_eq : opened * heat kind ≡ completed * 2 + lost
  pub lost_lt : lost < heat kind

fuel_state-suc :
    (reserved : ℕ) (kind : SmeltFuelKind) (n : ℕ)
    → fuel_state_after_units (pos reserved) kind (pos (suc n))
      ≡ open_fuel (pos reserved) kind (pos (suc n))
unfolding fuel_state_after_units
fuel_state-suc reserved kind n = ground arith

pub fuel_state_after_units-Burnt :
    (reserved : ℕ) (kind : SmeltFuelKind) (completed : ℕ)
    → reserved * 16 < i64_limit
    → completed * 2 ≤ reserved * heat kind
    → Burnt reserved kind completed
fuel_state_after_units-Burnt reserved kind zero h k = record {
  opened = 0;
  returnable = reserved;
  lost = 0;
  computed = unfold fuel_state_after_units in ground arith;
  items = omega arith;
  heat_eq = omega arith;
  lost_lt = heat_pos kind;
}
fuel_state_after_units-Burnt reserved kind (suc n) h k =
    let bounds = items_for_bounds (suc n * 2) reserved kind in
    let opened = items_for (suc n * 2) kind in
    let le = bounds.2 k in
    record {
      opened = opened;
      returnable = reserved - opened;
      lost = opened * heat kind - suc n * 2;
      computed =
          fuel_state-suc reserved kind n
          ∙ open_fuel_lem reserved kind (suc n) opened refl h le bounds.0;
      items = omega arith;
      heat_eq = omega arith;
      lost_lt = omega arith;
    }
