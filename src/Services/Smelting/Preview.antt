-- ===== src/Services/Smelting/Preview.antt =====
-- A preview adds up, and a job that it accepts can be stopped at any point.
use graphite_bot.Common.{
  ℕ, ◌+◌, ◌*◌, ◌/◌, ◌-◌, ◌≤◌, ◌<◌, ◌≡◌, ◌⊎◌, inl, inr, min, refl, ok, arith, ltb, ◌∙◌, ap, sym,
}
use graphite_bot.Common.Int.{pos, min_ℤ, ◌/ℤ◌}
use native.Mathlib.Decide.{dec_le}
use graphite_bot.Common.Checked.{i64_limit, mul_i64_pos, sub_i64_pos}
use graphite_bot.Services.Smelting.{
  SmeltFuelKind, coal, wood_log, SmeltPreview, arithmetic_overflow, heat_half_units, checked_mul,
  checked_sub, preview_single_fuel_smelting, stop_smelting,
}
use graphite_bot.Services.Smelting.Heat.{
  heat, items_for, items_for_bounds, Burnt, fuel_state_after_units-Burnt,
  ceil_div_positive-items_for,
}

abbrev pub preview_of : ℕ → SmeltFuelKind → ℕ → ℕ → ℕ → ℕ → ℕ → SmeltPreview
preview_of requested kind fuel processable needed reserve residual = record {
  requested_units = pos requested;
  processable_units = pos processable;
  unprocessed_units = pos (requested - processable);
  fuel_kind = kind;
  available_fuel_items = pos fuel;
  fuel_items_needed_for_full_request = pos needed;
  fuel_items_to_reserve = pos reserve;
  fuel_item_shortfall = pos (needed - reserve);
  base_duration_seconds = pos (processable * 20);
  projected_activity_xp = pos (processable / 8);
  residual_heat_half_units_after_completion = pos residual;
  partial_for_fuel = ltb processable requested;
  confirmable = ltb 0 processable;
}

-- A preview: the units that the reserved fuel smelts, and where its heat goes.
pub record Previewed (requested input : ℕ) (kind : SmeltFuelKind) (fuel : ℕ) : Type 0 where
  pub processable : ℕ
  pub reserve : ℕ
  pub residual : ℕ
  pub computed :
      preview_single_fuel_smelting (pos requested) (pos input) kind (pos fuel)
      ≡ ok (
          preview_of requested kind fuel processable
            (items_for (requested * 2) kind)
            reserve
            residual)
  pub within : processable ≤ requested
  pub reserve_le : (reserve ≤ fuel) × (reserve ≤ items_for (requested * 2) kind)
  pub heat_eq : reserve * heat kind ≡ processable * 2 + residual
  pub residual_lt : residual < heat kind
  pub whole : (processable ≡ requested) ⊎ (reserve ≡ fuel)

heat_eq : (kind : SmeltFuelKind) → heat_half_units kind ≡ pos (heat kind)
heat_eq coal = refl
heat_eq wood_log = refl

min_pos : (a b : ℕ) → min_ℤ (pos a) (pos b) ≡ pos (min a b)
min_pos a b = ground arith

-- The steps of a preview, with the numbers that they give.
preview_steps :
    (r input : ℕ) (kind : SmeltFuelKind) (f needed reserve p : ℕ) (b : Burnt reserve kind p)
    → 0 < r
    → r ≤ input
    → r * 20 < i64_limit
    → needed ≡ items_for (r * 2) kind
    → reserve ≡ min f needed
    → reserve * heat kind < i64_limit
    → needed < i64_limit
    → p ≡ min (reserve * heat kind / 2) r
    → preview_single_fuel_smelting (pos r) (pos input) kind (pos f)
      ≡ ok (preview_of r kind f p needed reserve b.lost)
unfolding preview_single_fuel_smelting checked_mul checked_sub ◌/ℤ◌
preview_steps r input kind f needed reserve p b positive enough small ne re rh nl pe =
    rw
      (
        heat_eq kind,
        mul_i64_pos arithmetic_overflow r 2 (omega arith),
        ceil_div_positive-items_for (r * 2) kind,
        sym ne,
        min_pos f needed,
        sym re,
        mul_i64_pos arithmetic_overflow reserve (heat kind) rh,
        min_pos (reserve * heat kind / 2) r,
        sym pe,
        b.computed,
        sub_i64_pos arithmetic_overflow r p (omega arith) (omega arith),
        sub_i64_pos arithmetic_overflow needed reserve (omega arith) nl,
        mul_i64_pos arithmetic_overflow p 20 (omega arith),
      )
      (ground arith)

opened_all :
    (kind : SmeltFuelKind) (r f p opened lost : ℕ)
    → p ≡ min (min f (items_for (r * 2) kind) * heat kind / 2) r
    → opened * heat kind ≡ p * 2 + lost
    → lost < heat kind
    → opened ≡ min f (items_for (r * 2) kind)
unfolding items_for
opened_all coal r f p opened lost pe h l = omega arith
opened_all wood_log r f p opened lost pe h l = omega arith

items_small :
    (r : ℕ) (kind : SmeltFuelKind) (f : ℕ)
    → r * 20 < i64_limit
    → min f (items_for (r * 2) kind) * 16 < i64_limit
unfolding items_for
items_small r coal f h = omega arith
items_small r wood_log f h = omega arith

heat_small :
    (r : ℕ) (kind : SmeltFuelKind) (f : ℕ)
    → r * 20 < i64_limit
    → min f (items_for (r * 2) kind) * heat kind < i64_limit
unfolding items_for
heat_small r coal f h = omega arith
heat_small r wood_log f h = omega arith

needed_small :
    (r : ℕ) (kind : SmeltFuelKind) → r * 20 < i64_limit → items_for (r * 2) kind < i64_limit
unfolding items_for
needed_small r coal h = omega arith
needed_small r wood_log h = omega arith

-- All the units are smelted, or all the fuel is reserved.
whole_or_short :
    (r : ℕ) (kind : SmeltFuelKind) (f : ℕ)
    → (min (min f (items_for (r * 2) kind) * heat kind / 2) r ≡ r)
      ⊎ (min f (items_for (r * 2) kind) ≡ f)
unfolding items_for
whole_or_short r coal f = elim (dec_le ((r * 2 + 15) / 16) f) [
  | yes h ↦ inl (omega arith)
  | no h ↦ inr (omega arith)
]
whole_or_short r wood_log f = elim (dec_le ((r * 2 + 2) / 3) f) [
  | yes h ↦ inl (omega arith)
  | no h ↦ inr (omega arith)
]

-- A positive request that the input covers, below the width's limit by a factor of twenty, has a
-- preview: it reserves no more fuel than there is and no more than the request needs, the
-- reserved heat is what the processable units burn plus less than one item's heat, and either the
-- whole request is processable or all the fuel is reserved.
pub preview_single_fuel_smelting-Previewed :
    (requested input : ℕ) (kind : SmeltFuelKind) (fuel : ℕ)
    → 0 < requested
    → requested ≤ input
    → requested * 20 < i64_limit
    → Previewed requested input kind fuel
preview_single_fuel_smelting-Previewed r input kind f positive enough small =
    let needed = items_for (r * 2) kind in
    let reserve = min f needed in
    let p = min (reserve * heat kind / 2) r in
    let bounds = items_for_bounds (r * 2) (r * 2) kind in
    let b =
      fuel_state_after_units-Burnt reserve kind p (items_small r kind f small) (omega arith) in
    let opened = opened_all kind r f p b.opened b.lost refl b.heat_eq b.lost_lt in
    record {
      processable = p;
      reserve = reserve;
      residual = b.lost;
      computed =
          preview_steps r input kind f needed reserve p b positive enough small refl refl
            (heat_small r kind f small) (needed_small r kind small) refl;
      within = omega arith;
      reserve_le = (omega arith, omega arith);
      heat_eq = ap (λ (n : ℕ). n * heat kind) (sym opened) ∙ b.heat_eq;
      residual_lt = b.lost_lt;
      whole = whole_or_short r kind f;
    }

-- Stopping a previewed job after some of its units: what is opened and what comes back are the
-- reserved items, and the opened heat is burnt or lost.
pub record Stopped (preview : SmeltPreview) (reserve : ℕ) (kind : SmeltFuelKind)
    (processable completed : ℕ) : Type 0 where
  pub opened : ℕ
  pub returnable : ℕ
  pub lost : ℕ
  pub computed :
      stop_smelting preview (pos completed)
      ≡ ok (record {
        completed_units = pos completed;
        remaining_accepted_units = pos (processable - completed);
        opened_fuel_items = pos opened;
        returnable_whole_fuel_items = pos returnable;
        lost_residual_heat_half_units = pos lost;
      })
  pub items : opened + returnable ≡ reserve
  pub heat_eq : opened * heat kind ≡ completed * 2 + lost
  pub lost_lt : lost < heat kind

stop_steps :
    (r : ℕ) (kind : SmeltFuelKind) (f p needed reserve residual c : ℕ) (b : Burnt reserve kind c)
    → c ≤ p
    → p < i64_limit
    → stop_smelting (preview_of r kind f p needed reserve residual) (pos c)
      ≡ ok (record {
        completed_units = pos c;
        remaining_accepted_units = pos (p - c);
        opened_fuel_items = pos b.opened;
        returnable_whole_fuel_items = pos b.returnable;
        lost_residual_heat_half_units = pos b.lost;
      })
unfolding stop_smelting checked_sub
stop_steps r kind f p needed reserve residual c b le small =
    rw (b.computed, sub_i64_pos arithmetic_overflow p c le small) (ground arith)

reserve_small :
    (r : ℕ) (kind : SmeltFuelKind) (n : ℕ)
    → r * 20 < i64_limit
    → n ≤ items_for (r * 2) kind
    → n * 16 < i64_limit
unfolding items_for
reserve_small r coal n h le = omega arith
reserve_small r wood_log n h le = omega arith

-- A previewed job, with its request below the same limit, can be stopped after any number of its
-- processable units: the items opened and those returned are the reserved ones, and the opened
-- heat is what the completed units burnt plus less than one item's heat that is lost.
pub stop_smelting-Stopped :
    (requested input : ℕ) (kind : SmeltFuelKind) (fuel completed : ℕ)
    → requested * 20 < i64_limit
    → (previewed : Previewed requested input kind fuel) → completed ≤ previewed.processable
    → Stopped
        (preview_of requested kind fuel previewed.processable
          (items_for (requested * 2) kind)
          previewed.reserve
          previewed.residual)
        previewed.reserve
        kind
        previewed.processable
        completed
stop_smelting-Stopped r input kind f c small v le =
    let b =
      fuel_state_after_units-Burnt v.reserve kind c
        (reserve_small r kind v.reserve small v.reserve_le.1) (omega arith) in
    record {
      opened = b.opened;
      returnable = b.returnable;
      lost = b.lost;
      computed =
          stop_steps r kind f v.processable (items_for (r * 2) kind) v.reserve v.residual c b le
            (omega arith);
      items = b.items;
      heat_eq = b.heat_eq;
      lost_lt = b.lost_lt;
    }
