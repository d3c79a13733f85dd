-- ===== src/Services/Tests/Smelting.antt =====
-- Ten logs for twenty units, and a job that is settled in three steps.
use graphite_bot.Common.{◌≡◌, refl, [], ◌∷◌, ok, arith, false, inr}
use graphite_bot.Common.Int.{pos, ◌+ℤ◌, ◌-ℤ◌, ◌*ℤ◌, ◌/ℤ◌, ◌%ℤ◌}
use graphite_bot.Services.Smelting.{
  wood_log, SmeltPreview, preview_single_fuel_smelting, fuel_state_after_units,
}
use graphite_bot.Services.Smelting.Heat.{items_for}
use graphite_bot.Services.Smelting.Preview.{
  Previewed, Stopped, preview_of, preview_single_fuel_smelting-Previewed, stop_smelting-Stopped,
}
use graphite_bot.Services.Smelting.Experience.{awarded, awarded-last_of}

preview_single_fuel_smelting-Previewed_example : Previewed 20 25 wood_log 10
preview_single_fuel_smelting-Previewed_example =
    preview_single_fuel_smelting-Previewed 20 25 wood_log 10 (omega arith) (omega arith)
      (omega arith)

abbrev ten_logs : SmeltPreview
ten_logs = preview_of 20 wood_log 10 15 14 10 0

preview_run : preview_single_fuel_smelting (pos 20) (pos 25) wood_log (pos 10) ≡ ok ten_logs
unfolding preview_single_fuel_smelting fuel_state_after_units ◌+ℤ◌ ◌-ℤ◌ ◌*ℤ◌ ◌/ℤ◌ ◌%ℤ◌
preview_run = refl

previewed : Previewed 20 25 wood_log 10
unfolding items_for
previewed = record {
  processable = 15;
  reserve = 10;
  residual = 0;
  computed = preview_run;
  within = omega arith;
  reserve_le = (omega arith, omega arith);
  heat_eq = omega arith;
  residual_lt = omega arith;
  whole = inr refl;
}

stop_smelting-Stopped_example :
    Stopped (preview_of 20 wood_log 10 15 (items_for 40 wood_log) 10 0) 10 wood_log 15 7
unfolding previewed
stop_smelting-Stopped_example =
    stop_smelting-Stopped 20 25 wood_log 10 7 (omega arith) previewed (omega arith)

awarded-last_of_example : awarded false 3 (7 ∷ 7 ∷ 21 ∷ []) ≡ ok (pos 2)
awarded-last_of_example = awarded-last_of false 3 (7 ∷ 7 ∷ 21 ∷ []) (omega arith)
