-- ===== src/Economy/Fees.antt =====
-- crates/graphite-economy/src/fees.rs: the withdrawal fee in parts per million.
pub mod Split
pub mod Rolling
pub mod Ceiling
use graphite_bot.Common.{Bool, List, [], ◌∷◌, Result, ok, err, ◌>>=◌, ok_or, if◌then◌else◌, ◌≡◌}
use graphite_bot.Common.Int.{ℤ, pos, ◌+ℤ◌, ◌-ℤ◌, ◌*ℤ◌, ◌/ℤ◌, ltb_ℤ, min_ℤ, max_ℤ, to_i64, to_i128}
use graphite_bot.Common.Values.{Timestamp}
use graphite_bot.Economy.Errors.{BankError, arithmetic_overflow}

abbrev pub fee_denominator_ppm : ℤ
fee_denominator_ppm = pos 1_000_000

abbrev pub bank_min_withdrawal : ℤ
bank_min_withdrawal = pos 500

-- `DAY_SECONDS` is 86,400.
unfoldable pub age_fee_ppm : ℤ → ℤ
age_fee_ppm age_seconds =
    if ltb_ℤ age_seconds (pos 86_400)
    then pos 10_000
    else if ltb_ℤ age_seconds (pos 604_800)
    then pos 5_000
    else if ltb_ℤ age_seconds (pos 1_209_600)
    then pos 3_250
    else if ltb_ℤ age_seconds (pos 2_592_000)
    then pos 2_000
    else pos 1_200

unfoldable pub balance_surcharge_ppm : ℤ → ℤ
balance_surcharge_ppm bank_before =
    if ltb_ℤ bank_before (pos 1_000_000)
    then pos 0
    else if ltb_ℤ bank_before (pos 10_000_000)
    then pos 200
    else if ltb_ℤ bank_before (pos 100_000_000)
    then pos 400
    else pos 600

pub record Segment : Type 0 where
  pub start : ℤ
  pub stop : ℤ
  pub rate : ℤ

abbrev pub segments : List Segment
segments =
    record { start = pos 0; stop = pos 100_000; rate = pos 0 }
    ∷ record { start = pos 100_000; stop = pos 1_000_000; rate = pos 100 }
    ∷ record { start = pos 1_000_000; stop = pos 10_000_000; rate = pos 250 }
    ∷ []

-- One round of the loop over `segments`. The plain difference stands under the test that makes it
-- positive, so it cannot leave the width.
unfoldable pub segment_step : ℤ → ℤ → ℤ → Segment → Result BankError ℤ
segment_step prior end numerator s =
    let overlap_start = max_ℤ prior s.start in
    let overlap_end = min_ℤ end s.stop in
    if ltb_ℤ overlap_start overlap_end
    then (do
      charge ← ok_or (to_i128 ((overlap_end -ℤ overlap_start) *ℤ s.rate)) arithmetic_overflow
      ok_or (to_i128 (numerator +ℤ charge)) arithmetic_overflow)
    else ok numerator

unfoldable pub segment_loop : ℤ → ℤ → ℤ → List Segment → Result BankError ℤ
segment_loop prior end numerator [] = ok numerator
segment_loop prior end numerator (s ∷ rest) = do
  next ← segment_step prior end numerator s
  segment_loop prior end next rest

unfoldable pub tail_step : ℤ → ℤ → ℤ → Result BankError ℤ
tail_step prior end numerator =
    let tail_start = max_ℤ prior (pos 10_000_000) in
    if ltb_ℤ tail_start end
    then (do
      charge ← ok_or (to_i128 ((end -ℤ tail_start) *ℤ pos 500)) arithmetic_overflow
      ok_or (to_i128 (numerator +ℤ charge)) arithmetic_overflow)
    else ok numerator

unfoldable pub rolling_marginal_numerator : ℤ → ℤ → Result BankError ℤ
rolling_marginal_numerator prior amount = do
  end ← ok_or (to_i128 (prior +ℤ amount)) arithmetic_overflow
  numerator ← segment_loop prior end (pos 0) segments
  tail_step prior end numerator

unfoldable pub ceil_ppm : ℤ → Result BankError ℤ
ceil_ppm numerator = do
  raised ← ok_or (to_i128 (numerator +ℤ (fee_denominator_ppm -ℤ pos 1))) arithmetic_overflow
  ok_or (to_i64 (raised /ℤ fee_denominator_ppm)) arithmetic_overflow

pub record FeeLot : Type 0 where
  pub amount : ℤ
  pub deposited_at : Timestamp

-- `seconds_since now t` is chrono's `now.signed_duration_since(t).num_seconds()`.
module _ (seconds_since : Timestamp → Timestamp → ℤ) where
  abbrev pub lot_age : Timestamp → FeeLot → ℤ
  lot_age now lot = max_ℤ (seconds_since now lot.deposited_at) (pos 0)

  unfoldable pub age_numerator : Timestamp → List FeeLot → ℤ → Result BankError ℤ
  age_numerator now [] numerator = ok numerator
  age_numerator now (lot ∷ rest) numerator = do
    contribution ← ok_or (to_i128 (lot.amount *ℤ age_fee_ppm (lot_age now lot))) arithmetic_overflow
    next ← ok_or (to_i128 (numerator +ℤ contribution)) arithmetic_overflow
    age_numerator now rest next

  unfoldable pub withdrawal_fee : ℤ → ℤ → ℤ → List FeeLot → Timestamp → Result BankError ℤ
  withdrawal_fee amount bank_before prior_24h_gross lots now = do
    numerator ← age_numerator now lots (pos 0)
    balance ← ok_or (to_i128 (amount *ℤ balance_surcharge_ppm bank_before)) arithmetic_overflow
    rolling ← rolling_marginal_numerator prior_24h_gross amount
    with_balance ← ok_or (to_i128 (numerator +ℤ balance)) arithmetic_overflow
    total ← ok_or (to_i128 (with_balance +ℤ rolling)) arithmetic_overflow
    ceil_ppm total
