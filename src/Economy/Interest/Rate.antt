-- ===== src/Economy/Interest/Rate.antt =====
-- `calculate_daily_interest` of crates/graphite-economy/src/interest.rs, with the fixed-point power
-- of the rebirth bonus.
use graphite_bot.Common.{ℕ, ◌||◌, Result, ok, ◌>>=◌, ◌>>◌, ok_or, fail_if}
use graphite_bot.Common.Int.{
  ℤ, pos, pos_part, ◌+ℤ◌, ◌-ℤ◌, ◌*ℤ◌, ◌/ℤ◌, ◌%ℤ◌, ltb_ℤ, min_ℤ, to_i64, to_i128,
}
use graphite_bot.Common.FixedPoint.{q32_one, q32_pow}
use graphite_bot.Economy.Interest.Tables.{BankInterestError, invalid_state, arithmetic_overflow}

abbrev pub rebirth_decay_q32 : ℤ
rebirth_decay_q32 = pos 4_085_499_269

-- 1,000,000 · 2^32.
abbrev pub interest_denominator_q32 : ℤ
interest_denominator_q32 = pos 4_294_967_296_000_000

abbrev pub bank_base_interest_ppm_per_day : ℤ
bank_base_interest_ppm_per_day = pos 40

abbrev pub bank_bonus_interest_ppm_per_day : ℤ
bank_bonus_interest_ppm_per_day = pos 20

abbrev pub bank_bonus_principal_tranche : ℤ
bank_bonus_principal_tranche = pos 10_000_000

-- `ok_or(BankInterestError::ArithmeticOverflow)` after a checked operation at 64 or 128 bits.
abbrev pub narrow_64 : ℤ → Result BankInterestError ℤ
narrow_64 a = ok_or (to_i64 a) arithmetic_overflow

abbrev pub narrow_128 : ℤ → Result BankInterestError ℤ
narrow_128 a = ok_or (to_i128 a) arithmetic_overflow

unfoldable pub checked_add : ℤ → ℤ → Result BankInterestError ℤ
checked_add left right = narrow_64 (left +ℤ right)

unfoldable pub rebirth_growth_q32 : ℕ → Result BankInterestError ℤ
rebirth_growth_q32 rebirth_count = do
  decay ← q32_pow arithmetic_overflow rebirth_decay_q32 rebirth_count
  narrow_128 (q32_one -ℤ decay)

unfoldable pub calculate_daily_interest : ℤ → ℤ → ℤ → Result BankInterestError (ℤ × ℤ)
calculate_daily_interest bank rebirth_count remainder_q32 = do
  fail_if (ltb_ℤ bank (pos 0) || ltb_ℤ rebirth_count (pos 0) || ltb_ℤ remainder_q32 (pos 0))
      invalid_state
  growth_q32 ← rebirth_growth_q32 (pos_part rebirth_count)
  principal_rate ← narrow_128 (bank *ℤ bank_base_interest_ppm_per_day)
  base ← narrow_128 (principal_rate *ℤ q32_one)
  bonus_rate ←
      narrow_128 (min_ℤ bank bank_bonus_principal_tranche *ℤ bank_bonus_interest_ppm_per_day)
  bonus ← narrow_128 (bonus_rate *ℤ growth_q32)
  both ← narrow_128 (base +ℤ bonus)
  numerator ← narrow_128 (both +ℤ remainder_q32)
  credit ← narrow_64 (numerator /ℤ interest_denominator_q32)
  remainder ← narrow_64 (numerator %ℤ interest_denominator_q32)
  ok (credit, remainder)
