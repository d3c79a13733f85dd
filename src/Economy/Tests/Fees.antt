-- ===== src/Economy/Tests/Fees.antt =====
-- The withdrawal fee on two lots, and the rolling surcharge across its first step.
use graphite_bot.Common.{ℕ, ◌+◌, ◌*◌, ◌/◌, ◌<◌, ◌≤◌, ◌≡◌, refl, List, [], ◌∷◌, ok, arith}
use graphite_bot.Common.Int.{ℤ, pos, sub_ℕ}
use graphite_bot.Common.Values.{Timestamp}
use graphite_bot.Economy.Fees.{FeeLot, withdrawal_fee, rolling_marginal_numerator}
use graphite_bot.Economy.Fees.Ceiling.{
  fee_numerator, withdrawal_fee-eq_ceiling, withdrawal_fee-lt-amount,
}
use graphite_bot.Economy.Fees.Split.{rolling_marginal_numerator_split}

abbrev whole_seconds : Timestamp → Timestamp → ℤ
whole_seconds now t = sub_ℕ (now / 1_000_000) (t / 1_000_000)

abbrev lots : List FeeLot
lots =
    record { amount = pos 400; deposited_at = 0 }
    ∷ record { amount = pos 600; deposited_at = 172_800_000_000 }
    ∷ []

withdrawal_fee-eq_ceiling_example :
    withdrawal_fee whole_seconds (pos 1_000) (pos 2_000_000) (pos 99_500) lots 172_800_000_000
    ≡ ok (
        pos (
          (fee_numerator whole_seconds 172_800_000_000 1_000 (pos 2_000_000) 99_500 lots + 999_999)
          / 1_000_000))
withdrawal_fee-eq_ceiling_example =
    withdrawal_fee-eq_ceiling whole_seconds 172_800_000_000 1_000 99_500 (pos 2_000_000) lots
      (omega arith) refl (omega arith) (omega arith)

withdrawal_fee-lt-amount_example :
    (fee : ℕ) × (withdrawal_fee whole_seconds
        (pos 1_000)
        (pos 2_000_000)
        (pos 99_500)
        lots
        172_800_000_000
      ≡ ok (pos fee))
    × (fee < 1_000)
    × (1_000 * 1_200 ≤ fee * 1_000_000)
withdrawal_fee-lt-amount_example =
    withdrawal_fee-lt-amount whole_seconds 172_800_000_000 1_000 99_500 (pos 2_000_000) lots
      (omega arith) refl (omega arith) (omega arith) (omega arith)

rolling_marginal_numerator_split_example :
    (x y : ℕ) × (rolling_marginal_numerator (pos 99_500) (pos 400) ≡ ok (pos x))
    × (rolling_marginal_numerator (pos (99_500 + 400)) (pos 600) ≡ ok (pos y))
    × (rolling_marginal_numerator (pos 99_500) (pos (400 + 600)) ≡ ok (pos (x + y)))
rolling_marginal_numerator_split_example =
    rolling_marginal_numerator_split 99_500 400 600 (omega arith)
