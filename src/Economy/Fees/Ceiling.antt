-- ===== src/Economy/Fees/Ceiling.antt =====
-- The whole withdrawal fee: its exact value, and that it never consumes the withdrawal.
use graphite_bot.Common.{
  ℕ, ◌+◌, ◌-◌, ◌*◌, ◌/◌, ◌≤◌, ◌<◌, ◌≡◌, ap, ok_or, ◌>>=◌, ◌∙◌, ok, arith, List, [], ◌∷◌, All,
  sum_by,
}
use graphite_bot.Common.Int.{ℤ, pos, pos_part, ◌+ℤ◌, ◌-ℤ◌, ◌/ℤ◌, ◌≤ℤ◌, to_i128, pos_of_nonneg}
use graphite_bot.Common.Checked.{i64_limit, add_i128_pos, mul_i128_pos}
use graphite_bot.Economy.Errors.{arithmetic_overflow}
use graphite_bot.Common.Values.{Timestamp}
use graphite_bot.Economy.Fees.{
  FeeLot, age_fee_ppm, balance_surcharge_ppm, ceil_ppm, lot_age, age_numerator, withdrawal_fee,
}
use graphite_bot.Economy.Fees.Rolling.{
  schedule, schedule_step, amount_limit, rolling_marginal_numerator-eq_schedule,
}

-- A rate is one of the five, and the surcharge one of the four.
pub age_fee_ppm_bounds :
    (age : ℤ) → (n : ℕ) × (age_fee_ppm age ≡ pos n) × (1_200 ≤ n) × (n ≤ 10_000)
unfolding age_fee_ppm
age_fee_ppm_bounds age = (pos_part (age_fee_ppm age), ground arith, ground arith, ground arith)

pub balance_surcharge_ppm_bounds :
    (bank : ℤ) → (n : ℕ) × (balance_surcharge_ppm bank ≡ pos n) × (n ≤ 600)
unfolding balance_surcharge_ppm
balance_surcharge_ppm_bounds bank =
    (pos_part (balance_surcharge_ppm bank), ground arith, ground arith)

pub ceil_ppm_lem :
    (n : ℕ)
    → n < 9_223_372_036_854_775_807_000_000
    → ceil_ppm (pos n) ≡ ok (pos ((n + 999_999) / 1_000_000))
unfolding ceil_ppm ◌+ℤ◌ ◌-ℤ◌ ◌/ℤ◌
ceil_ppm_lem n h = ground arith

abbrev pub IsFunded : FeeLot → Type 0
IsFunded lot = pos 0 ≤ℤ lot.amount

abbrev pub units : FeeLot → ℕ
units lot = pos_part lot.amount

numerator-le : (c a s d : ℕ) → c ≤ a * 10_000 → s ≤ 600 → d ≤ 500 * a → c + a * s + d ≤ a * 11_100
numerator-le c a s d hc hs hd = let le : a * s ≤ a * 600 = grind arith in omega arith

rounded-lt : (n a : ℕ) → n ≤ a * 11_100 → 500 ≤ a → (n + 999_999) / 1_000_000 < a
rounded-lt n a h m = omega arith

rounded-ge :
    (c b d a : ℕ) → a * 1_200 ≤ c → a * 1_200 ≤ (c + b + d + 999_999) / 1_000_000 * 1_000_000
rounded-ge c b d a h = omega arith

module _ (seconds_since : Timestamp → Timestamp → ℤ) (now : Timestamp) where
  -- What one lot contributes, in millionths.
  abbrev pub age_charge : FeeLot → ℕ
  age_charge lot = units lot * pos_part (age_fee_ppm (lot_age seconds_since now lot))

  pub age_charge-le : (lot : FeeLot) → age_charge lot ≤ units lot * 10_000
  age_charge-le lot =
      let (n, e, lo, hi) = age_fee_ppm_bounds (lot_age seconds_since now lot) in rw e (grind arith)

  age_charge-ge : (lot : FeeLot) → units lot * 1_200 ≤ age_charge lot
  age_charge-ge lot =
      let (n, e, lo, hi) = age_fee_ppm_bounds (lot_age seconds_since now lot) in rw e (grind arith)

  pub age_charges-le : (lots : List FeeLot) → sum_by age_charge lots ≤ sum_by units lots * 10_000
  age_charges-le [] = omega arith
  age_charges-le (lot ∷ rest) = omega (arith, age_charge-le lot, age_charges-le rest)

  pub age_charges-ge : (lots : List FeeLot) → sum_by units lots * 1_200 ≤ sum_by age_charge lots
  age_charges-ge [] = omega arith
  age_charges-ge (lot ∷ rest) = omega (arith, age_charge-ge lot, age_charges-ge rest)

  pub age_numerator_lem :
      (lots : List FeeLot) (n : ℕ)
      → All IsFunded lots
      → n + sum_by units lots * 10_000 < amount_limit
      → age_numerator seconds_since now lots (pos n) ≡ ok (pos (n + sum_by age_charge lots))
  unfolding age_numerator
  age_numerator_lem [] n f h = ap (λ m. ok (pos m)) (omega arith)
  age_numerator_lem (lot ∷ rest) n f h =
      let (r, e, lo, hi) = age_fee_ppm_bounds (lot_age seconds_since now lot) in
      let u : ℕ = units lot in
      let le : u * r ≤ u * 10_000 = grind arith in
      rw (pos_of_nonneg lot.amount f.0) (
        rw e (
          rw (mul_i128_pos arithmetic_overflow u r (omega arith)) (
            rw (add_i128_pos arithmetic_overflow n (u * r) (omega arith)) (
              age_numerator_lem rest (n + u * r) f.1 (omega arith)
              ∙ ap (λ m. ok (pos m)) (omega arith)))))

  total_charge :
      (c b d : ℕ)
      → c + b + d < 9_223_372_036_854_775_807_000_000
      → (do
        with_balance ← ok_or (to_i128 (pos (0 + c) +ℤ pos b)) arithmetic_overflow
        total ← ok_or (to_i128 (with_balance +ℤ pos d)) arithmetic_overflow
        ceil_ppm total)
        ≡ ok (pos ((c + b + d + 999_999) / 1_000_000))
  total_charge c b d h = rw (add_i128_pos arithmetic_overflow (0 + c) b (omega arith)) (
      rw (add_i128_pos arithmetic_overflow (0 + c + b) d (omega arith)) (
        ceil_ppm_lem (0 + c + b + d) (omega arith)
        ∙ ap (λ m. ok (pos ((m + 999_999) / 1_000_000))) (omega arith)))

  -- The fee in millionths of one Money.
  abbrev pub fee_numerator : ℕ → ℤ → ℕ → List FeeLot → ℕ
  fee_numerator amount bank prior lots =
      sum_by age_charge lots
      + amount * pos_part (balance_surcharge_ppm bank)
      + (schedule (prior + amount) - schedule prior)

  -- For a withdrawal that lots of no negative amount cover, the fee is the age charge of each
  -- lot, the balance surcharge and the rolling surcharge by the cumulative schedule, summed and
  -- rounded up once.
  pub withdrawal_fee-eq_ceiling :
      (amount prior : ℕ) (bank : ℤ) (lots : List FeeLot)
      → All IsFunded lots
      → sum_by units lots ≡ amount
      → amount < i64_limit
      → prior < amount_limit - i64_limit
      → withdrawal_fee seconds_since (pos amount) bank (pos prior) lots now
        ≡ ok (pos ((fee_numerator amount bank prior lots + 999_999) / 1_000_000))
  unfolding withdrawal_fee
  withdrawal_fee-eq_ceiling amount prior bank lots f covered ha hp =
      let (s, e, hs) = balance_surcharge_ppm_bounds bank in
      let balance : amount * s ≤ amount * 600 = grind arith in
      let c : ℕ = sum_by age_charge lots in
      let age : c ≤ amount * 10_000 = rw (← covered) (age_charges-le lots) in
      let d : ℕ = schedule (prior + amount) - schedule prior in
      let rolling : d ≤ 500 * amount = schedule_step prior amount in
      rw (age_numerator_lem lots 0 f (omega arith)) (
        rw e (
          rw (mul_i128_pos arithmetic_overflow amount s (omega arith)) (
            rw (rolling_marginal_numerator-eq_schedule prior amount (omega arith))
              (total_charge c (amount * s) d (omega arith)))))

  -- A withdrawal of at least 500 that its lots cover always has a fee, of at least 0.12% and
  -- strictly below the amount, so the net amount is positive.
  pub withdrawal_fee-lt-amount :
      (amount prior : ℕ) (bank : ℤ) (lots : List FeeLot)
      → All IsFunded lots
      → sum_by units lots ≡ amount
      → 500 ≤ amount
      → amount < i64_limit
      → prior < amount_limit - i64_limit
      → (fee : ℕ) × (withdrawal_fee seconds_since (pos amount) bank (pos prior) lots now
          ≡ ok (pos fee))
        × (fee < amount)
        × (amount * 1_200 ≤ fee * 1_000_000)
  withdrawal_fee-lt-amount amount prior bank lots f covered minimum ha hp =
      let (s, e, hs) = balance_surcharge_ppm_bounds bank in
      let upper : fee_numerator amount bank prior lots ≤ amount * 11_100 = rw e (
        numerator-le (sum_by age_charge lots) amount s _ (rw (← covered) (age_charges-le lots)) hs
          (schedule_step prior amount)) in
      let lower : amount * 1_200 ≤ sum_by age_charge lots = rw (← covered) (age_charges-ge lots) in
      (
        (fee_numerator amount bank prior lots + 999_999) / 1_000_000,
        withdrawal_fee-eq_ceiling amount prior bank lots f covered ha hp,
        rounded-lt _ amount upper minimum,
        rounded-ge (sum_by age_charge lots) _ _ amount lower,
      )
