-- ===== src/Economy/Fees/Split.antt =====
-- The rolling surcharge of a withdrawal made in two parts.
use graphite_bot.Common.{ℕ, ◌+◌, ◌-◌, ◌<◌, ◌≤◌, ◌≡◌, ok, arith, ap, ◌∙◌}
use graphite_bot.Common.Int.{pos}
use graphite_bot.Economy.Fees.{rolling_marginal_numerator}
use graphite_bot.Economy.Fees.Rolling.{
  schedule, amount_limit, rolling_marginal_numerator-eq_schedule,
}

schedule_mono : (p a : ℕ) → schedule p ≤ schedule (p + a)
schedule_mono p a = grind arith

telescope : (x y z : ℕ) → x ≤ y → y ≤ z → z - x ≡ y - x + (z - y)
telescope x y z h k = omega arith

-- Splitting a withdrawal in two within one rolling day changes nothing: the surcharge of the
-- whole is the surcharge of the first part plus that of the second part on top of it.
pub rolling_marginal_numerator_split :
    (p a b : ℕ)
    → p + a + b < amount_limit
    → (x y : ℕ) × (rolling_marginal_numerator (pos p) (pos a) ≡ ok (pos x))
      × (rolling_marginal_numerator (pos (p + a)) (pos b) ≡ ok (pos y))
      × (rolling_marginal_numerator (pos p) (pos (a + b)) ≡ ok (pos (x + y)))
rolling_marginal_numerator_split p a b h =
    let assoc : p + (a + b) ≡ p + a + b = omega arith in
    (
      schedule (p + a) - schedule p,
      schedule (p + a + b) - schedule (p + a),
      rolling_marginal_numerator-eq_schedule p a (omega arith),
      rolling_marginal_numerator-eq_schedule (p + a) b h,
      rolling_marginal_numerator-eq_schedule p (a + b) (omega arith)
          ∙ ap (λ n. ok (pos (schedule n - schedule p))) assoc
          ∙ ap (λ n. ok (pos n))
              (telescope (schedule p) (schedule (p + a)) (schedule (p + a + b)) (schedule_mono p a)
                (schedule_mono (p + a) b)),
    )
