-- ===== src/Economy/Fees/Rolling.antt =====
-- The rolling surcharge against a cumulative schedule.
use graphite_bot.Common.{ℕ, ◌+◌, ◌-◌, ◌*◌, ◌≤◌, ◌<◌, ◌≡◌, min, max, ok, ap, ◌∙◌, arith}
use graphite_bot.Common.Int.{pos, to_i128_pos, ◌+ℤ◌, ◌-ℤ◌, ◌*ℤ◌}
use graphite_bot.Economy.Fees.{rolling_marginal_numerator, segment_loop, segment_step, tail_step}

-- What the first `n` Money of a rolling day cost altogether, in millionths: nothing up to 100,000,
-- then 100, 250 and 500 ppm.
abbrev pub schedule : ℕ → ℕ
schedule n =
    100 * (min n 1_000_000 - 100_000)
    + 250 * (min n 10_000_000 - 1_000_000)
    + 500 * (n - 10_000_000)

-- 2^110, far above any sum of `i64` amounts that a database can hold.
abbrev pub amount_limit : ℕ
amount_limit = 1_298_074_214_633_706_907_132_624_082_305_024

segment_step_lem :
    (p e n a b r : ℕ)
    → n + (min e b - max p a) * r < 170141183460469231731687303715884105728
    → segment_step (pos p) (pos e) (pos n) (record { start = pos a; stop = pos b; rate = pos r })
      ≡ ok (pos (n + (min e b - max p a) * r))
unfolding segment_step ◌+ℤ◌ ◌-ℤ◌ ◌*ℤ◌
segment_step_lem p e n a b r h = ground arith

-- The first segment is free.
free_segment_lem :
    (p e n : ℕ)
    → n < 170141183460469231731687303715884105728
    → segment_step
        (pos p)
        (pos e)
        (pos n)
        (record { start = pos 0; stop = pos 100_000; rate = pos 0 })
      ≡ ok (pos n)
unfolding segment_step ◌+ℤ◌ ◌-ℤ◌ ◌*ℤ◌
free_segment_lem p e n h = ground arith

tail_step_lem :
    (p e n : ℕ)
    → n + (e - max p 10_000_000) * 500 < 170141183460469231731687303715884105728
    → tail_step (pos p) (pos e) (pos n) ≡ ok (pos (n + (e - max p 10_000_000) * 500))
unfolding tail_step ◌+ℤ◌ ◌-ℤ◌ ◌*ℤ◌
tail_step_lem p e n h = ground arith

overlap-add :
    (p a lo hi : ℕ) → lo ≤ hi → min (p + a) hi - max p lo + (min p hi - lo) ≡ min (p + a) hi - lo
overlap-add p a lo hi h = omega arith

tail-add : (p a lo : ℕ) → p + a - max p lo + (p - lo) ≡ p + a - lo
tail-add p a lo = omega arith

zero-add_assoc : (x y z : ℕ) → 0 + x + y + z ≡ x + y + z
zero-add_assoc x y z = omega arith

combine :
    (x y z o₁ o₂ o₃ u v w : ℕ)
    → o₁ + u ≡ x
    → o₂ + v ≡ y
    → o₃ + w ≡ z
    → o₁ * 100 + o₂ * 250 + o₃ * 500 ≡ 100 * x + 250 * y + 500 * z - (100 * u + 250 * v + 500 * w)
combine x y z o₁ o₂ o₃ u v w p q r = omega arith

-- The two charged segments and the tail make up the difference of the schedule.
schedule_parts :
    (p a : ℕ)
    → (min (p + a) 1_000_000 - max p 100_000) * 100
        + (min (p + a) 10_000_000 - max p 1_000_000) * 250
        + (p + a - max p 10_000_000) * 500
      ≡ schedule (p + a) - schedule p
schedule_parts p a =
    combine _ _ _ _ _ _ _ _ _ (overlap-add p a 100_000 1_000_000 (omega arith))
      (overlap-add p a 1_000_000 10_000_000 (omega arith)) (tail-add p a 10_000_000)

overlaps-le :
    (p a : ℕ)
    → min (p + a) 1_000_000
        - max p 100_000
        + (min (p + a) 10_000_000 - max p 1_000_000)
        + (p + a - max p 10_000_000)
      ≤ a
overlaps-le p a = grind arith

weighted : (x y z a : ℕ) → x + y + z ≤ a → x * 100 + y * 250 + z * 500 ≤ 500 * a
weighted x y z a h = omega arith

-- No Money costs more than 500 ppm.
pub schedule_step : (p a : ℕ) → schedule (p + a) - schedule p ≤ 500 * a
schedule_step p a = rw (← schedule_parts p a) (weighted _ _ _ a (overlaps-le p a))

-- For a rolling total and an amount that are not negative, the surcharge is the difference of the
-- cumulative schedule at the two ends.
pub rolling_marginal_numerator-eq_schedule :
    (p a : ℕ)
    → p + a < amount_limit
    → rolling_marginal_numerator (pos p) (pos a) ≡ ok (pos (schedule (p + a) - schedule p))
unfolding rolling_marginal_numerator segment_loop ◌+ℤ◌
rolling_marginal_numerator-eq_schedule p a h =
    let o₂ : ℕ = (min (p + a) 1_000_000 - max p 100_000) * 100 in
    let o₃ : ℕ = (min (p + a) 10_000_000 - max p 1_000_000) * 250 in
    rw (to_i128_pos (p + a) (omega arith)) (
      rw (free_segment_lem p (p + a) 0 (omega arith)) (
        rw (segment_step_lem p (p + a) 0 100_000 1_000_000 100 (omega arith)) (
          rw (segment_step_lem p (p + a) (0 + o₂) 1_000_000 10_000_000 250 (omega arith)) (
            rw (tail_step_lem p (p + a) (0 + o₂ + o₃) (omega arith))
              (ap (λ n. ok (pos n)) (zero-add_assoc o₂ o₃ _ ∙ schedule_parts p a))))))
