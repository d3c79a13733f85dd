-- ===== src/Common/FixedPoint.antt =====
-- The fixed-point power with 32 fractional bits that crates/graphite-economy/src/interest.rs and
-- crates/graphite-progression/src/progression.rs both contain, each with its own overflow error.
use graphite_bot.Common.Tests.{ltb, ◌==◌, if◌then◌else◌, Bool-cases}
use Prim.Native.Nat.{ℕ, zero, suc, ◌+◌, ◌*◌, ◌/◌, ◌%◌, ◌≤◌, ◌<◌}
use mathlib.Core.Path.{◌≡◌, refl}
use mathlib.Core.Logic.{inl, inr}
use mathlib.Core.Bool.{Bool, true, false}
use native.Mathlib.Omega.{arith}
use graphite_bot.Common.Outcome.{Result, ok, err, ◌>>=◌, ok_or}
use graphite_bot.Common.Int.{ℤ, pos, ◌+ℤ◌, ◌*ℤ◌, ◌/ℤ◌, to_i128}
use graphite_bot.Common.Checked.{add_i128_pos, mul_i128_pos}

abbrev pub q32_one : ℤ
q32_one = pos 4_294_967_296

-- `e` is the error of an overflow.
module _ {E : Type 0} (e : E) where
  unfoldable pub q32_mul : ℤ → ℤ → Result E ℤ
  q32_mul left right = do
    product ← ok_or (to_i128 (left *ℤ right)) e
    raised ← ok_or (to_i128 (product +ℤ q32_one /ℤ pos 2)) e
    ok (raised /ℤ q32_one)

  -- The loop of `q32_pow`, on fuel: out of fuel it reports an overflow.
  unfoldable pub q32_loop : ℕ → ℤ → ℕ → ℤ → Result E ℤ
  q32_loop zero base exponent result = err e
  q32_loop (suc fuel) base exponent result =
      let round = (do
        result' ← if exponent % 2 == 1 then q32_mul result base else ok result
        base' ← if ltb 0 (exponent / 2) then q32_mul base base else ok base
        q32_loop fuel base' (exponent / 2) result') in
      if exponent == 0 then ok result else round

  -- Each round halves the exponent, so there are at most `exponent` rounds and the final test.
  unfoldable pub q32_pow : ℤ → ℕ → Result E ℤ
  unfolding q32_loop
  q32_pow base exponent = q32_loop (suc exponent) base exponent q32_one

abbrev pub one : ℕ
one = 4_294_967_296

square_bound : (a b : ℕ) → a ≤ one → b ≤ one → a * b ≤ 18_446_744_073_709_551_616
square_bound a b h k = grind arith

module _ {E : Type 0} (e : E) where
  q32_mul_bounds :
      (a b : ℕ) → a ≤ one → b ≤ one → (r : ℕ) × (q32_mul e (pos a) (pos b) ≡ ok (pos r)) × (r ≤ one)
  unfolding q32_mul ◌/ℤ◌
  q32_mul_bounds a b h k =
      let bound = square_bound a b h k in
      (
        (a * b + 2_147_483_648) / 4_294_967_296,
        ground (arith, mul_i128_pos e a b, add_i128_pos e (a * b) 2_147_483_648),
        omega arith,
      )

  step_bounds :
      (test : Bool) (a b : ℕ)
      → a ≤ one
      → b ≤ one
      → (r : ℕ) × ((if test then q32_mul e (pos a) (pos b) else ok (pos a)) ≡ ok (pos r))
        × (r ≤ one)
  step_bounds true a b h k = q32_mul_bounds a b h k
  step_bounds false a b h k = (a, refl, h)

  -- Enough fuel gives a result, and it stays at most one.
  q32_loop_bounds :
      (fuel base exponent result : ℕ)
      → exponent < fuel
      → base ≤ one
      → result ≤ one
      → (r : ℕ) × (q32_loop e fuel (pos base) exponent (pos result) ≡ ok (pos r)) × (r ≤ one)
  unfolding q32_loop
  q32_loop_bounds zero base exponent result h b k = absurd (omega arith)
  q32_loop_bounds (suc fuel) base exponent result h b k = elim (Bool-cases (exponent == 0)) [
    | inl last ↦ (result, rw last, k)
    | inr more ↦
        let next = step_bounds (exponent % 2 == 1) result base k b in
        let square = step_bounds (ltb 0 (exponent / 2)) base base b b in
        let rest =
          q32_loop_bounds fuel square.0 (exponent / 2) next.0 (ground arith) square.2 next.2 in
        (rest.0, rw (more, next.1, square.1) rest.1, rest.2)
  ]

  -- The power of a base that is at most one needs no more fuel than it has, and stays at most one.
  pub q32_pow_bounds :
      (base exponent : ℕ)
      → base ≤ one
      → (r : ℕ) × (q32_pow e (pos base) exponent ≡ ok (pos r)) × (r ≤ one)
  unfolding q32_pow
  q32_pow_bounds base exponent h =
      q32_loop_bounds (suc exponent) base exponent one (omega arith) h (omega arith)
