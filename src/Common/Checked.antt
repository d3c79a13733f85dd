-- ===== src/Common/Checked.antt =====
-- Checked arithmetic on values that are not negative: inside the width it is that of ℕ.
use Prim.Native.Nat.{ℕ, ◌+◌, ◌-◌, ◌*◌, ◌≤◌, ◌<◌}
use mathlib.Core.Path.{◌≡◌}
use native.Mathlib.Omega.{arith}
use graphite_bot.Common.Outcome.{ok, ok_or}
use graphite_bot.Common.Int.{pos, ◌+ℤ◌, ◌-ℤ◌, ◌*ℤ◌, to_i64, to_i128}

abbrev pub i64_limit : ℕ
i64_limit = 9223372036854775808

abbrev pub i128_limit : ℕ
i128_limit = 170141183460469231731687303715884105728

module _ {E : Type 0} (e : E) (a b : ℕ) where
  pub add_i128_pos : a + b < i128_limit → ok_or (to_i128 (pos a +ℤ pos b)) e ≡ ok (pos (a + b))
  unfolding ◌+ℤ◌
  add_i128_pos h = ground arith

  pub mul_i128_pos : a * b < i128_limit → ok_or (to_i128 (pos a *ℤ pos b)) e ≡ ok (pos (a * b))
  unfolding ◌*ℤ◌
  mul_i128_pos h = ground arith

  pub add_i64_pos : a + b < i64_limit → ok_or (to_i64 (pos a +ℤ pos b)) e ≡ ok (pos (a + b))
  unfolding ◌+ℤ◌
  add_i64_pos h = ground arith

  pub mul_i64_pos : a * b < i64_limit → ok_or (to_i64 (pos a *ℤ pos b)) e ≡ ok (pos (a * b))
  unfolding ◌*ℤ◌
  mul_i64_pos h = ground arith

  pub sub_i64_pos : b ≤ a → a < i64_limit → ok_or (to_i64 (pos a -ℤ pos b)) e ≡ ok (pos (a - b))
  unfolding ◌-ℤ◌
  sub_i64_pos h k = ground arith
