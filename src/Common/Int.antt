-- ===== src/Common/Int.antt =====
-- Rust's signed integers. A value of `i64` or `i128` is an integer; the checked operations return
-- `none` when the exact result leaves the width, and `try_from` narrows. Division truncates
-- towards zero, as `/` and `%` do.
use Prim.Native.Nat.{ℕ, suc, ◌+◌, ◌-◌, ◌*◌, ◌/◌, ◌%◌, ◌≤◌, ◌<◌}
use mathlib.Core.Path.{◌≡◌, refl}
use mathlib.Core.Bool.{Bool, true, false}
use mathlib.Core.Option.{Option, none, some}
use native.Mathlib.Omega.{arith}
use graphite_bot.Common.Tests.{ltb, leb, ◌==◌, if◌then◌else◌}

-- `negsuc n` is -(n + 1).
pub data ℤ : Type 0 where
  pos : ℕ → ℤ
  negsuc : ℕ → ℤ

abbrev pub pos_part : ℤ → ℕ
pos_part (pos n) = n
pos_part (negsuc n) = 0

abbrev pub neg_part : ℤ → ℕ
neg_part (pos n) = 0
neg_part (negsuc n) = suc n

-- a - b, as an integer.
abbrev pub sub_ℕ : ℕ → ℕ → ℤ
sub_ℕ a b = if leb b a then pos (a - b) else negsuc (b - a - 1)

abbrev pub neg : ℤ → ℤ
neg a = sub_ℕ (neg_part a) (pos_part a)

infixl 65 ◌+ℤ◌ ◌-ℤ◌
infixl 70 ◌*ℤ◌ ◌/ℤ◌ ◌%ℤ◌
infix 50 ◌≤ℤ◌ ◌<ℤ◌
unfoldable pub ◌+ℤ◌ : ℤ → ℤ → ℤ
pos a +ℤ pos b = pos (a + b)
pos a +ℤ negsuc b = sub_ℕ a (suc b)
negsuc a +ℤ pos b = sub_ℕ b (suc a)
negsuc a +ℤ negsuc b = negsuc (a + suc b)

unfoldable pub ◌-ℤ◌ : ℤ → ℤ → ℤ
pos a -ℤ pos b = sub_ℕ a b
pos a -ℤ negsuc b = pos (a + suc b)
negsuc a -ℤ pos b = negsuc (a + b)
negsuc a -ℤ negsuc b = sub_ℕ b a

unfoldable pub ◌*ℤ◌ : ℤ → ℤ → ℤ
pos a *ℤ pos b = pos (a * b)
pos a *ℤ negsuc b = sub_ℕ 0 (a * suc b)
negsuc a *ℤ pos b = sub_ℕ 0 (suc a * b)
negsuc a *ℤ negsuc b = pos (suc a * suc b)

unfoldable pub ◌/ℤ◌ : ℤ → ℤ → ℤ
pos a /ℤ pos b = pos (a / b)
pos a /ℤ negsuc b = sub_ℕ 0 (a / suc b)
negsuc a /ℤ pos b = sub_ℕ 0 (suc a / b)
negsuc a /ℤ negsuc b = pos (suc a / suc b)

unfoldable pub ◌%ℤ◌ : ℤ → ℤ → ℤ
pos a %ℤ pos b = pos (a % b)
pos a %ℤ negsuc b = pos (a % suc b)
negsuc a %ℤ pos b = sub_ℕ 0 (suc a % b)
negsuc a %ℤ negsuc b = sub_ℕ 0 (suc a % suc b)

abbrev pub ◌≤ℤ◌ : ℤ → ℤ → Type 0
a ≤ℤ b = pos_part a + neg_part b ≤ pos_part b + neg_part a

abbrev pub ◌<ℤ◌ : ℤ → ℤ → Type 0
a <ℤ b = pos_part a + neg_part b < pos_part b + neg_part a

abbrev pub ltb_ℤ : ℤ → ℤ → Bool
ltb_ℤ (pos a) (pos b) = ltb a b
ltb_ℤ (pos a) (negsuc b) = false
ltb_ℤ (negsuc a) (pos b) = true
ltb_ℤ (negsuc a) (negsuc b) = ltb b a

abbrev pub leb_ℤ : ℤ → ℤ → Bool
leb_ℤ (pos a) (pos b) = leb a b
leb_ℤ (pos a) (negsuc b) = false
leb_ℤ (negsuc a) (pos b) = true
leb_ℤ (negsuc a) (negsuc b) = leb b a

abbrev pub eqb_ℤ : ℤ → ℤ → Bool
eqb_ℤ (pos a) (pos b) = a == b
eqb_ℤ (pos a) (negsuc b) = false
eqb_ℤ (negsuc a) (pos b) = false
eqb_ℤ (negsuc a) (negsuc b) = a == b

-- `Ord::min` and `Ord::max`.
abbrev pub min_ℤ : ℤ → ℤ → ℤ
min_ℤ a b = if leb_ℤ a b then a else b

abbrev pub max_ℤ : ℤ → ℤ → ℤ
max_ℤ a b = if leb_ℤ a b then b else a

-- The values from -2^63 to 2^63 - 1, and from -2^127 to 2^127 - 1.
abbrev pub fits_i64 : ℤ → Bool
fits_i64 (pos n) = ltb n 9223372036854775808
fits_i64 (negsuc n) = ltb n 9223372036854775808

abbrev pub fits_i128 : ℤ → Bool
fits_i128 (pos n) = ltb n 170141183460469231731687303715884105728
fits_i128 (negsuc n) = ltb n 170141183460469231731687303715884105728

-- `i64::try_from`, and the result of a checked operation at each width.
abbrev pub to_i64 : ℤ → Option ℤ
to_i64 a = if fits_i64 a then some a else none

abbrev pub to_i128 : ℤ → Option ℤ
to_i128 a = if fits_i128 a then some a else none

-- `u64::try_from`, and the result of a checked operation on `u64`.
abbrev pub to_u64 : ℤ → Option ℕ
to_u64 (pos n) = if ltb n 18446744073709551616 then some n else none
to_u64 (negsuc n) = none

pub +ℤ_parts :
    (a b : ℤ)
    → pos_part (a +ℤ b) + neg_part a + neg_part b ≡ neg_part (a +ℤ b) + pos_part a + pos_part b
unfolding ◌+ℤ◌
+ℤ_parts (pos a) (pos b) = omega arith
+ℤ_parts (pos a) (negsuc b) = ground arith
+ℤ_parts (negsuc a) (pos b) = ground arith
+ℤ_parts (negsuc a) (negsuc b) = omega arith

pub -ℤ_parts :
    (a b : ℤ)
    → pos_part (a -ℤ b) + neg_part a + pos_part b ≡ neg_part (a -ℤ b) + pos_part a + neg_part b
unfolding ◌-ℤ◌
-ℤ_parts (pos a) (pos b) = ground arith
-ℤ_parts (pos a) (negsuc b) = omega arith
-ℤ_parts (negsuc a) (pos b) = omega arith
-ℤ_parts (negsuc a) (negsuc b) = ground arith

pub eq_of_parts : (a b : ℤ) → pos_part a + neg_part b ≡ pos_part b + neg_part a → a ≡ b
eq_of_parts a b h = ground arith

pub ruleset int_laws = (arith, +ℤ_parts, -ℤ_parts, eq_of_parts)

pub add_swap : (a b c : ℤ) → a +ℤ b +ℤ c ≡ a +ℤ c +ℤ b
add_swap a b c =
    eq_of_parts (a +ℤ b +ℤ c) (a +ℤ c +ℤ b)
      (omega (arith, +ℤ_parts (a +ℤ b) c, +ℤ_parts a b, +ℤ_parts (a +ℤ c) b, +ℤ_parts a c))

pub add_into : (a b c : ℤ) → a +ℤ (b +ℤ c) ≡ a +ℤ c +ℤ b
add_into a b c =
    eq_of_parts (a +ℤ (b +ℤ c)) (a +ℤ c +ℤ b)
      (omega (arith, +ℤ_parts a (b +ℤ c), +ℤ_parts b c, +ℤ_parts (a +ℤ c) b, +ℤ_parts a c))

pub sub_swap : (a b c : ℤ) → a -ℤ b +ℤ c ≡ a +ℤ c -ℤ b
sub_swap a b c =
    eq_of_parts (a -ℤ b +ℤ c) (a +ℤ c -ℤ b)
      (omega (arith, +ℤ_parts (a -ℤ b) c, -ℤ_parts a b, -ℤ_parts (a +ℤ c) b, +ℤ_parts a c))

-- A checked result is the exact one.
pub to_i64_exact : (a : ℤ) {b : ℤ} → to_i64 a ≡ some b → b ≡ a
to_i64_exact a h = ground arith

pub zero_add : (a : ℤ) → pos 0 +ℤ a ≡ a
unfolding ◌+ℤ◌
zero_add a = ground arith

pub eqb_refl : (a : ℤ) → eqb_ℤ a a ≡ true
eqb_refl a = ground arith

pub eqb_sound : (a b : ℤ) → eqb_ℤ a b ≡ true → a ≡ b
eqb_sound a b h = ground arith

-- A value inside the width narrows to itself.
pub to_i128_pos :
    (n : ℕ) → n < 170141183460469231731687303715884105728 → to_i128 (pos n) ≡ some (pos n)
to_i128_pos n h = ground arith

pub to_i64_pos : (n : ℕ) → n < 9223372036854775808 → to_i64 (pos n) ≡ some (pos n)
to_i64_pos n h = ground arith

pub pos_of_nonneg : (a : ℤ) → pos 0 ≤ℤ a → a ≡ pos (pos_part a)
pos_of_nonneg (pos n) h = refl
pos_of_nonneg (negsuc n) h = absurd (omega arith)
