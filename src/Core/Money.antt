-- ===== src/Core/Money.antt =====
-- crates/graphite-core/src/money.rs: amounts that are not negative, and
-- crates/graphite-services/src/percentage_fee.rs, which rounds their percentages up.
pub mod Exact
use graphite_bot.Common.{
  ℕ, ◌*◌, Option, none, some, Result, ok, err, ◌>>=◌, ◌>>◌, ok_or, fail_if, if◌then◌else◌, ltb,
}
use graphite_bot.Common.Int.{ℤ, pos, ◌+ℤ◌, ◌-ℤ◌, ◌*ℤ◌, ◌/ℤ◌, ltb_ℤ, to_i64, to_i128}

pub record Money : Type 0 where
  pub amount : ℤ

pub data MoneyError : Type 0 where
  negative overflow insufficient : MoneyError

abbrev pub money : ℤ → Money
money value = record { amount = value }

-- `Money::new`.
unfoldable pub new_money : ℤ → Result MoneyError Money
new_money value = if ltb_ℤ value (pos 0) then err negative else ok (money value)

-- The sum of two 64-bit values cannot leave 128 bits.
unfoldable pub checked_add : Money → Money → Result MoneyError Money
unfolding new_money
checked_add a b = do value ← ok_or (to_i64 (a.amount +ℤ b.amount)) overflow; new_money value

unfoldable pub checked_sub : Money → Money → Result MoneyError Money
unfolding new_money
checked_sub a b =
    if ltb_ℤ a.amount b.amount then err insufficient else new_money (a.amount -ℤ b.amount)

unfoldable pub ceil_basis_points : Money → ℕ → Result MoneyError Money
unfolding new_money
ceil_basis_points a basis_points = do
  numerator ← ok_or (to_i128 (a.amount *ℤ pos basis_points)) overflow
  raised ← ok_or (to_i128 (numerator +ℤ pos 9_999)) overflow
  value ← ok_or (to_i64 (raised /ℤ pos 10_000)) overflow
  new_money value

abbrev pub amount_of : Result MoneyError Money → Option ℤ
amount_of (ok m) = some m.amount
amount_of (err e) = none

-- `percent` is a `u8`, so its basis points fit 32 bits.
unfoldable pub checked_ceil_percentage : ℤ → ℕ → Option ℤ
checked_ceil_percentage value percent =
    amount_of (new_money value >>= λ m. ceil_basis_points m (percent * 100))
