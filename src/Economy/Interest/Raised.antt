-- ===== src/Economy/Interest/Raised.antt =====
-- One day's interest in the lots, and the credit that a row in range earns.
use graphite_bot.Common.{ℕ, ◌+◌, ◌<◌, ◌≡◌, ◌≢◌, List, [], ◌∷◌, ok, arith, All}
use graphite_bot.Common.Int.{ℤ, pos, negsuc, pos_part, ◌≤ℤ◌, ◌<ℤ◌, pos_of_nonneg}
use graphite_bot.Common.Checked.{i64_limit}
use graphite_bot.Common.Values.{Uuid}
use graphite_bot.Economy.Tables.{LotRow}
use graphite_bot.Economy.Bank.LotLaws.{Distinct, Funded, lot_total}
use graphite_bot.Economy.Interest.Tables.{InterestPlayer, InterestLot}
use graphite_bot.Economy.Interest.Rate.{calculate_daily_interest, interest_denominator_q32}
use graphite_bot.Economy.Interest.Allocation.{allocate_interest_to_lots}
use graphite_bot.Economy.Interest.Daily.{calculate_daily_interest-IsExactDay}
use graphite_bot.Economy.Interest.Exact.{total, principal_total, HasPrincipal, allocate-Exact}
use graphite_bot.Economy.Interest.Written.{Holds, Separate, Written, write_allocations-Written}

-- The lots in memory against the table.
pub record Mirrored (player : Uuid) (lots : List InterestLot) (rows : List LotRow) : Type 0 where
  pub distinct : Distinct rows
  pub funded : All Funded rows
  pub principals : All HasPrincipal lots
  pub held : All (Holds player rows) lots
  pub separate : Separate lots
  pub memory : principal_total lots ≡ lot_total player rows

-- Interest of `c` in the player's lots, and nothing in anybody else's.
pub record Raised (player : Uuid) (c : ℕ) (rows : List LotRow) (lots' : List InterestLot)
    (rows' : List LotRow) : Type 0 where
  pub mirrored : Mirrored player lots' rows'
  pub own : lot_total player rows' ≡ lot_total player rows + c
  pub others : (other : Uuid) → player ≢ other → lot_total other rows' ≡ lot_total other rows

Written-Raised :
    (player : Uuid) (c : ℕ) (lots : List InterestLot) (ns : List ℕ) (rows : List LotRow)
    (lots' : List InterestLot) (rows' : List LotRow)
    → total ns ≡ c
    → Mirrored player lots rows
    → Written player lots ns rows lots' rows'
    → Raised player c rows lots' rows'
Written-Raised player c lots ns rows lots' rows' e m w = record {
  mirrored = record {
    distinct = w.distinct;
    funded = w.funded;
    principals = w.principals;
    held = w.held;
    separate = w.separate;
    memory = omega (arith, w.memory, w.own, m.memory);
  };
  own = omega (arith, w.own);
  others = w.others;
}

-- Interest on a positive balance is written whole, if the new balance stays in the width.
pub allocate_interest_to_lots-Raised :
    (player : Uuid) (c : ℕ) (lots : List InterestLot) (rows : List LotRow)
    → 0 < c
    → 0 < lot_total player rows
    → lot_total player rows + c < i64_limit
    → Mirrored player lots rows
    → (lots' : List InterestLot) × (rows' : List LotRow) × (allocate_interest_to_lots lots
          (pos c)
          (pos (lot_total player rows))
          rows
        ≡ ok (lots', rows'))
      × Raised player c rows lots' rows'
unfolding allocate_interest_to_lots
allocate_interest_to_lots-Raised player c [] rows h k b m = absurd (omega (arith, m.memory))
allocate_interest_to_lots-Raised player c (lot ∷ lots) rows h k b m =
    let all = lot ∷ lots in
    let shares =
      allocate-Exact c (lot_total player rows) all k (omega arith) (omega arith) m.principals
        m.memory in
    let written =
      write_allocations-Written player all shares.0 rows shares.2 m.distinct m.funded m.principals
        m.held m.separate (omega (arith, m.memory, shares.3)) in
    (
      written.0,
      written.1,
      rw (shares.1, written.2) (ground arith),
      Written-Raised player c all shares.0 rows written.0 written.1 shares.3 m written.3,
    )

-- What the database's checks promise of a player's row, with the balance that its lots hold.
pub record InRange (bank : ℕ) (player : InterestPlayer) : Type 0 where
  pub bank_eq : player.bank ≡ pos bank
  pub bank_lt : bank < i64_limit
  pub rebirth : pos 0 ≤ℤ player.rebirth_count
  pub remainder : pos 0 ≤ℤ player.remainder_q32
  pub remainder_lt : player.remainder_q32 <ℤ interest_denominator_q32

part_lt : (a : ℤ) → pos 0 ≤ℤ a → a <ℤ interest_denominator_q32 → pos_part a < 4_294_967_296_000_000
part_lt (pos n) h k = omega arith
part_lt (negsuc n) h k = omega arith

pub day_interest :
    {bank : ℕ} (player : InterestPlayer)
    → InRange bank player
    → (c next : ℕ) × (calculate_daily_interest player.bank player.rebirth_count player.remainder_q32
        ≡ ok (pos c, pos next))
      × (next < 4_294_967_296_000_000)
day_interest {bank} player r =
    let d =
      calculate_daily_interest-IsExactDay bank (pos_part player.rebirth_count)
        (pos_part player.remainder_q32) r.bank_lt
        (part_lt player.remainder_q32 r.remainder r.remainder_lt) in
    (
      d.credit,
      d.next,
      rw
          (
            r.bank_eq,
            pos_of_nonneg player.rebirth_count r.rebirth,
            pos_of_nonneg player.remainder_q32 r.remainder,
          )
          d.computed,
      d.next_lt,
    )
