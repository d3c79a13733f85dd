-- ===== src/Economy/Interest/Allocation.antt =====
-- `allocate_interest_to_lots` of interest.rs: the largest-remainder shares, and the writes to the
-- lots.
use graphite_bot.Common.{
  ℕ, zero, suc, Bool, ◌&&◌, ◌||◌, Option, none, some, List, [], ◌∷◌, Result, ok, err, ◌>>=◌, ◌>>◌,
  ok_or, fail_if, if◌then◌else◌, ◌==◌, ltb, length,
}
use graphite_bot.Common.Int.{ℤ, pos, pos_part, ◌-ℤ◌, ◌*ℤ◌, ◌/ℤ◌, ◌%ℤ◌, ltb_ℤ, leb_ℤ, eqb_ℤ}
use graphite_bot.Common.Values.{Uuid}
use graphite_bot.Economy.Tables.{LotRow}
use graphite_bot.Economy.Interest.Tables.{
  BankInterestError, arithmetic_overflow, lot_integrity_mismatch, InterestLot,
}
use graphite_bot.Economy.Interest.Rate.{checked_add, narrow_64, narrow_128}

-- An index with its fractional part.
pub record Fraction : Type 0 where
  pub index : ℕ
  pub part : ℤ

pub record Shares : Type 0 where
  pub allocations : List ℤ
  pub fractional : List Fraction
  pub allocated : ℤ

-- The first loop, from an index and what is allocated so far.
unfoldable pub floor_shares : ℤ → ℤ → ℕ → ℤ → List InterestLot → Result BankInterestError Shares
floor_shares interest denominator index allocated [] =
    ok (record { allocations = []; fractional = []; allocated = allocated })
floor_shares interest denominator index allocated (lot ∷ lots) = do
  product ← narrow_128 (interest *ℤ lot.principal)
  share ← narrow_64 (product /ℤ denominator)
  allocated' ← checked_add allocated share
  rest ← floor_shares interest denominator (suc index) allocated' lots
  ok (record {
    allocations = share ∷ rest.allocations;
    fractional = record { index = index; part = product %ℤ denominator } ∷ rest.fractional;
    allocated = rest.allocated;
  })

-- The larger part first, and of equal parts the smaller index.
abbrev pub precedes : Fraction → Fraction → Bool
precedes left right =
    ltb_ℤ right.part left.part || (eqb_ℤ right.part left.part && ltb left.index right.index)

unfoldable pub insert_fraction : Fraction → List Fraction → List Fraction
insert_fraction f [] = f ∷ []
insert_fraction f (g ∷ gs) = if precedes f g then f ∷ g ∷ gs else g ∷ insert_fraction f gs

unfoldable pub sort_fractions : List Fraction → List Fraction
unfolding insert_fraction
sort_fractions [] = []
sort_fractions (f ∷ fs) = insert_fraction f (sort_fractions fs)

-- `allocations[index].checked_add(1)`; an index out of bounds does not occur.
unfoldable pub increment : ℕ → List ℤ → Result BankInterestError (List ℤ)
increment index [] = err arithmetic_overflow
increment zero (amount ∷ amounts) = do raised ← checked_add amount (pos 1); ok (raised ∷ amounts)
increment (suc index) (amount ∷ amounts) = do rest ← increment index amounts; ok (amount ∷ rest)

-- `fractional.into_iter().take(leftover)`.
unfoldable pub give_leftover : ℕ → List Fraction → List ℤ → Result BankInterestError (List ℤ)
unfolding increment
give_leftover zero fractions amounts = ok amounts
give_leftover (suc leftover) [] amounts = ok amounts
give_leftover (suc leftover) (f ∷ fs) amounts = do
  raised ← increment f.index amounts
  give_leftover leftover fs raised

-- The allocations: all of the function before its writes.
unfoldable pub allocate : ℤ → ℤ → List InterestLot → Result BankInterestError (List ℤ)
unfolding floor_shares sort_fractions give_leftover
allocate interest bank_before lots = do
  shares ← floor_shares interest bank_before 0 (pos 0) lots
  leftover ← narrow_64 (interest -ℤ shares.allocated)
  fail_if (ltb_ℤ leftover (pos 0)) arithmetic_overflow
  fail_if (ltb (length shares.fractional) (pos_part leftover)) arithmetic_overflow
  give_leftover (pos_part leftover) (sort_fractions shares.fractional) shares.allocations

-- `UPDATE bank_lots SET principal_remaining = $1 WHERE id = $2`; `none` when no row has the id.
unfoldable pub set_principal : Uuid → ℤ → List LotRow → Option (List LotRow)
set_principal id principal [] = none
set_principal id principal (row ∷ rows) =
    let rest = set_principal id principal rows in
    if row.id == id
    then some (record row { principal_remaining = principal } ∷ rows)
    else elim rest [ none ↦ none | some rows' ↦ some (row ∷ rows') ]

abbrev pub raise_lot : InterestLot → ℤ → InterestLot
raise_lot lot principal = record { id = lot.id; principal = principal }

-- The loop that raises the lots, in memory and in the table. `zip` ends with the shorter list.
unfoldable pub write_allocations :
    List InterestLot
    → List ℤ
    → List LotRow
    → Result BankInterestError (List InterestLot × List LotRow)
write_allocations [] amounts rows = ok ([], rows)
write_allocations (lot ∷ lots) [] rows = ok (lot ∷ lots, rows)
write_allocations (lot ∷ lots) (amount ∷ amounts) rows =
    let skipped = (do rest ← write_allocations lots amounts rows; ok (lot ∷ rest.0, rest.1)) in
    let raised = (do
      principal ← checked_add lot.principal amount
      next ← ok_or (set_principal lot.id principal rows) lot_integrity_mismatch
      rest ← write_allocations lots amounts next
      ok (raise_lot lot principal ∷ rest.0, rest.1)) in
    if eqb_ℤ amount (pos 0) then skipped else raised

unfoldable pub allocate_interest_to_lots :
    List InterestLot
    → ℤ
    → ℤ
    → List LotRow
    → Result BankInterestError (List InterestLot × List LotRow)
unfolding allocate write_allocations
allocate_interest_to_lots lots interest bank_before rows =
    let shared = (do
      fail_if (leb_ℤ bank_before (pos 0) || (length lots == 0)) lot_integrity_mismatch
      amounts ← allocate interest bank_before lots
      write_allocations lots amounts rows) in
    if leb_ℤ interest (pos 0) then ok (lots, rows) else shared
