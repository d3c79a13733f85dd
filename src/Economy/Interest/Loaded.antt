-- ===== src/Economy/Interest/Loaded.antt =====
-- Loading a player's open lots: the memory that the days start from mirrors the table.
use graphite_bot.Common.{
  ◌≡◌, ◌≢◌, refl, sym, ◌∙◌, none, some, List, [], ◌∷◌, arith, All, Bool-cases, inl, inr,
}
use graphite_bot.Common.Int.{pos, ◌≤ℤ◌}
use graphite_bot.Common.Values.{Uuid}
use graphite_bot.Economy.Tables.{LotRow}
use graphite_bot.Economy.Bank.Lots.{is_open, is_before, insert_ordered, select_lots}
use graphite_bot.Economy.Bank.LotLaws.{owner, Distinct, Funded}
use graphite_bot.Economy.Bank.Fifo.{row_total, row_total-select_lots}
use graphite_bot.Economy.Interest.Exact.{principal_total, HasPrincipal}
use graphite_bot.Economy.Interest.LotWrites.{holding}
use graphite_bot.Economy.Interest.Written.{Holds, Apart, Separate}
use graphite_bot.Economy.Interest.Raised.{Mirrored}
use graphite_bot.Economy.Interest.Accrual.{interest_lots, load_interest_lots}

-- An open row, as the table has it.
abbrev Open : Uuid → List LotRow → LotRow → Type 0
Open player lots row =
    (pos 0 ≤ℤ row.principal_remaining)
    × (holding row.id lots ≡ some (player, row.principal_remaining))

abbrev ApartRow : Uuid → LotRow → Type 0
ApartRow id row = row.id ≢ id

abbrev SeparateRows : List LotRow → Type 0
SeparateRows [] = Unit
SeparateRows (row ∷ rows) = All (ApartRow row.id) rows × SeparateRows rows

insert_ordered-All {κ} :
    (P : LotRow → Type κ) (lot : LotRow) (rows : List LotRow)
    → P lot
    → All P rows
    → All P (insert_ordered lot rows)
unfolding insert_ordered
insert_ordered-All P lot [] h a = (h, tt)
insert_ordered-All P lot (x ∷ xs) h a = elim (Bool-cases (is_before lot x)) [
  | inl e ↦ rw e (h, a)
  | inr e ↦ rw e (a.0, insert_ordered-All P lot xs h a.1)
]

insert_ordered-Separate :
    (lot : LotRow) (rows : List LotRow)
    → All (ApartRow lot.id) rows
    → SeparateRows rows
    → SeparateRows (insert_ordered lot rows)
unfolding insert_ordered
insert_ordered-Separate lot [] a s = (tt, tt)
insert_ordered-Separate lot (x ∷ xs) a s = elim (Bool-cases (is_before lot x)) [
  | inl e ↦ rw e (a, s)
  | inr e ↦ rw e (
    insert_ordered-All (ApartRow x.id) lot xs (λ same. a.0 (sym same)) s.0,
    insert_ordered-Separate lot xs a.1 s.1,
  )
]

-- A new row in front changes nothing for rows of other ids.
Open-widen :
    (player : Uuid) (lot : LotRow) (lots rows : List LotRow)
    → All (ApartRow lot.id) rows
    → All (Open player lots) rows
    → All (Open player (lot ∷ lots)) rows
unfolding holding
Open-widen player lot lots [] s a = tt
Open-widen player lot lots (row ∷ rows) s a =
    ((a.0.0, ground (arith, s.0, a.0.1)), Open-widen player lot lots rows s.1 a.1)

-- Rows that the table has are apart from an id that it lacks.
select_lots-Apart :
    (player id : Uuid) (lots : List LotRow)
    → owner id lots ≡ none
    → All (ApartRow id) (select_lots player lots)
unfolding select_lots owner
select_lots-Apart player id [] o = tt
select_lots-Apart player id (lot ∷ lots) o =
    let apart : lot.id ≢ id = ground arith in
    let rest = select_lots-Apart player id lots (ground arith) in
    elim (Bool-cases (is_open player lot)) [
      | inl e ↦ rw e (insert_ordered-All (ApartRow id) lot (select_lots player lots) apart rest)
      | inr e ↦ rw e rest
    ]

select_lots-Separate :
    (player : Uuid) (lots : List LotRow) → Distinct lots → SeparateRows (select_lots player lots)
unfolding select_lots
select_lots-Separate player [] d = tt
select_lots-Separate player (lot ∷ lots) d = elim (Bool-cases (is_open player lot)) [
  | inl e ↦ rw e (
      insert_ordered-Separate lot (select_lots player lots)
        (select_lots-Apart player lot.id lots d.0) (select_lots-Separate player lots d.1))
  | inr e ↦ rw e (select_lots-Separate player lots d.1)
]

select_lots-Open :
    (player : Uuid) (lots : List LotRow)
    → Distinct lots
    → All (Open player lots) (select_lots player lots)
unfolding select_lots
select_lots-Open player [] d = tt
select_lots-Open player (lot ∷ lots) d =
    let rest =
      Open-widen player lot lots (select_lots player lots)
        (select_lots-Apart player lot.id lots d.0) (select_lots-Open player lots d.1) in
    elim (Bool-cases (is_open player lot)) [
      | inl e ↦ rw e (
          insert_ordered-All (Open player (lot ∷ lots)) lot (select_lots player lots)
            (unfold holding in (ground arith, ground arith)) rest)
      | inr e ↦ rw e rest
    ]

interest_lots-Holds :
    (player : Uuid) (lots rows : List LotRow)
    → All (Open player lots) rows
    → All HasPrincipal (interest_lots rows) × All (Holds player lots) (interest_lots rows)
unfolding interest_lots
interest_lots-Holds player lots [] a = (tt, tt)
interest_lots-Holds player lots (row ∷ rows) a =
    let rest = interest_lots-Holds player lots rows a.1 in ((a.0.0, rest.0), (a.0.1, rest.1))

interest_lots-Apart :
    (id : Uuid) (rows : List LotRow) → All (ApartRow id) rows → All (Apart id) (interest_lots rows)
unfolding interest_lots
interest_lots-Apart id [] a = tt
interest_lots-Apart id (row ∷ rows) a = (a.0, interest_lots-Apart id rows a.1)

interest_lots-Separate : (rows : List LotRow) → SeparateRows rows → Separate (interest_lots rows)
unfolding interest_lots
interest_lots-Separate [] s = tt
interest_lots-Separate (row ∷ rows) s =
    (interest_lots-Apart row.id rows s.0, interest_lots-Separate rows s.1)

principal_total-interest_lots :
    (rows : List LotRow) → principal_total (interest_lots rows) ≡ row_total rows
unfolding interest_lots row_total
principal_total-interest_lots [] = refl
principal_total-interest_lots (row ∷ rows) = omega (arith, principal_total-interest_lots rows)

pub load_interest_lots-Mirrored :
    (player : Uuid) (lots : List LotRow)
    → Distinct lots
    → All Funded lots
    → Mirrored player (load_interest_lots player lots) lots
unfolding load_interest_lots
load_interest_lots-Mirrored player lots d f =
    let rows = select_lots player lots in
    let held = interest_lots-Holds player lots rows (select_lots-Open player lots d) in
    record {
      distinct = d;
      funded = f;
      principals = held.0;
      held = held.1;
      separate = interest_lots-Separate rows (select_lots-Separate player lots d);
      memory = principal_total-interest_lots rows ∙ row_total-select_lots player lots f;
    }
