-- ===== src/Economy/Bank/Fifo.antt =====
-- Loading the debits of a withdrawal: which lots, and how much of each.
use graphite_bot.Common.{
  ℕ, ◌+◌, ◌-◌, ◌≤◌, ◌<◌, min, suc, zero, leb, subst, sym, ◌⊎◌, ◌≡◌, refl, none, some, List, [], ◌∷◌,
  ok, err, arith, All, inl, inr, if◌then◌else◌, Bool-cases, ◌∙◌, ap,
}
use graphite_bot.Common.Int.{ℤ, pos, pos_part, pos_of_nonneg, ◌≤ℤ◌, ◌-ℤ◌}
use native.Mathlib.Decide.{dec_le}
use graphite_bot.Economy.Errors.{lot_integrity_mismatch}
use graphite_bot.Common.Values.{Uuid}
use graphite_bot.Economy.Tables.{LotRow}
use graphite_bot.Economy.Bank.Lots.{
  LotDebit, debit_of, insert_ordered, select_lots, is_open, is_before, take_debits,
  load_fifo_lot_debits,
}
use graphite_bot.Economy.Bank.LotLaws.{
  owner, Distinct, Funded, lot_total, Owned, debit_units, ok_injective,
}

-- A row that a withdrawal of the player may debit.
abbrev pub Selected : Uuid → List LotRow → LotRow → Type 0
Selected player lots row = (pos 1 ≤ℤ row.principal_remaining) × (owner row.id lots ≡ some player)

All-insert_ordered :
    (player : Uuid) (all : List LotRow) (lot : LotRow) (rows : List LotRow)
    → Selected player all lot
    → All (Selected player all) rows
    → All (Selected player all) (insert_ordered lot rows)
unfolding insert_ordered
All-insert_ordered player all lot [] s a = (s, tt)
All-insert_ordered player all lot (x ∷ xs) s a = elim (Bool-cases (is_before lot x)) [
  | inl e ↦ rw e (s, a)
  | inr e ↦ rw e (a.0, All-insert_ordered player all lot xs s a.1)
]

widen :
    (player : Uuid) (lot : LotRow) (lots rows : List LotRow)
    → owner lot.id lots ≡ none
    → All (Selected player lots) rows
    → All (Selected player (lot ∷ lots)) rows
unfolding owner
widen player lot lots [] h a = tt
widen player lot lots (row ∷ rows) h a =
    ((a.0.0, ground (arith, a.0.1)), widen player lot lots rows h a.1)

pub select_lots-Selected :
    (player : Uuid) (lots : List LotRow)
    → Distinct lots
    → All (Selected player lots) (select_lots player lots)
unfolding select_lots
select_lots-Selected player [] d = tt
select_lots-Selected player (lot ∷ lots) d =
    let rest = widen player lot lots _ d.0 (select_lots-Selected player lots d.1) in
    elim (Bool-cases (is_open player lot)) [
      | inl e ↦
          rw e (All-insert_ordered player (lot ∷ lots) lot _ (unfold owner in ground arith) rest)
      | inr e ↦ rw e rest
    ]

-- The principal of a list of rows, whoever owns them.
unfoldable pub row_total : List LotRow → ℕ
row_total [] = 0
row_total (row ∷ rows) = pos_part row.principal_remaining + row_total rows

row_total-insert_ordered :
    (lot : LotRow) (rows : List LotRow)
    → row_total (insert_ordered lot rows) ≡ pos_part lot.principal_remaining + row_total rows
unfolding row_total insert_ordered
row_total-insert_ordered lot [] = refl
row_total-insert_ordered lot (x ∷ xs) = ground (arith, row_total-insert_ordered lot xs)

-- The open lots hold the player's whole principal.
pub row_total-select_lots :
    (player : Uuid) (lots : List LotRow)
    → All Funded lots
    → row_total (select_lots player lots) ≡ lot_total player lots
unfolding select_lots lot_total row_total
row_total-select_lots player [] f = refl
row_total-select_lots player (lot ∷ lots) f = ground (
  arith,
  row_total-insert_ordered lot (select_lots player lots),
  row_total-select_lots player lots f.1,
)

-- What the loop leaves over, what it takes, and from whom.
pub record Taken (player : Uuid) (lots rows : List LotRow) (n : ℕ) (debits : List LotDebit)
    (rest : ℤ) : Type 0 where
  pub remaining : rest ≡ pos (n - row_total rows)
  pub units : debit_units debits ≡ min n (row_total rows)
  pub owned : All (Owned player lots) debits

take_row :
    (row : LotRow) (rows : List LotRow) (n m : ℕ)
    → row.principal_remaining ≡ pos m
    → 1 ≤ m
    → 1 ≤ n
    → take_debits (row ∷ rows) (pos n) ≡ (
      debit_of row (pos (min m n)) ∷ (take_debits rows (pos (n - min m n))).0,
      (take_debits rows (pos (n - min m n))).1,
    )
unfolding take_debits ◌-ℤ◌
take_row row rows n m e hm hn = elim (dec_le m n) [
  | yes h ↦ rw (smaller m n h) (ground arith)
  | no h ↦ rw (larger m n h) (ground arith)
]
  where
    smaller : (m n : ℕ) → m ≤ n → min m n ≡ m
    smaller m n h = omega arith

    larger : (m n : ℕ) → ¬ (m ≤ n) → min m n ≡ n
    larger m n h = omega arith

take_nothing : (row : LotRow) (rows : List LotRow) → take_debits (row ∷ rows) (pos 0) ≡ ([], pos 0)
unfolding take_debits
take_nothing row rows = refl

pub take_debits-Taken :
    (player : Uuid) (lots rows : List LotRow) (n : ℕ)
    → All (Selected player lots) rows
    → Taken player lots rows n (take_debits rows (pos n)).0 (take_debits rows (pos n)).1
unfolding row_total
take_debits-Taken player lots [] n a =
    unfold take_debits in
    record { remaining = ap pos (omega arith); units = omega arith; owned = tt }
take_debits-Taken player lots (row ∷ rows) zero a =
    rw (take_nothing row rows)
      (record { remaining = ap pos (omega arith); units = omega arith; owned = tt })
take_debits-Taken player lots (row ∷ rows) (suc n) a =
    let m : ℕ = pos_part row.principal_remaining in
    let k : ℕ = suc n - min m (suc n) in
    let e : row.principal_remaining ≡ pos m = pos_of_nonneg _ (omega arith) in
    let ih = take_debits-Taken player lots rows k a.1 in
    rw (take_row row rows (suc n) m e (omega arith) (omega arith)) (record {
      remaining = ih.remaining ∙ ap pos (omega arith);
      units = omega (arith, ih.units);
      owned = ((omega arith, a.0.1), ih.owned);
    })

-- Loading succeeds exactly when the player's lots hold the amount.
load_fifo_lot_debits_lem :
    (player : Uuid) (n : ℕ) (lots : List LotRow)
    → Distinct lots
    → All Funded lots
    → load_fifo_lot_debits player (pos n) lots ≡ (
        if leb n (lot_total player lots)
        then ok (take_debits (select_lots player lots) (pos n)).0
        else err lot_integrity_mismatch)
unfolding load_fifo_lot_debits
load_fifo_lot_debits_lem player n lots d f =
    let t = take_debits-Taken player lots _ n (select_lots-Selected player lots d) in
    rw (t.remaining, row_total-select_lots player lots f) (ground arith)

-- When the lots of the player hold the amount, loading returns debits that add up to it, each a
-- positive part of a lot of that player; when they do not, it reports the mismatch.
pub load_fifo_lot_debits_cases :
    (player : Uuid) (n : ℕ) (lots : List LotRow)
    → Distinct lots
    → All Funded lots
    → ((n ≤ lot_total player lots)
        × (debits : List LotDebit) × (load_fifo_lot_debits player (pos n) lots ≡ ok debits)
        × All (Owned player lots) debits
        × (debit_units debits ≡ n))
      ⊎ ((lot_total player lots < n)
          × (load_fifo_lot_debits player (pos n) lots ≡ err lot_integrity_mismatch))
load_fifo_lot_debits_cases player n lots d f =
    let t = take_debits-Taken player lots _ n (select_lots-Selected player lots d) in
    let total = row_total-select_lots player lots f in
    let lem = load_fifo_lot_debits_lem player n lots d f in
    elim (dec_le n (lot_total player lots)) [
      | yes h ↦ inl (
        h,
        (take_debits (select_lots player lots) (pos n)).0,
        ground (arith, lem),
        t.owned,
        omega (arith, t.units, total),
      )
      | no h ↦ inr (omega arith, ground (arith, lem))
    ]

pub load_fifo_lot_debits-Owned :
    (player : Uuid) (n : ℕ) (lots : List LotRow) {debits : List LotDebit}
    → Distinct lots
    → All Funded lots
    → load_fifo_lot_debits player (pos n) lots ≡ ok debits
    → All (Owned player lots) debits × (debit_units debits ≡ n)
load_fifo_lot_debits-Owned player n lots {debits} d f h =
    elim (load_fifo_lot_debits_cases player n lots d f) [
      | inl (_, loaded, e, owned, units) ↦
          subst (λ l. All (Owned player lots) l × (debit_units l ≡ n)) (ok_injective (sym e ∙ h))
            (owned, units)
      | inr (_, e) ↦ absurd (cc e)
    ]
