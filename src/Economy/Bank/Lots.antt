-- ===== src/Economy/Bank/Lots.antt =====
-- `load_fifo_lot_debits` and `apply_lot_debits` of bank.rs.
use graphite_bot.Common.{
  Bool, ◌&&◌, ◌||◌, Option, none, some, List, [], ◌∷◌, Result, ok, err, ◌>>=◌, ok_or, if◌then◌else◌,
  ◌==◌, ltb, leb,
}
use graphite_bot.Common.Int.{ℤ, pos, ◌-ℤ◌, ltb_ℤ, leb_ℤ, eqb_ℤ, min_ℤ}
use graphite_bot.Common.Values.{Uuid, Timestamp}
use graphite_bot.Economy.Errors.{BankError, lot_integrity_mismatch}
use graphite_bot.Economy.Tables.{LotRow}

pub record LotDebit : Type 0 where
  pub id : Uuid
  pub amount : ℤ
  pub deposited_at : Timestamp

-- `ORDER BY deposited_at ASC, id ASC`.
abbrev pub is_before : LotRow → LotRow → Bool
is_before a b =
    ltb a.deposited_at b.deposited_at || ((a.deposited_at == b.deposited_at) && leb a.id b.id)

unfoldable pub insert_ordered : LotRow → List LotRow → List LotRow
insert_ordered lot [] = lot ∷ []
insert_ordered lot (x ∷ xs) = if is_before lot x then lot ∷ x ∷ xs else x ∷ insert_ordered lot xs

-- `WHERE player_id = $1 AND principal_remaining > 0 ORDER BY …`.
abbrev pub is_open : Uuid → LotRow → Bool
is_open player lot = (lot.player_id == player) && ltb_ℤ (pos 0) lot.principal_remaining

unfoldable pub select_lots : Uuid → List LotRow → List LotRow
unfolding insert_ordered
select_lots player [] = []
select_lots player (lot ∷ lots) =
    let rest = select_lots player lots in
    if is_open player lot then insert_ordered lot rest else rest

abbrev pub debit_of : LotRow → ℤ → LotDebit
debit_of row take = record { id = row.id; amount = take; deposited_at = row.deposited_at }

-- The loop: the debits, and what remains.
unfoldable pub take_debits : List LotRow → ℤ → List LotDebit × ℤ
take_debits [] remaining = ([], remaining)
take_debits (row ∷ rows) remaining =
    let take = min_ℤ row.principal_remaining remaining in
    let taken = take_debits rows (remaining -ℤ take) in
    let skipped = take_debits rows remaining in
    if eqb_ℤ remaining (pos 0)
    then ([], remaining)
    else if ltb_ℤ (pos 0) take
    then (debit_of row take ∷ taken.0, taken.1)
    else skipped

unfoldable pub load_fifo_lot_debits : Uuid → ℤ → List LotRow → Result BankError (List LotDebit)
unfolding select_lots take_debits
load_fifo_lot_debits player amount lots =
    let (debits, remaining) = take_debits (select_lots player lots) amount in
    if eqb_ℤ remaining (pos 0) then ok debits else err lot_integrity_mismatch

-- `UPDATE bank_lots SET principal_remaining = principal_remaining - $1
-- WHERE id = $2 AND principal_remaining >= $1`; `none` when no row fits.
unfoldable pub debit_lot : LotDebit → List LotRow → Option (List LotRow)
debit_lot debit [] = none
debit_lot debit (lot ∷ lots) =
    let rest = debit_lot debit lots in
    if (lot.id == debit.id) && leb_ℤ debit.amount lot.principal_remaining
    then some (record lot { principal_remaining = lot.principal_remaining -ℤ debit.amount } ∷ lots)
    else elim rest [ none ↦ none | some lots' ↦ some (lot ∷ lots') ]

unfoldable pub apply_lot_debits : List LotDebit → List LotRow → Result BankError (List LotRow)
apply_lot_debits [] lots = ok lots
apply_lot_debits (debit ∷ debits) lots = do
  next ← ok_or (debit_lot debit lots) lot_integrity_mismatch
  apply_lot_debits debits next
