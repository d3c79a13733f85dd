-- ===== src/Economy/Bank/Invariant.antt =====
-- The invariant of the Bank tables: lot ids are distinct, no lot and no Wallet is negative, and the
-- materialized Bank balance of every player is the sum of that player's lots.
use graphite_bot.Common.{
  ℕ, ◌+◌, ◌≡◌, ◌≢◌, refl, ◌∙◌, ap, none, some, List, [], ◌∷◌, ok, arith, All, inl, inr, ◌==◌,
  Bool-cases, if◌then◌else◌, subst, sym, false,
}
use graphite_bot.Common.Int.{ℤ, pos, pos_part, ◌≤ℤ◌, ◌+ℤ◌, ◌-ℤ◌, ltb_ℤ, leb_ℤ}
use graphite_bot.Common.Values.{Uuid, Timestamp}
use graphite_bot.Economy.Tables.{PlayerRow, LotRow, BankMutationReceipt, Db, Draws}
use graphite_bot.Economy.Bank.{settle_deposit, settle_withdrawal}
use graphite_bot.Economy.Bank.Lots.{LotDebit}
use graphite_bot.Economy.Bank.LotLaws.{owner, Distinct, Funded, lot_total, apply_lot_debits-Debited}
use graphite_bot.Economy.Bank.Fifo.{load_fifo_lot_debits-Owned}
use graphite_bot.Economy.Bank.Updates.{find_player, set_balances}
use graphite_bot.Economy.Bank.Steps.{Deposited, deposit_lot, settle_deposit_inv}
use graphite_bot.Economy.Bank.WithdrawalSteps.{Withdrawn, settle_withdrawal_inv}

abbrev pub Backed : List LotRow → PlayerRow → Type 0
Backed lots row = (pos 0 ≤ℤ row.wallet) × (row.bank ≡ pos (lot_total row.id lots))

pub record IsSound (lots : List LotRow) (players : List PlayerRow) : Type 0 where
  pub distinct : Distinct lots
  pub funded : All Funded lots
  pub backed : All (Backed lots) players

pub find_player-Backed :
    (user : ℤ) (lots : List LotRow) (rows : List PlayerRow) {row : PlayerRow}
    → All (Backed lots) rows
    → find_player user rows ≡ some row
    → Backed lots row
unfolding find_player
find_player-Backed user lots [] a h = cc
find_player-Backed user lots (r ∷ rows) {row} a h =
    ground
      (arith, λ (e : find_player user rows ≡ some row). find_player-Backed user lots rows a.1 e)

module _ (player : Uuid) (wallet bank : ℤ) (lots lots' : List LotRow) where
  set_balances-Backed :
      (rows : List PlayerRow)
      → pos 0 ≤ℤ wallet
      → bank ≡ pos (lot_total player lots')
      → ((other : Uuid) → player ≢ other → lot_total other lots' ≡ lot_total other lots)
      → All (Backed lots) rows
      → All (Backed lots') (set_balances player wallet bank rows)
  unfolding set_balances
  set_balances-Backed [] w b same a = tt
  set_balances-Backed (row ∷ rows) w b same a = (
    elim (Bool-cases (row.id == player)) [
      | inl e ↦ ground arith
      | inr e ↦ ground (arith, same row.id)
    ],
    set_balances-Backed rows w b same a.1,
  )

lot_total-cons :
    (player : Uuid) (lot : LotRow) (lots : List LotRow)
    → lot_total player (lot ∷ lots)
      ≡ (if lot.player_id == player then pos_part lot.principal_remaining else 0)
        + lot_total player lots
unfolding lot_total
lot_total-cons player lot lots = refl

pub IsSound-transport :
    {lots lots' : List LotRow} {players players' : List PlayerRow}
    → lots' ≡ lots
    → players' ≡ players
    → IsSound lots players
    → IsSound lots' players'
IsSound-transport {lots} {lots'} {players} {players'} p q s =
    subst (IsSound lots') (sym q) (subst (λ l. IsSound l players) (sym p) s)

deposit_sums :
    (wallet bank : ℤ) (a t : ℕ)
    → pos 0 ≤ℤ wallet
    → bank ≡ pos t
    → ltb_ℤ wallet (pos a) ≡ false
    → (pos 0 ≤ℤ wallet -ℤ pos a) × (bank +ℤ pos a ≡ pos (a + t))
unfolding ◌+ℤ◌ ◌-ℤ◌
deposit_sums wallet bank a t h e c = ground arith

Deposited-IsSound :
    (draws : Draws) (user : ℤ) (a : ℕ) (operation : Uuid) (db : Db) (player : PlayerRow)
    {out : BankMutationReceipt × Db}
    → IsSound db.lots db.players
    → owner draws.lot_id db.lots ≡ none
    → Deposited draws user (pos a) operation db player out
    → IsSound out.1.lots out.1.players
Deposited-IsSound draws user a operation db player s fresh d =
    let b = find_player-Backed user db.lots db.players s.backed d.found in
    let lot = deposit_lot draws player.id operation (pos a) in
    let sums =
      deposit_sums player.wallet player.bank a (lot_total player.id db.lots) b.0 b.1 d.covered in
    IsSound-transport d.finished.lots d.finished.players (record {
      distinct = (fresh, s.distinct);
      funded = (omega arith, s.funded);
      backed =
          set_balances-Backed player.id _ _ db.lots _ db.players sums.0
            (sums.1 ∙ ap pos (ground (arith, lot_total-cons player.id lot db.lots)))
            (λ other ne. ground (arith, lot_total-cons other lot db.lots)) s.backed;
    })

-- A deposit that goes through keeps the invariant.
pub settle_deposit-IsSound :
    (draws : Draws) (user : ℤ) (a : ℕ) (operation : Uuid) (db : Db) {out : BankMutationReceipt × Db}
    → IsSound db.lots db.players
    → owner draws.lot_id db.lots ≡ none
    → settle_deposit draws user (pos a) operation db ≡ ok out
    → IsSound out.1.lots out.1.players
settle_deposit-IsSound draws user a operation db s fresh h =
    let (player, d) = settle_deposit_inv draws user (pos a) operation db h in
    Deposited-IsSound draws user a operation db player s fresh d

withdrawal_sums :
    (wallet bank fee : ℤ) (a t t' : ℕ)
    → pos 0 ≤ℤ wallet
    → bank ≡ pos t
    → t' + a ≡ t
    → leb_ℤ (pos a -ℤ fee) (pos 0) ≡ false
    → (pos 0 ≤ℤ wallet +ℤ (pos a -ℤ fee)) × (bank -ℤ pos a ≡ pos t')
unfolding ◌+ℤ◌ ◌-ℤ◌
withdrawal_sums wallet bank fee a t t' h e u c = ground arith

module _ (seconds_since : Timestamp → Timestamp → ℤ) (draws : Draws) (user : ℤ) (a : ℕ)
    (operation : Uuid) (db : Db) where
  Withdrawn-IsSound :
      (player : PlayerRow) (debits : List LotDebit) (fee : ℤ) (lots : List LotRow)
      {out : BankMutationReceipt × Db}
      → IsSound db.lots db.players
      → Withdrawn seconds_since draws user (pos a) operation db player debits fee lots out
      → IsSound out.1.lots out.1.players
  Withdrawn-IsSound player debits fee lots s w =
      let b = find_player-Backed user db.lots db.players s.backed w.found in
      let (owned, units) =
        load_fifo_lot_debits-Owned player.id a db.lots s.distinct s.funded w.loaded in
      let d =
        apply_lot_debits-Debited player.id debits db.lots s.distinct s.funded owned w.applied in
      let sums =
        withdrawal_sums player.wallet player.bank fee a (lot_total player.id db.lots)
          (lot_total player.id lots) b.0 b.1 (omega (arith, d.own, units)) w.positive in
      IsSound-transport w.finished.lots w.finished.players (record {
        distinct = d.distinct;
        funded = d.funded;
        backed =
            set_balances-Backed player.id _ _ db.lots lots db.players sums.0 sums.1 d.others
              s.backed;
      })

  -- A withdrawal that goes through keeps the invariant.
  pub settle_withdrawal-IsSound :
      {out : BankMutationReceipt × Db}
      → IsSound db.lots db.players
      → settle_withdrawal seconds_since draws user (pos a) operation db ≡ ok out
      → IsSound out.1.lots out.1.players
  settle_withdrawal-IsSound s h =
      let (player, debits, fee, lots, w) =
        settle_withdrawal_inv seconds_since draws user (pos a) operation db h in
      Withdrawn-IsSound player debits fee lots s w
