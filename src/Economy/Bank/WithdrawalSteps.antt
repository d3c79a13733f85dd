-- ===== src/Economy/Bank/WithdrawalSteps.antt =====
-- What a withdrawal that returned `Ok` has done, step by step.
use graphite_bot.Common.{
  true, false, none, some, List, [], ◌∷◌, ◌++◌, ◌≡◌, inl, inr, Result, ok, err, if◌then◌else◌, map,
  arith, Option-cases, Result-cases,
}
use graphite_bot.Common.Int.{ℤ, pos, neg, ltb_ℤ, leb_ℤ, ◌+ℤ◌, ◌-ℤ◌}
use graphite_bot.Common.Values.{
  Uuid, Timestamp, is_active, wallet_account, bank_account, system_account,
}
use graphite_bot.Economy.Errors.{BankError}
use graphite_bot.Economy.Tables.{
  withdraw_kind, BankMutationReceipt, PlayerRow, LotRow, WithdrawalRow, PostingRow, Db, Draws,
}
use graphite_bot.Economy.Fees.{withdrawal_fee}
use graphite_bot.Economy.Bank.{finish, receipt_of, settle_withdrawal}
use graphite_bot.Economy.Bank.Lots.{LotDebit, load_fifo_lot_debits, apply_lot_debits}
use graphite_bot.Economy.Bank.Updates.{
  posting, find_player, set_balances, sum_recent, insert_ledger, fee_lot,
}
use graphite_bot.Economy.Bank.Steps.{Finished, finish_inv, ledger_row}

abbrev pub withdrawal_row : Draws → Uuid → Uuid → ℤ → ℤ → WithdrawalRow
withdrawal_row draws operation player gross fee = record {
  operation_id = operation;
  player_id = player;
  gross_amount = gross;
  fee_amount = fee;
  created_at = draws.now;
}

abbrev pub withdrawal_lines : Uuid → Uuid → ℤ → ℤ → List PostingRow
withdrawal_lines transaction player gross fee =
    posting transaction 0 (some player) bank_account (neg gross)
    ∷ posting transaction 1 (some player) wallet_account (gross -ℤ fee)
    ∷ (if ltb_ℤ (pos 0) fee then posting transaction 2 none system_account fee ∷ [] else [])

-- The database just before a withdrawal finishes.
abbrev pub withdrawal_posted : Draws → ℤ → ℤ → List LotRow → Uuid → Db → PlayerRow → Db
withdrawal_posted draws amount fee lots operation db player = record db {
  players =
      set_balances player.id (player.wallet +ℤ (amount -ℤ fee)) (player.bank -ℤ amount) db.players;
  lots = lots;
  withdrawals = withdrawal_row draws operation player.id amount fee ∷ db.withdrawals;
  ledger = ledger_row draws operation withdraw_kind ∷ db.ledger;
  postings = withdrawal_lines draws.transaction_id player.id amount fee ++ db.postings;
}

abbrev pub withdrawal_receipt : Uuid → ℤ → ℤ → PlayerRow → BankMutationReceipt
withdrawal_receipt operation amount fee player =
    receipt_of operation withdraw_kind amount fee (amount -ℤ fee) (player.wallet +ℤ (amount -ℤ fee))
      (player.bank -ℤ amount)

-- A withdrawal that went through: what it read, and how it finished.
module _ (seconds_since : Timestamp → Timestamp → ℤ) (draws : Draws) (user amount : ℤ)
    (operation : Uuid) (db : Db) where
  pub record Withdrawn (player : PlayerRow) (debits : List LotDebit) (fee : ℤ) (lots : List LotRow)
      (out : BankMutationReceipt × Db) : Type 0 where
    pub found : find_player user db.players ≡ some player
    pub active : is_active player.status ≡ true
    pub covered : ltb_ℤ player.bank amount ≡ false
    pub loaded : load_fifo_lot_debits player.id amount db.lots ≡ ok debits
    pub charged :
        withdrawal_fee seconds_since amount player.bank
          (sum_recent player.id draws.now db.withdrawals)
          (map fee_lot debits)
          draws.now
        ≡ ok fee
    pub positive : leb_ℤ (amount -ℤ fee) (pos 0) ≡ false
    pub applied : apply_lot_debits debits db.lots ≡ ok lots
    pub finished :
        Finished draws player.id
          (withdrawal_receipt operation amount fee player)
          (withdrawal_posted draws amount fee lots operation db player)
          out

  module _ {out : BankMutationReceipt × Db}
      (h : settle_withdrawal seconds_since draws user amount operation db ≡ ok out) where
    missing : find_player user db.players ≡ none → ⊥
    unfolding settle_withdrawal
    missing e = ground arith

    module _ (player : PlayerRow) (found : find_player user db.players ≡ some player) where
      unloaded : (e : BankError) → load_fifo_lot_debits player.id amount db.lots ≡ err e → ⊥
      unfolding settle_withdrawal
      unloaded e h' = ground arith

      module _ (debits : List LotDebit)
          (loaded : load_fifo_lot_debits player.id amount db.lots ≡ ok debits) where
        abbrev charge : Result BankError ℤ
        charge =
            withdrawal_fee seconds_since amount player.bank
              (sum_recent player.id draws.now db.withdrawals) (map fee_lot debits) draws.now

        uncharged : (e : BankError) → charge ≡ err e → ⊥
        unfolding settle_withdrawal
        uncharged e h' = ground arith

        unapplied :
            (fee : ℤ) (e : BankError)
            → charge ≡ ok fee
            → apply_lot_debits debits db.lots ≡ err e
            → ⊥
        unfolding settle_withdrawal
        unapplied fee e h' h'' = ground arith

        guards :
            (fee : ℤ) (lots : List LotRow)
            → charge ≡ ok fee
            → apply_lot_debits debits db.lots ≡ ok lots
            → (is_active player.status ≡ true)
              × (ltb_ℤ player.bank amount ≡ false)
              × (leb_ℤ (amount -ℤ fee) (pos 0) ≡ false)
              × (finish draws player.id
                    (withdrawal_receipt operation amount fee player)
                    (withdrawal_posted draws amount fee lots operation db player)
                  ≡ ok out)
        unfolding settle_withdrawal insert_ledger
        guards fee lots h' h'' = ground arith

  pub settle_withdrawal_inv :
      {out : BankMutationReceipt × Db}
      → settle_withdrawal seconds_since draws user amount operation db ≡ ok out
      → (player : PlayerRow) × (debits : List LotDebit) × (fee : ℤ) × (lots : List LotRow)
        × Withdrawn player debits fee lots out
  settle_withdrawal_inv h = elim (Option-cases (find_player user db.players)) [
    | inl e ↦ absurd (missing h e)
    | inr (player, found) ↦ elim (Result-cases (load_fifo_lot_debits player.id amount db.lots)) [
      | inr (e, bad) ↦ absurd (unloaded h player found e bad)
      | inl (debits, loaded) ↦ elim (Result-cases (charge h player found debits loaded)) [
        | inr (e, bad) ↦ absurd (uncharged h player found debits loaded e bad)
        | inl (fee, charged) ↦ elim (Result-cases (apply_lot_debits debits db.lots)) [
          | inr (e, bad) ↦ absurd (unapplied h player found debits loaded fee e charged bad)
          | inl (lots, applied) ↦
              let (active, covered, positive, done) =
                guards h player found debits loaded fee lots charged applied in
              (
                player,
                debits,
                fee,
                lots,
                record {
                  found = found;
                  active = active;
                  covered = covered;
                  loaded = loaded;
                  charged = charged;
                  positive = positive;
                  applied = applied;
                  finished = finish_inv draws player.id _ _ done;
                },
              )
        ]
      ]
    ]
  ]
