-- ===== src/Economy/Bank/WithdrawalMoney.antt =====
-- Where the money of a withdrawal goes.
use graphite_bot.Common.{◌≡◌, refl, ◌∙◌, ap, false, List, ◌++◌, ok, arith, inl, inr, Bool-cases}
use graphite_bot.Common.Int.{ℤ, pos, neg, pos_part, neg_part, ◌+ℤ◌, ◌-ℤ◌, ◌≤ℤ◌, ltb_ℤ, int_laws}
use graphite_bot.Common.Values.{Uuid, Timestamp, wallet_account, bank_account, system_account}
use graphite_bot.Economy.Tables.{PlayerRow, PostingRow, LotRow, BankMutationReceipt, Db, Draws}
use graphite_bot.Economy.Bank.{settle_withdrawal}
use graphite_bot.Economy.Bank.Lots.{LotDebit}
use graphite_bot.Economy.Bank.WithdrawalSteps.{Withdrawn, withdrawal_lines, settle_withdrawal_inv}
use graphite_bot.Economy.Bank.Money.{
  posting_total, account_total, Moved, neg_parts, own_line, other_line, system_line,
  find_player-set_balances,
}

module _ (transaction player : Uuid) (gross fee : ℤ) (rows : List PostingRow) where
  lines_balanced :
      pos 0 ≤ℤ fee
      → posting_total (withdrawal_lines transaction player gross fee ++ rows) ≡ posting_total rows
  unfolding posting_total
  lines_balanced h = elim (Bool-cases (ltb_ℤ (pos 0) fee)) [
    | inl e ↦ rw e (omega (int_laws, neg_parts gross))
    | inr e ↦ rw e (omega (int_laws, neg_parts gross, no_fee fee h e))
  ]
    where
      no_fee : (f : ℤ) → pos 0 ≤ℤ f → ltb_ℤ (pos 0) f ≡ false → (pos_part f ≡ 0) × (neg_part f ≡ 0)
      no_fee f h e = ground arith

  lines_wallet :
      account_total player wallet_account (withdrawal_lines transaction player gross fee ++ rows)
      ≡ gross -ℤ fee +ℤ account_total player wallet_account rows
  lines_wallet = elim (Bool-cases (ltb_ℤ (pos 0) fee)) [
    | inl e ↦ rw e (
        other_line player _ _ _ _ bank_account wallet_account refl
        ∙ own_line player _ _ _ _ wallet_account wallet_account refl
        ∙ ap (λ t. gross -ℤ fee +ℤ t) (system_line player _ _ _ _ system_account wallet_account))
    | inr e ↦ rw e (
        other_line player _ _ _ _ bank_account wallet_account refl
        ∙ own_line player _ _ _ _ wallet_account wallet_account refl)
  ]

  lines_bank :
      account_total player bank_account (withdrawal_lines transaction player gross fee ++ rows)
      ≡ neg gross +ℤ account_total player bank_account rows
  lines_bank = elim (Bool-cases (ltb_ℤ (pos 0) fee)) [
    | inl e ↦ rw e (
        own_line player _ _ _ _ bank_account bank_account refl
        ∙ ap (λ t. neg gross +ℤ t)
            (other_line player _ _ _ _ wallet_account bank_account refl
              ∙ system_line player _ _ _ _ system_account bank_account))
    | inr e ↦ rw e (
        own_line player _ _ _ _ bank_account bank_account refl
        ∙ ap (λ t. neg gross +ℤ t) (other_line player _ _ _ _ wallet_account bank_account refl))
  ]

module _ (seconds_since : Timestamp → Timestamp → ℤ) (draws : Draws) (user amount : ℤ)
    (operation : Uuid) (db : Db) where
  Withdrawn-Moved :
      (player : PlayerRow) (debits : List LotDebit) (fee : ℤ) (lots : List LotRow)
      {out : BankMutationReceipt × Db}
      → Withdrawn seconds_since draws user amount operation db player debits fee lots out
      → pos 0 ≤ℤ out.0.fee_amount
      → Moved user db out.1 player
          (record player {
            wallet = player.wallet +ℤ (amount -ℤ fee);
            bank = player.bank -ℤ amount;
          })
          (neg amount)
          out.0.fee_amount
  Withdrawn-Moved player debits fee lots {out} w h =
      let paid : out.0.fee_amount ≡ fee =
        ap (λ (r : BankMutationReceipt). r.fee_amount) w.finished.returned in
      record {
        found = w.found;
        found' =
            rw w.finished.players
              (find_player-set_balances user player.id _ _ db.players w.found refl);
        bank_moves = omega (int_laws, neg_parts amount);
        conserved = rw paid (omega int_laws);
        balanced =
            rw w.finished.postings
              (lines_balanced draws.transaction_id player.id amount fee db.postings (rw paid at h));
        wallet_mirrors = rw w.finished.postings (
            rw (lines_wallet draws.transaction_id player.id amount fee db.postings)
              (omega int_laws));
        bank_mirrors = rw w.finished.postings (
            rw (lines_bank draws.transaction_id player.id amount fee db.postings)
              (omega (int_laws, neg_parts amount)));
      }

  -- A settled withdrawal whose fee is not negative takes the amount from the Bank and pays it out
  -- less the fee: Wallet, Bank and fee together stay the same, the ledger lines sum to zero, and
  -- they mirror both balances.
  pub settle_withdrawal-Moved :
      {out : BankMutationReceipt × Db}
      → settle_withdrawal seconds_since draws user amount operation db ≡ ok out
      → pos 0 ≤ℤ out.0.fee_amount
      → (before after : PlayerRow) × Moved user db out.1 before after (neg amount) out.0.fee_amount
  settle_withdrawal-Moved s h =
      let (player, debits, fee, lots, w) =
        settle_withdrawal_inv seconds_since draws user amount operation db s in
      (player, _, Withdrawn-Moved player debits fee lots w h)
