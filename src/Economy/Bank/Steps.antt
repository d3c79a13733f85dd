-- ===== src/Economy/Bank/Steps.antt =====
-- What a settlement that returned `Ok` has done, step by step.
use graphite_bot.Common.{
  Bool, true, false, Option, none, some, ◌∷◌, ◌≡◌, refl, inl, inr, ok, ok_or, fail_if, arith,
  Option-cases,
}
use graphite_bot.Common.Int.{ℤ, pos, neg, ltb_ℤ, ◌+ℤ◌, ◌-ℤ◌, to_i64}
use graphite_bot.Common.Values.{Uuid, is_active, wallet_account, bank_account}
use graphite_bot.Economy.Tables.{
  BankMutationKind, deposit_kind, BankMutationReceipt, PlayerRow, LotRow, LedgerRow, bank_mutation,
  Db, Draws,
}
use graphite_bot.Economy.Bank.{finish, receipt_of, settle_deposit}
use graphite_bot.Economy.Bank.Operations.{commit_rows, commit_operation}
use graphite_bot.Economy.Bank.Updates.{
  posting, find_player, set_balances, checked_add, checked_sub, insert_ledger,
}

-- A checked result that came back is the exact one.
pub ok_or_inv : {E A : Type 0} (o : Option A) (e : E) {a : A} → ok_or o e ≡ ok a → o ≡ some a
ok_or_inv none e h = cc
ok_or_inv (some b) e h = cc

pub to_i64_inv : (a : ℤ) {b : ℤ} → to_i64 a ≡ some b → b ≡ a
to_i64_inv a h = ground arith

pub fail_if_inv : {E : Type 0} (b : Bool) (e : E) {u : Unit {0}} → fail_if b e ≡ ok u → b ≡ false
fail_if_inv true e h = cc
fail_if_inv false e h = refl

pub checked_sub_inv : (a b : ℤ) {c : ℤ} → checked_sub a b ≡ ok c → c ≡ a -ℤ b
checked_sub_inv a b h = to_i64_inv _ (ok_or_inv _ _ h)

pub checked_add_inv : (a b : ℤ) {c : ℤ} → checked_add a b ≡ ok c → c ≡ a +ℤ b
checked_add_inv a b h = to_i64_inv _ (ok_or_inv _ _ h)

-- `finish` touches the operations and the outbox only, and returns the receipt that it was given.
pub record Finished (draws : Draws) (player : Uuid) (receipt : BankMutationReceipt) (db : Db)
    (out : BankMutationReceipt × Db) : Type 0 where
  pub returned : out.0 ≡ receipt
  pub operations : commit_rows player receipt db.operations ≡ some out.1.operations
  pub players : out.1.players ≡ db.players
  pub lots : out.1.lots ≡ db.lots
  pub withdrawals : out.1.withdrawals ≡ db.withdrawals
  pub ledger : out.1.ledger ≡ db.ledger
  pub postings : out.1.postings ≡ db.postings

pub finish_inv :
    (draws : Draws) (player : Uuid) (receipt : BankMutationReceipt) (db : Db)
    {out : BankMutationReceipt × Db}
    → finish draws player receipt db ≡ ok out
    → Finished draws player receipt db out
unfolding finish commit_operation
finish_inv draws player receipt db h = ground arith

abbrev pub deposit_lot : Draws → Uuid → Uuid → ℤ → LotRow
deposit_lot draws player operation amount = record {
  id = draws.lot_id;
  player_id = player;
  principal_remaining = amount;
  deposited_at = draws.now;
  created_by_operation_id = operation;
}

abbrev pub ledger_row : Draws → Uuid → BankMutationKind → LedgerRow
ledger_row draws operation kind = record {
  id = draws.transaction_id;
  operation_id = operation;
  kind = bank_mutation kind;
  policy_version = 1;
}

-- The database just before a deposit finishes.
abbrev pub deposit_posted : Draws → ℤ → Uuid → Db → PlayerRow → Db
deposit_posted draws amount operation db player = record db {
  players = set_balances player.id (player.wallet -ℤ amount) (player.bank +ℤ amount) db.players;
  lots = deposit_lot draws player.id operation amount ∷ db.lots;
  ledger = ledger_row draws operation deposit_kind ∷ db.ledger;
  postings =
      posting draws.transaction_id 0 (some player.id) wallet_account (neg amount)
      ∷ posting draws.transaction_id 1 (some player.id) bank_account amount
      ∷ db.postings;
}

-- A deposit that went through, for the player row that it locked.
pub record Deposited (draws : Draws) (user amount : ℤ) (operation : Uuid) (db : Db)
    (player : PlayerRow) (out : BankMutationReceipt × Db) : Type 0 where
  pub found : find_player user db.players ≡ some player
  pub active : is_active player.status ≡ true
  pub covered : ltb_ℤ player.wallet amount ≡ false
  pub finished :
      Finished draws player.id
        (receipt_of operation deposit_kind amount
          (pos 0)
          amount
          (player.wallet -ℤ amount)
          (player.bank +ℤ amount))
        (deposit_posted draws amount operation db player)
        out

deposit_guards :
    (draws : Draws) (user amount : ℤ) (operation : Uuid) (db : Db) (player : PlayerRow)
    {out : BankMutationReceipt × Db}
    → find_player user db.players ≡ some player
    → settle_deposit draws user amount operation db ≡ ok out
    → (is_active player.status ≡ true)
      × (ltb_ℤ player.wallet amount ≡ false)
      × (finish draws player.id
            (receipt_of operation deposit_kind amount
              (pos 0)
              amount
              (player.wallet -ℤ amount)
              (player.bank +ℤ amount))
            (deposit_posted draws amount operation db player)
          ≡ ok out)
unfolding settle_deposit insert_ledger
deposit_guards draws user amount operation db player e h = ground arith

deposit_missing :
    (draws : Draws) (user amount : ℤ) (operation : Uuid) (db : Db) {out : BankMutationReceipt × Db}
    → find_player user db.players ≡ none
    → settle_deposit draws user amount operation db ≡ ok out
    → ⊥
unfolding settle_deposit
deposit_missing draws user amount operation db e h = ground arith

pub settle_deposit_inv :
    (draws : Draws) (user amount : ℤ) (operation : Uuid) (db : Db) {out : BankMutationReceipt × Db}
    → settle_deposit draws user amount operation db ≡ ok out
    → (player : PlayerRow) × Deposited draws user amount operation db player out
settle_deposit_inv draws user amount operation db h =
    elim (Option-cases (find_player user db.players)) [
      | inl e ↦ absurd (deposit_missing draws user amount operation db e h)
      | inr (player, e) ↦
          let (active, covered, done) = deposit_guards draws user amount operation db player e h in
          (
            player,
            record {
              found = e;
              active = active;
              covered = covered;
              finished = finish_inv draws player.id _ _ done;
            },
          )
    ]
