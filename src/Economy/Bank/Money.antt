-- ===== src/Economy/Bank/Money.antt =====
-- Where the money of a deposit or a withdrawal goes.
use graphite_bot.Common.{
  ℕ, ◌+◌, ◌≡◌, refl, false, true, none, some, List, [], ◌∷◌, ok, arith, ◌==◌, if◌then◌else◌, Option,
  Bool, ◌&&◌,
}
use graphite_bot.Common.Int.{ℤ, pos, neg, negsuc, pos_part, neg_part, ◌+ℤ◌, ◌-ℤ◌, int_laws}
use graphite_bot.Common.Values.{
  Uuid, AccountKind, wallet_account, bank_account, system_account, liability_account,
  escrow_account,
}
use graphite_bot.Economy.Tables.{PlayerRow, PostingRow, BankMutationReceipt, Db, Draws}
use graphite_bot.Economy.Bank.{settle_deposit}
use graphite_bot.Economy.Bank.Updates.{posting, find_player, set_balances}
use graphite_bot.Economy.Bank.Steps.{Deposited, settle_deposit_inv}

pub find_player-set_balances :
    (user : ℤ) (id : Uuid) (wallet bank : ℤ) (rows : List PlayerRow) {row : PlayerRow}
    → find_player user rows ≡ some row
    → row.id ≡ id
    → find_player user (set_balances id wallet bank rows)
      ≡ some (record row { wallet = wallet; bank = bank })
unfolding find_player set_balances
find_player-set_balances user id wallet bank [] h i = cc
find_player-set_balances user id wallet bank (r ∷ rows) {row} h i = ground (
  arith,
  λ (e : find_player user rows ≡ some row). find_player-set_balances user id wallet bank rows e i,
)

-- The sum of postings, and of those on one kind of account.
unfoldable pub posting_total : List PostingRow → ℤ
posting_total [] = pos 0
posting_total (row ∷ rows) = row.amount +ℤ posting_total rows

abbrev pub is_account : AccountKind → AccountKind → Bool
is_account wallet_account wallet_account = true
is_account bank_account bank_account = true
is_account system_account system_account = true
is_account liability_account liability_account = true
is_account escrow_account escrow_account = true
is_account _ _ = false

abbrev pub is_owner : Uuid → Option Uuid → Bool
is_owner player none = false
is_owner player (some other) = other == player

unfoldable pub account_total : Uuid → AccountKind → List PostingRow → ℤ
account_total player kind [] = pos 0
account_total player kind (row ∷ rows) =
    (if is_owner player row.player_id && is_account row.account_kind kind
      then row.amount
      else pos 0)
    +ℤ account_total player kind rows

-- The sum of the postings on one kind of account, whoever holds it.
unfoldable pub kind_total : AccountKind → List PostingRow → ℤ
kind_total kind [] = pos 0
kind_total kind (row ∷ rows) =
    (if is_account row.account_kind kind then row.amount else pos 0) +ℤ kind_total kind rows

-- The ledger moves an account of the player by what its materialized balance moved.
abbrev pub Mirrors : Uuid → AccountKind → ℤ → ℤ → List PostingRow → List PostingRow → Type 0
Mirrors player kind before after rows rows' =
    account_total player kind rows' +ℤ before ≡ account_total player kind rows +ℤ after

-- What a settled call did to the caller's balances and to the ledger.
pub record Moved (user : ℤ) (db db' : Db) (before after : PlayerRow) (to_bank fee : ℤ)
    : Type 0 where
  pub found : find_player user db.players ≡ some before
  pub found' : find_player user db'.players ≡ some after
  pub bank_moves : after.bank ≡ before.bank +ℤ to_bank
  pub conserved : after.wallet +ℤ after.bank +ℤ fee ≡ before.wallet +ℤ before.bank
  pub balanced : posting_total db'.postings ≡ posting_total db.postings
  pub wallet_mirrors :
      Mirrors before.id wallet_account before.wallet after.wallet db.postings db'.postings
  pub bank_mirrors : Mirrors before.id bank_account before.bank after.bank db.postings db'.postings

pub neg_parts : (a : ℤ) → pos_part (neg a) + pos_part a ≡ neg_part (neg a) + neg_part a
neg_parts (pos n) = ground arith
neg_parts (negsuc n) = ground arith

module _ (player : Uuid) (transaction : Uuid) (sequence : ℕ) (amount : ℤ)
    (rows : List PostingRow) where
  pub own_line :
      (kind other : AccountKind)
      → is_account kind other ≡ true
      → account_total player other (posting transaction sequence (some player) kind amount ∷ rows)
        ≡ amount +ℤ account_total player other rows
  unfolding account_total
  own_line kind other h = rw h (ground arith)

  pub other_line :
      (kind other : AccountKind)
      → is_account kind other ≡ false
      → account_total player other (posting transaction sequence (some player) kind amount ∷ rows)
        ≡ account_total player other rows
  unfolding account_total
  other_line kind other h = rw h (cancel _)
    where
      cancel :
          (b : Bool)
          → (if b && false then amount else pos 0) +ℤ account_total player other rows
            ≡ account_total player other rows
      cancel true = omega int_laws
      cancel false = omega int_laws

  pub system_line :
      (kind other : AccountKind)
      → account_total player other (posting transaction sequence none kind amount ∷ rows)
        ≡ account_total player other rows
  unfolding account_total
  system_line kind other = omega int_laws

Deposited-Moved :
    (draws : Draws) (user amount : ℤ) (operation : Uuid) (db : Db) (player : PlayerRow)
    {out : BankMutationReceipt × Db}
    → Deposited draws user amount operation db player out
    → Moved user db out.1 player
        (record player { wallet = player.wallet -ℤ amount; bank = player.bank +ℤ amount })
        amount
        (pos 0)
unfolding posting_total
Deposited-Moved draws user amount operation db player d = record {
  found = d.found;
  found' =
      rw d.finished.players (find_player-set_balances user player.id _ _ db.players d.found refl);
  bank_moves = refl;
  conserved = omega int_laws;
  balanced = rw d.finished.postings (omega (int_laws, neg_parts amount));
  wallet_mirrors = rw d.finished.postings (
      rw (own_line player.id _ _ _ _ wallet_account wallet_account refl) (
        rw (other_line player.id _ _ _ _ bank_account wallet_account refl)
          (omega (int_laws, neg_parts amount))));
  bank_mirrors = rw d.finished.postings (
      rw (other_line player.id _ _ _ _ wallet_account bank_account refl)
        (rw (own_line player.id _ _ _ _ bank_account bank_account refl) (omega int_laws)));
}

-- A settled deposit takes the amount from the Wallet and adds it to the Bank: nothing is gained
-- or lost, its ledger lines sum to zero, and they mirror both balances.
pub settle_deposit-Moved :
    (draws : Draws) (user amount : ℤ) (operation : Uuid) (db : Db) {out : BankMutationReceipt × Db}
    → settle_deposit draws user amount operation db ≡ ok out
    → (before after : PlayerRow) × Moved user db out.1 before after amount (pos 0)
settle_deposit-Moved draws user amount operation db h =
    let (player, d) = settle_deposit_inv draws user amount operation db h in
    (player, _, Deposited-Moved draws user amount operation db player d)
