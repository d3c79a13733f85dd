-- ===== src/Economy/Wallet/Spent.antt =====
-- What a Wallet spend moves.
use graphite_bot.Common.{
  ◌≡◌, ◌≢◌, ◌⊎◌, Bool-cases, ◌==◌, refl, sym, ap, ◌∙◌, none, some, List, [], ◌∷◌, ◌++◌, Bool, ok,
  arith, Option-cases, Result-cases, inl, inr, true, false,
}
use graphite_bot.Common.Int.{
  ℤ, fits_i64, leb_ℤ, pos, neg, ◌≤ℤ◌, ◌<ℤ◌, ◌+ℤ◌, ◌-ℤ◌, ltb_ℤ, to_i64, zero_add, int_laws,
}
use graphite_bot.Common.Values.{Uuid, Text, wallet_account, system_account, is_active, is_pending}
use graphite_bot.Economy.Tables.{PlayerRow, PostingRow}
use graphite_bot.Economy.Bank.Money.{Mirrors, kind_total, own_line, system_line, neg_parts}
use graphite_bot.Economy.Wallet.Tables.{
  JsonValue, WalletSpendRequest, WalletSpendReceipt, WalletDb, LockedWalletSpendContext,
}
use graphite_bot.Economy.Wallet.{
  find_account, lock_active_wallet_balance, set_wallet, has_account, receipt_of, insert_spend,
  settle_spend, spend_postings, find_operation, ensure_operation_player,
  lock_new_wallet_spend_context, lock_existing_ledger, validate_request, apply_wallet_spend,
}

-- A new spend: the Wallet before and after it, and the rows that it adds.
pub record Settled (transaction : Uuid) (request : WalletSpendRequest) (db : WalletDb)
    (receipt : WalletSpendReceipt) (db' : WalletDb) : Type 0 where
  pub before : ℤ
  pub after : ℤ
  pub found : lock_active_wallet_balance request.player_id db.players ≡ ok before
  pub enough : ltb_ℤ before request.amount ≡ false
  pub paid : to_i64 (before -ℤ request.amount) ≡ some after
  pub receipt_eq : receipt ≡ receipt_of transaction request before after
  pub db_eq : db' ≡ insert_spend request receipt (set_wallet request.player_id after db.players) db

pub settle_spend-Settled :
    (transaction : Uuid) (request : WalletSpendRequest) (db : WalletDb)
    {receipt : WalletSpendReceipt} {db' : WalletDb}
    → settle_spend transaction request db ≡ ok (receipt, db')
    → Settled transaction request db receipt db'
unfolding settle_spend
settle_spend-Settled transaction request db {receipt} {db'} h =
    elim (Result-cases (lock_active_wallet_balance request.player_id db.players)) [
      | inr (er, refused) ↦ absurd (ground arith)
      | inl (before, found) ↦ elim (Option-cases (to_i64 (before -ℤ request.amount))) [
        | inl over ↦ absurd (ground arith)
        | inr (after, paid) ↦ record {
          before = before;
          after = after;
          found = found;
          enough = ground arith;
          paid = paid;
          receipt_eq = ground arith;
          db_eq = ground arith;
        }
      ]
    ]

find_account-set_wallet :
    (player : Uuid) (wallet : ℤ) (rows : List PlayerRow) {row : PlayerRow}
    → find_account player rows ≡ some row
    → find_account player (set_wallet player wallet rows) ≡ some (record row { wallet = wallet })
unfolding find_account set_wallet
find_account-set_wallet player wallet [] h = cc
find_account-set_wallet player wallet (first ∷ rows) {row} h = ground (
  arith,
  λ (h' : find_account player rows ≡ some row). find_account-set_wallet player wallet rows h',
)

find_account-set_other :
    (player other : Uuid) (wallet : ℤ) (rows : List PlayerRow)
    → player ≢ other
    → find_account other (set_wallet player wallet rows) ≡ find_account other rows
unfolding find_account set_wallet
find_account-set_other player other wallet [] ne = refl
find_account-set_other player other wallet (first ∷ rows) ne =
    ground (arith, find_account-set_other player other wallet rows ne)

has_account-find_account :
    (player : Uuid) (rows : List PlayerRow) {row : PlayerRow}
    → find_account player rows ≡ some row
    → has_account player rows ≡ true
unfolding find_account has_account
has_account-find_account player [] h = cc
has_account-find_account player (first ∷ rows) {row} h =
    ground
      (arith, λ (h' : find_account player rows ≡ some row). has_account-find_account player rows h')

-- What the posted amounts of a list of postings add up to.
abbrev pub posted : List PostingRow → ℤ
posted [] = pos 0
posted (row ∷ rows) = row.amount +ℤ posted rows

-- The positive amount leaves the player's Wallet, which covers it. It is posted out of the player's
-- Wallet account and into the system's, in new lines that sum to zero. Every other account and every
-- operation stay.
pub record Spent (request : WalletSpendRequest) (db : WalletDb) (receipt : WalletSpendReceipt)
    (db' : WalletDb) : Type 0 where
  pub row : PlayerRow
  pub found : find_account request.player_id db.players ≡ some row
  pub debited :
      find_account request.player_id db'.players
      ≡ some (record row { wallet = receipt.wallet_after })
  pub others :
      (other : Uuid)
      → ((request.player_id == other) ≡ true)
        ⊎ (find_account other db'.players ≡ find_account other db.players)
  pub before : receipt.wallet_before ≡ row.wallet
  pub positive : pos 0 <ℤ request.amount
  pub moved : receipt.wallet_after +ℤ request.amount ≡ receipt.wallet_before
  pub funded : pos 0 ≤ℤ receipt.wallet_after
  pub lines : List PostingRow
  pub lines_eq : db'.postings ≡ lines ++ db.postings
  pub balanced : posted lines ≡ pos 0
  pub wallet_mirrors :
      Mirrors request.player_id wallet_account receipt.wallet_before receipt.wallet_after
        db.postings db'.postings
  pub system_moves :
      kind_total system_account db'.postings
      ≡ request.amount +ℤ kind_total system_account db.postings
  pub operations : db'.operations ≡ db.operations

sub_parts :
    (a b : ℤ) {c : ℤ} → ltb_ℤ a b ≡ false → to_i64 (a -ℤ b) ≡ some c → (c +ℤ b ≡ a) × (pos 0 ≤ℤ c)
unfolding ◌+ℤ◌ ◌-ℤ◌
sub_parts a b h e = ground arith

neg_add : (a : ℤ) → neg a +ℤ (a +ℤ pos 0) ≡ pos 0
unfolding ◌+ℤ◌
neg_add a = ground arith

-- The two lines of a spend on the accounts they move.
spend-Mirrors :
    (request : WalletSpendRequest) (transaction : Uuid) (rows : List PostingRow) (before after : ℤ)
    → after +ℤ request.amount ≡ before
    → Mirrors request.player_id wallet_account before after rows
        (spend_postings request transaction rows)
spend-Mirrors request transaction rows before after moved =
    rw (own_line request.player_id _ _ _ _ wallet_account wallet_account refl) (
      rw (system_line request.player_id _ _ _ _ system_account wallet_account)
        (rw (← moved) (omega (int_laws, neg_parts request.amount))))

spend_system :
    (request : WalletSpendRequest) (transaction : Uuid) (rows : List PostingRow)
    → kind_total system_account (spend_postings request transaction rows)
      ≡ request.amount +ℤ kind_total system_account rows
unfolding kind_total
spend_system request transaction rows = zero_add _

spend_fits :
    (a b : ℤ)
    → leb_ℤ b (pos 0) ≡ false
    → ltb_ℤ a b ≡ false
    → fits_i64 a ≡ true
    → to_i64 (a -ℤ b) ≡ some (a -ℤ b)
unfolding ◌-ℤ◌
spend_fits a b h k f = ground arith

abbrev spent_db : Uuid → WalletSpendRequest → WalletDb → ℤ → WalletDb
spent_db transaction request db wallet =
    insert_spend request (receipt_of transaction request wallet (wallet -ℤ request.amount))
      (set_wallet request.player_id (wallet -ℤ request.amount) db.players) db

settle_within :
    (transaction : Uuid) (request : WalletSpendRequest) (db : WalletDb) (row : PlayerRow)
    → find_account request.player_id db.players ≡ some row
    → is_active row.status ≡ true
    → leb_ℤ request.amount (pos 0) ≡ false
    → ltb_ℤ row.wallet request.amount ≡ false
    → fits_i64 row.wallet ≡ true
    → settle_spend transaction request db
      ≡ ok (
        receipt_of transaction request row.wallet (row.wallet -ℤ request.amount),
        spent_db transaction request db row.wallet,
      )
unfolding settle_spend lock_active_wallet_balance
settle_within transaction request db row found active positive enough fits = rw (
  found,
  active,
  enough,
  spend_fits row.wallet request.amount positive enough fits,
  has_account-find_account request.player_id db.players found,
)

module _ (is_blank : Text → Bool) (is_filled_object : JsonValue → Bool) where
  Settled-Spent :
      (transaction : Uuid) (request : WalletSpendRequest) (db : WalletDb)
      {receipt : WalletSpendReceipt} {db' : WalletDb}
      → validate_request is_blank is_filled_object request ≡ ok tt
      → Settled transaction request db receipt db'
      → Spent request db receipt db'
  unfolding lock_active_wallet_balance validate_request
  Settled-Spent transaction request db {receipt} {db'} valid s =
      elim (Option-cases (find_account request.player_id db.players)) [
        | inl nobody ↦ absurd (ground (arith, s.found))
        | inr (row, found) ↦
            let rows = ap (λ (d : WalletDb). d.players) s.db_eq in
            let after = ap (λ (r : WalletSpendReceipt). r.wallet_after) s.receipt_eq in
            let before = ap (λ (r : WalletSpendReceipt). r.wallet_before) s.receipt_eq in
            let parts = sub_parts s.before request.amount s.enough s.paid in
            record {
              row = row;
              found = found;
              debited =
                  rw (rows, after)
                    (find_account-set_wallet request.player_id s.after db.players found);
              others = λ other. elim (Bool-cases (request.player_id == other)) [
                | inl same ↦ inl same
                | inr differs ↦ inr (
                    rw rows (
                      find_account-set_other request.player_id other s.after db.players
                        (ground arith)))
              ];
              before = before ∙ ground (arith, s.found);
              positive = ground arith;
              moved = rw (after, before) parts.0;
              funded = rw after parts.1;
              lines = spend_postings request receipt.ledger_transaction_id [];
              lines_eq = ap (λ (d : WalletDb). d.postings) s.db_eq;
              balanced = neg_add request.amount;
              wallet_mirrors =
                  let posted_rows = ap (λ (d : WalletDb). d.postings) s.db_eq in
                  rw posted_rows (
                    spend-Mirrors request receipt.ledger_transaction_id db.postings
                      receipt.wallet_before receipt.wallet_after (rw (after, before) parts.0));
              system_moves =
                  rw (ap (λ (d : WalletDb). d.postings) s.db_eq)
                    (spend_system request receipt.ledger_transaction_id db.postings);
              operations = ap (λ (d : WalletDb). d.operations) s.db_eq;
            }
      ]

  -- A Wallet spend that goes through for an operation without a ledger row takes its positive
  -- amount from the player's Wallet, which stays non-negative, posts it out of that player's
  -- Wallet account and into the system's in new lines that sum to zero, and leaves every other
  -- account and every operation as it was.
  pub apply_wallet_spend-Spent :
      (transaction : Uuid) (request : WalletSpendRequest) (db : WalletDb)
      {receipt : WalletSpendReceipt} {db' : WalletDb}
      → lock_existing_ledger request.operation_id db.ledger ≡ none
      → apply_wallet_spend is_blank is_filled_object transaction request db ≡ ok (receipt, db')
      → Spent request db receipt db'
  unfolding apply_wallet_spend
  apply_wallet_spend-Spent transaction request db {receipt} {db'} fresh h =
      elim (Result-cases (validate_request is_blank is_filled_object request)) [
        | inr (er, e) ↦ absurd (ground arith)
        | inl (_, valid) ↦ elim (Option-cases (find_operation request.operation_id db.operations)) [
          | inl e ↦ absurd (ground arith)
          | inr (operation, found) ↦
              let settled : settle_spend transaction request db ≡ ok (receipt, db') =
                ground arith in
              Settled-Spent transaction request db valid
                (settle_spend-Settled transaction request db settled)
        ]
      ]

  -- When the context of a new spend could be locked, a valid request for an amount that the
  -- context's Wallet covers goes through, and its receipt shows that Wallet before and the
  -- difference after.
  pub apply_wallet_spend_within :
      (transaction : Uuid) (request : WalletSpendRequest) (db : WalletDb)
      {context : LockedWalletSpendContext}
      → lock_new_wallet_spend_context request.operation_id request.player_id db ≡ ok context
      → validate_request is_blank is_filled_object request ≡ ok tt
      → ltb_ℤ context.wallet request.amount ≡ false
      → fits_i64 context.wallet ≡ true
      → (receipt : WalletSpendReceipt) × (db' : WalletDb) × (apply_wallet_spend is_blank
            is_filled_object transaction request db
          ≡ ok (receipt, db'))
        × (receipt.wallet_before ≡ context.wallet)
        × (receipt.wallet_after ≡ context.wallet -ℤ request.amount)
  unfolding apply_wallet_spend lock_new_wallet_spend_context
  apply_wallet_spend_within transaction request db {context} h valid enough fits =
      elim (Option-cases (find_operation request.operation_id db.operations)) [
        | inl e ↦ absurd (ground arith)
        | inr (operation, owner) ↦
            elim (Result-cases (ensure_operation_player operation.player_id request.player_id)) [
              | inr (er, e) ↦ absurd (ground arith)
              | inl (_, owned) ↦
                  elim (Option-cases (lock_existing_ledger request.operation_id db.ledger)) [
                    | inr (row, e) ↦ absurd (ground arith)
                    | inl fresh ↦ elim (Option-cases (find_account request.player_id db.players)) [
                      | inl e ↦ absurd (unfold lock_active_wallet_balance in ground arith)
                      | inr (row, found) ↦
                          let active : is_active row.status ≡ true =
                            unfold lock_active_wallet_balance in ground arith in
                          let wallet : context.wallet ≡ row.wallet =
                            unfold lock_active_wallet_balance in ground arith in
                          let pending : is_pending operation.state ≡ true = ground arith in
                          let positive : leb_ℤ request.amount (pos 0) ≡ false =
                            unfold validate_request in ground arith in
                          let settled =
                            settle_within transaction request db row found active positive
                              (rw (← wallet) enough) (rw (← wallet) fits) in
                          (
                            receipt_of transaction request row.wallet
                                (row.wallet -ℤ request.amount),
                            spent_db transaction request db row.wallet,
                            rw (valid, owner, owned, fresh, pending) settled,
                            sym wallet,
                            rw wallet refl,
                          )
                    ]
                  ]
            ]
      ]
