-- ===== src/Economy/Wallet/Again.antt =====
-- A spend that went through answers its repetition with the same receipt.
use graphite_bot.Common.{
  eq_refl, ◌≡◌, ◌≢◌, refl, sym, ap, ◌∙◌, subst, some, List, [], ◌∷◌, ok, arith, All, Bool,
  Option-cases, Result-cases, inl, inr, false,
}
use graphite_bot.Common.Int.{ℤ, eqb_refl, neg, ◌-ℤ◌, ltb_ℤ, to_i64}
use graphite_bot.Common.Values.{Uuid, Text}
use graphite_bot.Economy.Tables.{PlayerRow, PostingRow}
use graphite_bot.Economy.Wallet.Tables.{
  JsonValue, OwningOperation, WalletSpendRequest, WalletSpendReceipt, WalletDb,
}
use graphite_bot.Economy.Wallet.{
  ledger_transaction, spend_postings, insert_spend, select_postings, insert_by_sequence,
  check_postings, validate_postings, reconcile_receipt, replay_stored, replay_wallet_spend,
  receipt_of, settle_spend, find_operation, ensure_operation_player, lock_existing_ledger,
  validate_request, apply_wallet_spend, set_wallet,
}
use graphite_bot.Economy.Wallet.Spent.{Settled, settle_spend-Settled}

-- The transaction has no posting yet.
abbrev pub NewTransaction : Uuid → PostingRow → Type 0
NewTransaction transaction row = row.transaction_id ≢ transaction

select_postings-nil :
    (transaction : Uuid) (rows : List PostingRow)
    → All (NewTransaction transaction) rows
    → select_postings transaction rows ≡ []
unfolding select_postings
select_postings-nil transaction [] a = refl
select_postings-nil transaction (row ∷ rows) a =
    ground (arith, a.0, select_postings-nil transaction rows a.1)

validate_postings-spend :
    (request : WalletSpendRequest) (transaction : Uuid) (before after : ℤ) (rows : List PostingRow)
    → All (NewTransaction transaction) rows
    → validate_postings
        (receipt_of transaction request before after)
        (spend_postings request transaction rows)
      ≡ ok tt
unfolding validate_postings select_postings insert_by_sequence check_postings
validate_postings-spend request transaction before after rows a = rw (
  select_postings-nil transaction rows a,
  eq_refl transaction,
  eq_refl request.player_id,
  eqb_refl (neg request.amount),
  eqb_refl request.amount,
)

reconcile_receipt-spend :
    (request : WalletSpendRequest) (transaction : Uuid) (before after : ℤ)
    → ltb_ℤ before request.amount ≡ false
    → to_i64 (before -ℤ request.amount) ≡ some after
    → reconcile_receipt (receipt_of transaction request before after) ≡ ok tt
unfolding reconcile_receipt
reconcile_receipt-spend request transaction before after enough paid =
    rw (enough, paid, eqb_refl after)

replay-spend :
    (request : WalletSpendRequest) (transaction : Uuid) (before after : ℤ) (rows : List PostingRow)
    → All (NewTransaction transaction) rows
    → ltb_ℤ before request.amount ≡ false
    → to_i64 (before -ℤ request.amount) ≡ some after
    → replay_wallet_spend
        (ledger_transaction request (receipt_of transaction request before after))
        request
        (spend_postings request transaction rows)
      ≡ ok (receipt_of transaction request before after)
unfolding replay_wallet_spend replay_stored
replay-spend request transaction before after rows a enough paid = rw (
  reconcile_receipt-spend request transaction before after enough paid,
  validate_postings-spend request transaction before after rows a,
  eq_refl transaction,
  eq_refl request.operation_id,
  eq_refl request.player_id,
  eqb_refl request.amount,
  eq_refl request.source,
  eq_refl request.provenance,
)

module _ (is_blank : Text → Bool) (is_filled_object : JsonValue → Bool) where
  repeat_new :
      (transaction again : Uuid) (request : WalletSpendRequest) (db : WalletDb)
      (players : List PlayerRow) (operation : OwningOperation) (before after : ℤ)
      → All (NewTransaction transaction) db.postings
      → validate_request is_blank is_filled_object request ≡ ok tt
      → find_operation request.operation_id db.operations ≡ some operation
      → ensure_operation_player operation.player_id request.player_id ≡ ok tt
      → ltb_ℤ before request.amount ≡ false
      → to_i64 (before -ℤ request.amount) ≡ some after
      → apply_wallet_spend is_blank is_filled_object again request
          (insert_spend request (receipt_of transaction request before after) players db)
        ≡ ok (
          receipt_of transaction request before after,
          insert_spend request (receipt_of transaction request before after) players db,
        )
  unfolding apply_wallet_spend lock_existing_ledger
  repeat_new transaction again request db players operation before after new valid found owned
        enough paid =
      rw (
        valid,
        found,
        owned,
        eq_refl request.operation_id,
        replay-spend request transaction before after db.postings new enough paid,
      )

  repeat_known :
      (transaction again : Uuid) (request : WalletSpendRequest) (db : WalletDb)
      (operation : OwningOperation) {receipt : WalletSpendReceipt} {db' : WalletDb}
      → All (NewTransaction transaction) db.postings
      → validate_request is_blank is_filled_object request ≡ ok tt
      → find_operation request.operation_id db.operations ≡ some operation
      → ensure_operation_player operation.player_id request.player_id ≡ ok tt
      → Settled transaction request db receipt db'
      → apply_wallet_spend is_blank is_filled_object again request db' ≡ ok (receipt, db')
  repeat_known transaction again request db operation {receipt} {db'} new valid found owned s =
      let players = set_wallet request.player_id s.after db.players in
      let known = receipt_of transaction request s.before s.after in
      let whole : db' ≡ insert_spend request known players db =
        s.db_eq ∙ ap (λ r. insert_spend request r players db) s.receipt_eq in
      subst
        (λ (d : WalletDb).
          apply_wallet_spend is_blank is_filled_object again request d ≡ ok (receipt, d))
        (sym whole)
        (subst
          (λ r.
            apply_wallet_spend is_blank is_filled_object again request
              (insert_spend request known players db)
            ≡ ok (r, insert_spend request known players db))
          (sym s.receipt_eq)
          (repeat_new transaction again request db players operation s.before s.after new valid
            found owned s.enough s.paid))

  repeat_owned :
      (transaction again : Uuid) (request : WalletSpendRequest) (db : WalletDb)
      (operation : OwningOperation) {receipt : WalletSpendReceipt} {db' : WalletDb}
      → All (NewTransaction transaction) db.postings
      → validate_request is_blank is_filled_object request ≡ ok tt
      → find_operation request.operation_id db.operations ≡ some operation
      → ensure_operation_player operation.player_id request.player_id ≡ ok tt
      → apply_wallet_spend is_blank is_filled_object transaction request db ≡ ok (receipt, db')
      → apply_wallet_spend is_blank is_filled_object again request db' ≡ ok (receipt, db')
  unfolding apply_wallet_spend
  repeat_owned transaction again request db operation {receipt} {db'} new valid found owned h =
      elim (Option-cases (lock_existing_ledger request.operation_id db.ledger)) [
        | inr (row, existing) ↦
            let same : db ≡ db' = ground arith in
            subst
              (λ (d : WalletDb).
                apply_wallet_spend is_blank is_filled_object again request d ≡ ok (receipt, d))
              same (ground arith)
        | inl fresh ↦
            let settled : settle_spend transaction request db ≡ ok (receipt, db') = ground arith in
            repeat_known transaction again request db operation new valid found owned
              (settle_spend-Settled transaction request db settled)
      ]

  -- A Wallet spend that went through, new or replayed, with a drawn transaction id that no
  -- posting has, answers its repetition under any drawn id with the same receipt, and changes
  -- nothing.
  pub apply_wallet_spend_idempotent :
      (transaction again : Uuid) (request : WalletSpendRequest) (db : WalletDb)
      {receipt : WalletSpendReceipt} {db' : WalletDb}
      → All (NewTransaction transaction) db.postings
      → apply_wallet_spend is_blank is_filled_object transaction request db ≡ ok (receipt, db')
      → apply_wallet_spend is_blank is_filled_object again request db' ≡ ok (receipt, db')
  unfolding apply_wallet_spend
  apply_wallet_spend_idempotent transaction again request db {receipt} {db'} new h =
      elim (Result-cases (validate_request is_blank is_filled_object request)) [
        | inr (er, e) ↦ absurd (ground arith)
        | inl (_, valid) ↦ elim (Option-cases (find_operation request.operation_id db.operations)) [
          | inl e ↦ absurd (ground arith)
          | inr (operation, found) ↦
              elim (Result-cases (ensure_operation_player operation.player_id request.player_id)) [
                | inr (er, e) ↦ absurd (ground arith)
                | inl (_, owned) ↦
                    repeat_owned transaction again request db operation new valid found owned h
              ]
        ]
      ]
