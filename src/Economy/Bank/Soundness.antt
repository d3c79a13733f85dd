-- ===== src/Economy/Bank/Soundness.antt =====
-- Whole deposits and withdrawals keep the invariant of the Bank tables, whatever they return.
use graphite_bot.Common.{
  ℕ, ◌≡◌, ◌∙◌, ap, subst, false, none, ok, arith, inl, inr, Option-cases, Result-cases,
}
use graphite_bot.Common.Int.{ℤ, pos, pos_part, pos_of_nonneg, leb_ℤ, ltb_ℤ}
use graphite_bot.Common.Values.{Uuid, Text, Digest, Timestamp}
use graphite_bot.Economy.Tables.{BankMutationKind, BankMutationReceipt, Db, Draws}
use graphite_bot.Economy.Bank.{
  resume, settle_deposit, settle_withdrawal, deposit_tx, deposit, withdraw_tx, withdraw,
}
use graphite_bot.Economy.Bank.Operations.{
  OperationResolution, resolved_committed, resolved_pending, resolve_operation, select_operation,
}
use graphite_bot.Economy.Bank.LotLaws.{owner, ok_injective}
use graphite_bot.Economy.Bank.Invariant.{
  IsSound, IsSound-transport, settle_deposit-IsSound, settle_withdrawal-IsSound,
}
use graphite_bot.Economy.Bank.Calls.{Settle}
use graphite_bot.Economy.Bank.Idempotency.{deposit_tx_inv, withdraw_tx_inv}

-- Resolving an operation touches the operations table only.
pub resolve_operation-tables :
    (draws : Draws) (user : ℤ) (key : Text) (kind : BankMutationKind) (hash : Digest) (db : Db)
    {resolution : OperationResolution} {db' : Db}
    → resolve_operation draws user key kind hash db ≡ ok (resolution, db')
    → db' ≡ record db { operations = db'.operations }
unfolding resolve_operation
resolve_operation-tables draws user key kind hash db h =
    elim (Option-cases (select_operation key db.operations)) [
      | inl e ↦ ground arith
      | inr (row, e) ↦ ground arith
    ]

module _ (settle : Settle) where
  -- A settlement that keeps the invariant does so under `resume`.
  resume-IsSound :
      (resolution : OperationResolution) (db : Db) (out : BankMutationReceipt × Db)
      → ((operation : Uuid) → settle operation db ≡ ok out → IsSound out.1.lots out.1.players)
      → IsSound db.lots db.players
      → resume settle (resolution, db) ≡ ok out
      → IsSound out.1.lots out.1.players
  unfolding resume
  resume-IsSound (resolved_committed receipt) db out keeps s h =
      subst (λ (o : BankMutationReceipt × Db). IsSound o.1.lots o.1.players) (ok_injective h) s
  resume-IsSound (resolved_pending operation) db out keeps s h = keeps operation h

positive-pos : (a : ℤ) → leb_ℤ a (pos 0) ≡ false → a ≡ pos (pos_part a)
positive-pos a h = pos_of_nonneg a (ground arith)

minimum-pos : (a : ℤ) → ltb_ℤ a (pos 500) ≡ false → a ≡ pos (pos_part a)
minimum-pos a h = pos_of_nonneg a (ground arith)

module _ (bank_request_hash : BankMutationKind → ℤ → Digest) (draws : Draws) (snowflake : ℕ)
    (amount : ℤ) (key : Text) (db : Db) (s : IsSound db.lots db.players) where
  deposit_tx-IsSound :
      (out : BankMutationReceipt × Db)
      → owner draws.lot_id db.lots ≡ none
      → deposit_tx bank_request_hash draws snowflake amount key db ≡ ok out
      → IsSound out.1.lots out.1.players
  deposit_tx-IsSound out fresh h =
      let c = deposit_tx_inv bank_request_hash draws snowflake amount key db h in
      let same = resolve_operation-tables draws _ key _ _ db c.resolved in
      let lots = ap (λ (d : Db). d.lots) same in
      let s' = IsSound-transport lots (ap (λ (d : Db). d.players) same) s in
      resume-IsSound (settle_deposit draws (pos snowflake) amount) c.resolution c.claimed out
        (λ operation r.
          settle_deposit-IsSound draws (pos snowflake) (pos_part amount) operation c.claimed s'
            (ap (owner draws.lot_id) lots ∙ fresh)
            (subst (λ a. settle_deposit draws (pos snowflake) a operation c.claimed ≡ ok out)
              (positive-pos amount c.amount_valid) r))
        s' c.resumed

  -- A deposit with a new lot id keeps the invariant of the Bank tables on every path: success,
  -- replay and each error.
  pub deposit-IsSound :
      owner draws.lot_id db.lots ≡ none
      → let db' = (deposit bank_request_hash draws snowflake amount key db).1 in
        IsSound db'.lots db'.players
  unfolding deposit
  deposit-IsSound fresh =
      elim (Result-cases (deposit_tx bank_request_hash draws snowflake amount key db)) [
        | inl (out, e) ↦ rw e (deposit_tx-IsSound out fresh e)
        | inr (b, e) ↦ rw e s
      ]

  module _ (seconds_since : Timestamp → Timestamp → ℤ) where
    withdraw_tx-IsSound :
        (out : BankMutationReceipt × Db)
        → withdraw_tx bank_request_hash seconds_since draws snowflake amount key db ≡ ok out
        → IsSound out.1.lots out.1.players
    withdraw_tx-IsSound out h =
        let c = withdraw_tx_inv bank_request_hash seconds_since draws snowflake amount key db h in
        let same = resolve_operation-tables draws _ key _ _ db c.resolved in
        let s' =
          IsSound-transport (ap (λ (d : Db). d.lots) same) (ap (λ (d : Db). d.players) same) s in
        resume-IsSound (settle_withdrawal seconds_since draws (pos snowflake) amount) c.resolution
          c.claimed out
          (λ operation r.
            settle_withdrawal-IsSound seconds_since draws (pos snowflake) (pos_part amount)
              operation c.claimed s'
              (subst
                (λ a.
                  settle_withdrawal seconds_since draws (pos snowflake) a operation c.claimed
                  ≡ ok out)
                (minimum-pos amount c.amount_valid) r))
          s' c.resumed

    -- A withdrawal keeps the invariant of the Bank tables on every path (success, replay, each
    -- error): lot ids are distinct, no lot and no Wallet is negative, and every Bank balance is
    -- the sum of that player's lots.
    pub withdraw-IsSound :
        let db' = (withdraw bank_request_hash seconds_since draws snowflake amount key db).1 in
        IsSound db'.lots db'.players
    unfolding withdraw
    withdraw-IsSound =
        elim (Result-cases
          (withdraw_tx bank_request_hash seconds_since draws snowflake amount key db)) [
            | inl (out, e) ↦ rw e (withdraw_tx-IsSound out e)
            | inr (b, e) ↦ rw e s
          ]
