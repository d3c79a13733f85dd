-- ===== src/Economy/Bank/Calls.antt =====
-- Whole calls: what a successful transaction went through, and how it can be repeated.
use graphite_bot.Common.{◌≡◌, sym, ◌∙◌, ap, subst, false, some, ok, Result}
use graphite_bot.Common.Int.{ℤ}
use graphite_bot.Common.Values.{Uuid, Text, Digest, Timestamp}
use graphite_bot.Economy.Errors.{BankError}
use graphite_bot.Economy.Tables.{BankMutationKind, BankMutationReceipt, Db, Draws}
use graphite_bot.Economy.Bank.{resume, settle_deposit, settle_withdrawal}
use graphite_bot.Economy.Bank.Operations.{
  OperationResolution, resolved_pending, resolved_committed, resolve_operation, commit_rows,
  committed_row,
}
use graphite_bot.Economy.Bank.LotLaws.{ok_injective}
use graphite_bot.Economy.Bank.Replay.{
  has_operation, DistinctOperations, resolve_pending, resolve_committed, resolve_stored,
  select-commit_rows, validated_pending, validated_committed,
}
use graphite_bot.Economy.Bank.Steps.{settle_deposit_inv}
use graphite_bot.Economy.Bank.WithdrawalSteps.{settle_withdrawal_inv}

abbrev pub Settle : Type 0
Settle = Uuid → Db → Result BankError (BankMutationReceipt × Db)

-- A settlement commits the operation that it was given.
abbrev pub Commits : Settle → Type 0
Commits settle =
    (operation : Uuid) (db : Db) (out : BankMutationReceipt × Db)
    → settle operation db ≡ ok out
    → (player : Uuid) × (commit_rows player out.0 db.operations ≡ some out.1.operations)
      × (out.0.operation_id ≡ operation)

pub settle_deposit-Commits :
    (draws : Draws) (user amount : ℤ) → Commits (settle_deposit draws user amount)
settle_deposit-Commits draws user amount operation db out h =
    let (player, d) = settle_deposit_inv draws user amount operation db h in
    (
      player.id,
      rw d.finished.returned d.finished.operations,
      ap (λ (r : BankMutationReceipt). r.operation_id) d.finished.returned,
    )

pub settle_withdrawal-Commits :
    (seconds_since : Timestamp → Timestamp → ℤ) (draws : Draws) (user amount : ℤ)
    → Commits (settle_withdrawal seconds_since draws user amount)
settle_withdrawal-Commits seconds_since draws user amount operation db out h =
    let (player, _, _, _, w) =
      settle_withdrawal_inv seconds_since draws user amount operation db h in
    (
      player.id,
      rw w.finished.returned w.finished.operations,
      ap (λ (r : BankMutationReceipt). r.operation_id) w.finished.returned,
    )

-- Resolving again after the call went through finds its receipt and changes nothing.
module _ (settle : Settle) (commits : Commits settle) (draws draws' : Draws) (user : ℤ) (key : Text)
    (kind : BankMutationKind) (hash : Digest) (db : Db) (d : DistinctOperations db.operations)
    (fresh : has_operation draws.operation_id db.operations ≡ false) where
  pub resolve_again :
      (resolution : OperationResolution) (db' : Db) (out : BankMutationReceipt × Db)
      → resolve_operation draws user key kind hash db ≡ ok (resolution, db')
      → resume settle (resolution, db') ≡ ok out
      → resolve_operation draws' user key kind hash out.1 ≡ ok (resolved_committed out.0, out.1)
  unfolding resume
  resolve_again (resolved_committed receipt) db' out h r =
      let (row, selected, valid, same) = resolve_committed draws user key kind hash db h in
      subst
        (λ (o : BankMutationReceipt × Db).
          resolve_operation draws' user key kind hash o.1 ≡ ok (resolved_committed o.0, o.1))
        (ok_injective r)
        (resolve_stored draws' user key kind hash db' row (resolved_committed receipt)
          (rw same selected) valid)
  resolve_again (resolved_pending operation) db' out h r =
      let (row, selected, valid, distinct) =
        resolve_pending draws user key kind hash db d fresh h in
      let (player, committed, id) = commits operation db' out r in
      let (row_id, pending) = validated_pending row user kind hash operation valid in
      resolve_stored draws' user key kind hash out.1 (committed_row player out.0 row)
        (resolved_committed out.0)
        (select-commit_rows key player out.0 db'.operations distinct selected (row_id ∙ sym id)
          pending committed)
        (validated_committed row user kind hash operation player out.0 valid)
