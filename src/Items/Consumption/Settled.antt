-- ===== src/Items/Consumption/Settled.antt =====
-- A new consumption, read back from its result.
use graphite_bot.Common.{
  ◌==◌, Bool-cases, ◌≡◌, refl, ok, inl, inr, arith, Result-cases, Option-cases, Bool-cases,
}
use graphite_bot.Common.Int.{ℤ, ltb_ℤ, ◌-ℤ◌, to_i64, to_i64_exact}
use graphite_bot.Common.Values.{Uuid, OperationState}
use graphite_bot.Items.Tables.{StackConsumptionMutationReceipt, ItemDb}
use graphite_bot.Items.Bag.{stack_quantity}
use graphite_bot.Items.Consumption.{
  StackConsumptionMutationRequest, lock_active_player, ensure_stackable, quantity_left,
  write_consumption, consumption_receipt, record_consumption, settle_consumption,
}

-- What a new consumption writes.
pub record Settled (event : Uuid) (request : StackConsumptionMutationRequest) (db : ItemDb)
    (receipt : StackConsumptionMutationReceipt) (db' : ItemDb) : Type 0 where
  pub before : ℤ
  pub after : ℤ
  pub holds :
      stack_quantity request.player_id request.definition_key request.definition_version db.stacks
      ≡ before
  pub left_eq : quantity_left before request ≡ ok after
  pub one : (write_consumption before after request db.stacks).1 ≡ 1
  pub receipt_eq : receipt ≡ consumption_receipt event request before after
  pub db_eq :
      db'
      ≡ record_consumption (write_consumption before after request db.stacks).0 request receipt db

pub settle_consumption-Settled :
    (event : Uuid) (state : OperationState) (request : StackConsumptionMutationRequest)
    (db : ItemDb) {receipt : StackConsumptionMutationReceipt} {db' : ItemDb}
    → settle_consumption event state request db ≡ ok (receipt, db')
    → Settled event request db receipt db'
unfolding settle_consumption
settle_consumption-Settled event state request db {receipt} {db'} h =
    let before =
      stack_quantity request.player_id request.definition_key request.definition_version
        db.stacks in
    elim (Result-cases (lock_active_player request.player_id db)) [
      | inr (_, e) ↦ absurd (ground arith)
      | inl (_, active) ↦
          elim (Result-cases
            (ensure_stackable request.definition_key request.definition_version db)) [
              | inr (_, e) ↦ absurd (ground arith)
              | inl (_, stackable) ↦ elim (Result-cases (quantity_left before request)) [
                | inr (_, e) ↦ absurd (ground arith)
                | inl (after, left) ↦
                    elim (Bool-cases ((write_consumption before after request db.stacks).1 == 1)) [
                      | inr several ↦ absurd (ground arith)
                      | inl single ↦ record {
                        before = before;
                        after = after;
                        holds = refl;
                        left_eq = left;
                        one = ground arith;
                        receipt_eq = ground arith;
                        db_eq = ground arith;
                      }
                    ]
              ]
            ]
    ]

-- What is left is the difference.
pub quantity_left-exact :
    (before : ℤ) (request : StackConsumptionMutationRequest) {after : ℤ}
    → quantity_left before request ≡ ok after
    → after ≡ before -ℤ request.quantity
unfolding quantity_left
quantity_left-exact before request h = elim (Bool-cases (ltb_ℤ before request.quantity)) [
  | inl over ↦ absurd (ground arith)
  | inr enough ↦ elim (Option-cases (to_i64 (before -ℤ request.quantity))) [
    | inl e ↦ absurd (ground arith)
    | inr (rest, sum_eq) ↦
        let exact = to_i64_exact (before -ℤ request.quantity) sum_eq in ground arith
  ]
]
