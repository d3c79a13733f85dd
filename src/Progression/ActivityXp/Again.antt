-- ===== src/Progression/ActivityXp/Again.antt =====
-- A change of Activity EXP that went through answers its repetition with the same receipt.
use graphite_bot.Common.{
  ℕ, eq_refl, ◌≡◌, refl, Bool, true, some, ◌∷◌, ok, inl, inr, arith, Result-cases, Option-cases,
}
use graphite_bot.Common.Int.{eqb_refl}
use graphite_bot.Common.Values.{Uuid, Text, OperationState}
use graphite_bot.Progression.Activity.{ActivityProgress, activity_progress}
use graphite_bot.Progression.Tables.{
  JsonValue, ActivityXpMutationKind, grant, spend, loss, ActivityXpMutationReceipt, OperationRow,
  ProgressionDb,
}
use graphite_bot.Progression.Owning.{find_operation, find_event}
use graphite_bot.Progression.ActivityXp.{
  ActivityXpMutationRequest, activity_points_after, event_kind, eq_event_kind, eq_mutation_kind,
  lock_active_activity_xp_balance, ensure_operation_player, mutation_receipt, mutation_event,
  replay_payload, replay_activity_mutation, settle_mutation, validate_input,
  apply_activity_xp_mutation,
}

record Settled (event : Uuid) (request : ActivityXpMutationRequest) (db : ProgressionDb)
    (receipt : ActivityXpMutationReceipt) (db' : ProgressionDb) : Type 0 where
  before : ActivityProgress
  after : ActivityProgress
  receipt_eq : receipt ≡ mutation_receipt event request before after
  events_eq : db'.events ≡ mutation_event request receipt ∷ db.events
  operations_eq : db'.operations ≡ db.operations

settle_mutation-Settled :
    (event : Uuid) (state : OperationState) (request : ActivityXpMutationRequest)
    (db : ProgressionDb) {receipt : ActivityXpMutationReceipt} {db' : ProgressionDb}
    → settle_mutation event state request db ≡ ok (receipt, db')
    → Settled event request db receipt db'
unfolding settle_mutation
settle_mutation-Settled event state request db {receipt} {db'} h =
    elim (Result-cases (lock_active_activity_xp_balance request.player_id db)) [
      | inr (_, e) ↦ absurd (ground arith)
      | inl (points, locked) ↦ elim (Result-cases (activity_progress points)) [
        | inr (_, e) ↦ absurd (ground arith)
        | inl (before, counted) ↦
            elim (Result-cases (activity_points_after points request.kind request.amount)) [
              | inr (_, e) ↦ absurd (ground arith)
              | inl (points', moved) ↦ elim (Result-cases (activity_progress points')) [
                | inr (_, e) ↦ absurd (ground arith)
                | inl (after, counted') ↦ record {
                  before = before;
                  after = after;
                  receipt_eq = ground arith;
                  events_eq = ground arith;
                  operations_eq = ground arith;
                }
              ]
            ]
      ]
    ]

event_kind-eq : (kind : ActivityXpMutationKind) → eq_event_kind (event_kind kind) kind ≡ true
event_kind-eq grant = refl
event_kind-eq spend = refl
event_kind-eq loss = refl

mutation_kind-eq : (kind : ActivityXpMutationKind) → eq_mutation_kind kind kind ≡ true
mutation_kind-eq grant = refl
mutation_kind-eq spend = refl
mutation_kind-eq loss = refl

pub replay_own :
    (event : Uuid) (request : ActivityXpMutationRequest) (before after : ActivityProgress)
    → replay_activity_mutation
        (mutation_event request (mutation_receipt event request before after))
        request
      ≡ ok (mutation_receipt event request before after)
unfolding replay_activity_mutation replay_payload
replay_own event request before after =
    rw
      (
        eq_refl event,
        eq_refl request.player_id,
        event_kind-eq request.kind,
        eq_refl request.operation_id,
        eq_refl request.mutation_key,
        mutation_kind-eq request.kind,
        eqb_refl request.amount,
        eq_refl request.source,
        eq_refl request.provenance,
      )
      refl

module _ (is_blank : Text → Bool) (byte_length : Text → ℕ)
    (is_filled_object : JsonValue → Bool) where
  again_new :
      (event : Uuid) (request : ActivityXpMutationRequest) (db : ProgressionDb)
      (operation : OperationRow) {receipt : ActivityXpMutationReceipt} {db' : ProgressionDb}
      → validate_input is_blank byte_length is_filled_object request ≡ ok tt
      → find_operation request.operation_id db'.operations ≡ some operation
      → ensure_operation_player operation.player_id request.player_id ≡ ok tt
      → db'.events ≡ mutation_event request receipt ∷ db.events
      → replay_activity_mutation (mutation_event request receipt) request ≡ ok receipt
      → apply_activity_xp_mutation is_blank byte_length is_filled_object event request db'
        ≡ ok (receipt, db')
  unfolding apply_activity_xp_mutation find_event
  again_new event request db operation {receipt} {db'} valid found owned events replayed =
      let stored : find_event request.operation_id request.mutation_key db'.events
          ≡ some (mutation_event request receipt) =
        rw (events, eq_refl request.operation_id, eq_refl request.mutation_key) refl in
      ground arith

  -- A change of Activity EXP that went through, new or replayed, answers its repetition under any
  -- drawn event id with the same receipt, and changes nothing.
  pub apply_activity_xp_mutation_idempotent :
      (event event' : Uuid) (request : ActivityXpMutationRequest) (db : ProgressionDb)
      {receipt : ActivityXpMutationReceipt} {db' : ProgressionDb}
      → apply_activity_xp_mutation is_blank byte_length is_filled_object event request db
        ≡ ok (receipt, db')
      → apply_activity_xp_mutation is_blank byte_length is_filled_object event' request db'
        ≡ ok (receipt, db')
  unfolding apply_activity_xp_mutation
  apply_activity_xp_mutation_idempotent event event' request db {receipt} {db'} h =
      elim (Result-cases (validate_input is_blank byte_length is_filled_object request)) [
        | inr (_, e) ↦ absurd (ground arith)
        | inl (_, valid) ↦ elim (Option-cases (find_operation request.operation_id db.operations)) [
          | inl e ↦ absurd (ground arith)
          | inr (operation, found) ↦
              elim (Result-cases (ensure_operation_player operation.player_id request.player_id)) [
                | inr (_, e) ↦ absurd (ground arith)
                | inl (_, owned) ↦
                    elim (Option-cases
                      (find_event request.operation_id request.mutation_key db.events)) [
                        | inr (row, existing) ↦
                            elim (Result-cases (replay_activity_mutation row request)) [
                              | inr (_, e) ↦ absurd (ground arith)
                              | inl (known, replayed) ↦
                                  let same : db ≡ db' = ground arith in
                                  let same_receipt : known ≡ receipt = ground arith in
                                  rw (← same) (ground arith)
                            ]
                        | inl fresh ↦
                            let new : settle_mutation event operation.state request db
                                ≡ ok (receipt, db') =
                              ground arith in
                            let s = settle_mutation-Settled event operation.state request db new in
                            again_new event' request db operation valid (rw s.operations_eq found)
                              owned s.events_eq
                              (rw s.receipt_eq (replay_own event request s.before s.after))
                      ]
              ]
        ]
      ]
