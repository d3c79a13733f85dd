-- ===== src/Items/Delivery/Delivered.antt =====
-- What a new delivery does: nothing is lost, and the bag is never overfilled.
use graphite_bot.Common.{
  ℕ, ◌≡◌, refl, sym, Bool, true, false, none, ok, if◌then◌else◌, arith, inl, inr, Bool-cases,
  Option-cases, Result-cases, subst,
}
use graphite_bot.Common.Int.{ℤ, ◌+ℤ◌, add_swap, add_into}
use graphite_bot.Common.Values.{Uuid, Text, OperationState}
use graphite_bot.Items.Tables.{JsonValue, StackDeliveryMutationReceipt, ItemDb}
use graphite_bot.Items.Bag.{find_operation, find_event, stack_quantity, pending_quantity}
use graphite_bot.Items.Bag.Laws.{same_stack, quantity-insert_or_add}
use graphite_bot.Items.Delivery.{
  StackDeliveryMutationRequest, ensure_operation_player, lock_item_bag_level, stack_limit_of,
  is_pending_delivery, write_delivery, delivery_receipt, delivery_event, add_event, settle_delivery,
  validate_input, apply_stack_delivery_mutation,
}
use graphite_bot.Items.Delivery.Room.{
  is_pending_delivery-Measured, IsPlaced, write_delivery-IsPlaced,
}

-- What every stack's owner has of it: in the bag and waiting.
abbrev pub owned : Uuid → Text → ℤ → ItemDb → ℤ
owned player key version db =
    stack_quantity player key version db.stacks
    +ℤ pending_quantity player key version db.pending_deliveries

-- Wherever the delivery goes, its own stack's total grows by its quantity, and no other's changes.
pub owned-write_delivery :
    (pending : Bool) (id : Uuid) (request : StackDeliveryMutationRequest) (db : ItemDb)
    (player : Uuid) (key : Text) (version : ℤ)
    → owned player key version (write_delivery pending id request db) ≡ (
        if same_stack request.player_id request.definition_key request.definition_version player key
          version
        then owned player key version db +ℤ request.quantity
        else owned player key version db)
unfolding write_delivery pending_quantity
owned-write_delivery true id request db player key version =
    let here = stack_quantity player key version db.stacks in
    let waiting = pending_quantity player key version db.pending_deliveries in
    let moved = add_into here request.quantity waiting in
    elim (Bool-cases (
      same_stack request.player_id request.definition_key request.definition_version player key
        version)) [ inl same ↦ rw (same) moved | inr differs ↦ rw (differs) refl ]
owned-write_delivery false id request db player key version =
    let here = stack_quantity player key version db.stacks in
    let waiting = pending_quantity player key version db.pending_deliveries in
    let moved = add_swap here request.quantity waiting in
    let stacks =
      quantity-insert_or_add request.player_id request.definition_key request.definition_version
        player key version request.quantity db.stacks in
    elim (Bool-cases (
      same_stack request.player_id request.definition_key request.definition_version player key
        version)) [ inl same ↦ rw (stacks, same) moved | inr differs ↦ rw (stacks, differs) refl ]

pub record Delivered (id event : Uuid) (request : StackDeliveryMutationRequest) (db : ItemDb)
    (receipt : StackDeliveryMutationReceipt) (db' : ItemDb) : Type 0 where
  pub pending : Bool
  pub level : ℤ
  pub limit : ℤ
  pub level_eq : lock_item_bag_level request.player_id db ≡ ok level
  pub limit_eq : stack_limit_of request.definition_key request.definition_version db ≡ ok limit
  pub receipt_eq : receipt ≡ delivery_receipt pending id event request
  pub db_eq :
      db' ≡ add_event (delivery_event request receipt) (write_delivery pending id request db)
  pub placed : IsPlaced level limit request db pending db'

pub settle_delivery-Delivered :
    (id event : Uuid) (state : OperationState) (request : StackDeliveryMutationRequest)
    (db : ItemDb) {receipt : StackDeliveryMutationReceipt} {db' : ItemDb}
    → settle_delivery id event state request db ≡ ok (receipt, db')
    → Delivered id event request db receipt db'
unfolding settle_delivery
settle_delivery-Delivered id event state request db {receipt} {db'} h =
    elim (Result-cases (lock_item_bag_level request.player_id db)) [
      | inr (_, e) ↦ absurd (ground arith)
      | inl (level, level_eq) ↦
          elim (Result-cases
            (stack_limit_of request.definition_key request.definition_version db)) [
              | inr (_, e) ↦ absurd (ground arith)
              | inl (limit, limit_eq) ↦
                  elim (Result-cases (is_pending_delivery level limit request db)) [
                    | inr (_, e) ↦ absurd (ground arith)
                    | inl (pending, decided) ↦
                        let measured =
                          is_pending_delivery-Measured level limit request db decided in
                        let receipt_eq : receipt ≡ delivery_receipt pending id event request =
                          ground arith in
                        let db_eq : db'
                            ≡ add_event (delivery_event request receipt)
                                (write_delivery pending id request db) =
                          ground arith in
                        record {
                          pending = pending;
                          level = level;
                          limit = limit;
                          level_eq = level_eq;
                          limit_eq = limit_eq;
                          receipt_eq = receipt_eq;
                          db_eq = db_eq;
                          placed = subst (IsPlaced level limit request db pending) (sym db_eq) (
                              write_delivery-IsPlaced level limit id
                                (delivery_event request receipt) request db pending limit_eq
                                measured);
                        }
                  ]
            ]
    ]

-- A delivery with what it does to the total of any stack.
pub record IsDelivery (id event : Uuid) (request : StackDeliveryMutationRequest) (db : ItemDb)
    (receipt : StackDeliveryMutationReceipt) (db' : ItemDb) (player : Uuid) (key : Text)
    (version : ℤ) : Type 0 where
  pub delivered : Delivered id event request db receipt db'
  pub total : owned player key version db' ≡ (
      if same_stack request.player_id request.definition_key request.definition_version player key
        version
      then owned player key version db +ℤ request.quantity
      else owned player key version db)

module _ (is_blank : Text → Bool) (byte_length : Text → ℕ)
    (is_filled_object : JsonValue → Bool) where
  -- A delivery that goes through for an operation without an event under its key loses nothing
  -- and overfills nothing: what the bag holds and what waits of its stack grow together by its
  -- quantity, and those of no other stack of any player change; it waits, with the stacks
  -- untouched, just when the bag with it would take more slots than its level gives, 36 and 6 for
  -- each level, and otherwise joins its stack, after which the slots in use are within that.
  pub apply_stack_delivery_mutation-IsDelivery :
      (id event : Uuid) (request : StackDeliveryMutationRequest) (db : ItemDb) (player : Uuid)
      (key : Text) (version : ℤ) {receipt : StackDeliveryMutationReceipt} {db' : ItemDb}
      → apply_stack_delivery_mutation is_blank byte_length is_filled_object id event request db
        ≡ ok (receipt, db')
      → find_event request.operation_id request.mutation_key db.events ≡ none
      → IsDelivery id event request db receipt db' player key version
  unfolding apply_stack_delivery_mutation
  apply_stack_delivery_mutation-IsDelivery id event request db player key version {receipt} {db'} h
        fresh =
      elim (Result-cases (validate_input is_blank byte_length is_filled_object request)) [
        | inr (_, e) ↦ absurd (ground arith)
        | inl (_, valid) ↦ elim (Option-cases (find_operation request.operation_id db.operations)) [
          | inl e ↦ absurd (ground arith)
          | inr (operation, found) ↦
              elim (Result-cases (ensure_operation_player operation.player_id request.player_id)) [
                | inr (_, e) ↦ absurd (ground arith)
                | inl (_, mine) ↦
                    let new : settle_delivery id event operation.state request db
                        ≡ ok (receipt, db') =
                      ground arith in
                    let s = settle_delivery-Delivered id event operation.state request db new in
                    record {
                      delivered = s;
                      total =
                          rw s.db_eq
                            (owned-write_delivery s.pending id request db player key version);
                    }
              ]
        ]
      ]
