-- ===== src/Items/Delivery/Room.antt =====
-- Whether the bag has room for a delivery, and what a delivery that joins its stack takes.
use graphite_bot.Common.{
  ℕ, ◌+◌, ◌-◌, ◌*◌, ◌≤◌, ◌<◌, ◌≡◌, refl, sym, Bool, true, false, some, ok, ltb, arith, ◌⊎◌, inl,
  inr, Option-cases, Result-cases, subst, ltb→lt, ltb_false→le,
}
use graphite_bot.Common.Int.{ℤ, pos_part, ◌+ℤ◌, to_i64, to_i64_exact}
use graphite_bot.Common.Values.{Uuid, Text}
use graphite_bot.Items.Tables.{DefinitionRow, ItemDb, EventRow}
use graphite_bot.Items.Slots.{
  item_bag_capacity_slots, slots_for_quantity, find_definition, item_bag_used_slots, slots_of,
  bag_slots,
}
use graphite_bot.Items.Bag.{stack_quantity}
use graphite_bot.Items.Bag.SlotLaws.{
  slots_for_quantity-slots_of, capacity_of_level, item_bag_used_slots-eq-bag_slots,
  slots-insert_or_add,
}
use graphite_bot.Items.Delivery.{
  StackDeliveryMutationRequest, stack_limit_of, is_pending_delivery, write_delivery, add_event,
}

-- The quantity of the delivery's own stack before it.
abbrev pub held : StackDeliveryMutationRequest → ItemDb → ℤ
held request db =
    stack_quantity request.player_id request.definition_key request.definition_version db.stacks

-- The slots the bag would take with the delivery in it.
abbrev pub projected : ℤ → StackDeliveryMutationRequest → ItemDb → ℕ
projected limit request db =
    bag_slots request.player_id db
    - slots_of (pos_part (held request db)) (pos_part limit)
    + slots_of (pos_part (held request db +ℤ request.quantity)) (pos_part limit)

pub record Measured (level limit : ℤ) (request : StackDeliveryMutationRequest) (db : ItemDb)
    (pending : Bool) : Type 0 where
  pub counted :
      slots_of (pos_part (held request db)) (pos_part limit) ≤ bag_slots request.player_id db
  pub pending_eq : pending ≡ ltb (36 + 6 * pos_part level) (projected limit request db)

pub is_pending_delivery-Measured :
    (level limit : ℤ) (request : StackDeliveryMutationRequest) (db : ItemDb) {pending : Bool}
    → is_pending_delivery level limit request db ≡ ok pending
    → Measured level limit request db pending
unfolding is_pending_delivery
is_pending_delivery-Measured level limit request db {pending} h =
    elim (Result-cases (item_bag_capacity_slots level)) [
      | inr (_, e) ↦ absurd (ground arith)
      | inl (capacity, with_capacity) ↦
          elim (Result-cases (item_bag_used_slots request.player_id db)) [
            | inr (_, e) ↦ absurd (ground arith)
            | inl (used, in_use) ↦
                elim (Result-cases (slots_for_quantity (held request db) limit)) [
                  | inr (_, e) ↦ absurd (ground arith)
                  | inl (before, slots_before) ↦
                      elim (Option-cases (to_i64 (held request db +ℤ request.quantity))) [
                        | inl e ↦ absurd (ground arith)
                        | inr (combined, sum_eq) ↦
                            elim (Result-cases (slots_for_quantity combined limit)) [
                              | inr (_, e) ↦ absurd (ground arith)
                              | inl (after, slots_after) ↦
                                  let exact =
                                    to_i64_exact (held request db +ℤ request.quantity) sum_eq in
                                  let fits : before ≤ used = ground arith in
                                  let test : pending ≡ ltb capacity (used - before + after) =
                                    ground arith in
                                  record {
                                    counted =
                                        rw
                                          (
                                            ← slots_for_quantity-slots_of (held request db) limit
                                                slots_before,
                                            ← item_bag_used_slots-eq-bag_slots request.player_id db
                                                in_use,
                                          )
                                          fits;
                                    pending_eq =
                                        rw
                                          (
                                            ← capacity_of_level level with_capacity,
                                            ← slots_for_quantity-slots_of (held request db) limit
                                                slots_before,
                                            ← item_bag_used_slots-eq-bag_slots request.player_id db
                                                in_use,
                                            ← exact,
                                            ← slots_for_quantity-slots_of combined limit
                                                slots_after,
                                          )
                                          test;
                                  }
                            ]
                      ]
                ]
          ]
    ]

-- A limit that is found is the definition's.
pub limit_of_definition :
    (key : Text) (version : ℤ) (db : ItemDb) {limit : ℤ}
    → stack_limit_of key version db ≡ ok limit
    → (definition : DefinitionRow) × (find_definition key version db.definitions ≡ some definition)
      × (definition.stack_limit ≡ some limit)
unfolding stack_limit_of
limit_of_definition key version db {limit} h =
    elim (Option-cases (find_definition key version db.definitions)) [
      | inl e ↦ absurd (ground arith)
      | inr (definition, found) ↦ elim (Option-cases definition.stack_limit) [
        | inl e ↦ absurd (ground arith)
        | inr (given, limited) ↦
            let same : given ≡ limit = ground arith in (definition, found, rw (← same) limited)
      ]
    ]

-- A delivery that joins the stack takes the slots that were projected.
slots-write_delivery :
    (limit : ℤ) (id : Uuid) (request : StackDeliveryMutationRequest) (db : ItemDb)
    → stack_limit_of request.definition_key request.definition_version db ≡ ok limit
    → slots_of (pos_part (held request db)) (pos_part limit) ≤ bag_slots request.player_id db
    → bag_slots request.player_id (write_delivery false id request db) ≡ projected limit request db
unfolding write_delivery
slots-write_delivery limit id request db limited counted =
    let (definition, found, limit_eq) =
      limit_of_definition request.definition_key request.definition_version db limited in
    let traded =
      slots-insert_or_add db.definitions request.player_id request.definition_key
        request.definition_version found limit_eq request.quantity db.stacks in
    omega (arith, traded, counted)

-- The delivery waits because the bag would overflow, or joins the stack and the bag has room.
abbrev pub IsPlaced : ℤ → ℤ → StackDeliveryMutationRequest → ItemDb → Bool → ItemDb → Type 0
IsPlaced level limit request db pending db' =
    ((pending ≡ true)
      × (db'.stacks ≡ db.stacks)
      × (36 + 6 * pos_part level < projected limit request db))
    ⊎ ((pending ≡ false)
        × (db'.pending_deliveries ≡ db.pending_deliveries)
        × (bag_slots request.player_id db' ≤ 36 + 6 * pos_part level))

pub write_delivery-IsPlaced :
    (level limit : ℤ) (id : Uuid) (event : EventRow) (request : StackDeliveryMutationRequest)
    (db : ItemDb) (pending : Bool)
    → stack_limit_of request.definition_key request.definition_version db ≡ ok limit
    → Measured level limit request db pending
    → IsPlaced level limit request db pending
        (add_event event (write_delivery pending id request db))
unfolding write_delivery
write_delivery-IsPlaced level limit id event request db true limited measured =
    inl (refl, refl, ltb→lt _ _ (sym measured.pending_eq))
write_delivery-IsPlaced level limit id event request db false limited measured =
    let taken = slots-write_delivery limit id request db limited measured.counted in
    let room = ltb_false→le _ _ (sym measured.pending_eq) in
    inr (refl, refl, subst (λ n. n ≤ 36 + 6 * pos_part level) (sym taken) room)
