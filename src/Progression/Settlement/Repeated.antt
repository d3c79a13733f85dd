-- ===== src/Progression/Settlement/Repeated.antt =====
-- The settlement against the grant of `ProgressionService`, and its repetition.
use graphite_bot.Common.{
  eq_refl, ◌≡◌, refl, sym, ◌∙◌, ap, Bool, some, List, [], ◌∷◌, ok, inl, inr, arith, Result-cases,
  Option-cases,
}
use graphite_bot.Common.Int.{ℤ, eqb_refl}
use graphite_bot.Common.Values.{Uuid, Text}
use graphite_bot.Progression.Account.{AccountXpGrantProjection, project_account_xp_grant}
use graphite_bot.Progression.Tables.{
  JsonValue, ProgressRow, ProgressionPlayer, AccountXpGrantReceipt, AccountXpSettlementReceipt,
  ProgressionDb, Draws,
}
use graphite_bot.Progression.Rows.{find_by_discord, find_by_id}
use graphite_bot.Progression.Rows.Paid.{paid_players}
use graphite_bot.Progression.Service.{settle_grant}
use graphite_bot.Progression.Service.Grants.{settle_grant-SettledGrant}
use graphite_bot.Progression.Service.Granted.{locked_rows}
use graphite_bot.Progression.Owning.{find_event}
use graphite_bot.Progression.Settlement.Settled.{settle_account_xp-SettledXp}
use graphite_bot.Progression.Settlement.{
  lock_operation, ensure_operation_player, replay_account_xp_settlement, replay_payload,
  validate_request, apply_account_xp_settlement, AccountXpSettlementRequest, LockedOperation,
  LockedAccountXpState, lock_account_xp_state, settlement_receipt, settlement_event,
  settle_account_xp,
}

find_by_id-id :
    (id : Uuid) (rows : List ProgressionPlayer) {row : ProgressionPlayer}
    → find_by_id id rows ≡ some row
    → row.id ≡ id
unfolding find_by_id
find_by_id-id id [] h = cc
find_by_id-id id (x ∷ xs) {row} h =
    ground (arith, λ (e : find_by_id id xs ≡ some row). find_by_id-id id xs e)

locked_state :
    (actor : ℤ) (player : Uuid) (db : ProgressionDb) {state : LockedAccountXpState}
    (row : ProgressionPlayer) (progress : ProgressRow) (wallet : ℤ)
    → find_by_id player db.players ≡ some row
    → row.progress ≡ some progress
    → row.wallet ≡ some wallet
    → lock_account_xp_state actor player db ≡ ok state
    → (state.account_xp ≡ progress.account_xp) × (state.wallet ≡ wallet)
unfolding lock_account_xp_state
locked_state actor player db row progress wallet found has_progress has_wallet h = ground arith

same_projection :
    (xp xp' wallet wallet' amount : ℤ) {p q : AccountXpGrantProjection}
    → xp ≡ xp'
    → wallet ≡ wallet'
    → project_account_xp_grant xp wallet amount ≡ ok p
    → project_account_xp_grant xp' wallet' amount ≡ ok q
    → p ≡ q
same_projection xp xp' wallet wallet' amount e f h k = cc

-- For the same player, amount and source, the settlement inside a broader operation and the
-- dedicated grant leave the same rows of players, and report the same XP, level, reward and
-- Wallet.
pub settle_account_xp-eq-settle_grant :
    (account_xp_key primary : Text) (transaction event : Uuid) (operation : LockedOperation)
    (request : AccountXpSettlementRequest) (draws : Draws) (user : ℤ) (granting : Uuid)
    (db : ProgressionDb) (row : ProgressionPlayer) {receipt : AccountXpSettlementReceipt}
    {receipt' : AccountXpGrantReceipt} {db' db'' : ProgressionDb}
    → find_by_id request.player_id db.players ≡ some row
    → find_by_discord user db.players ≡ some row
    → settle_account_xp account_xp_key transaction event operation request db ≡ ok (receipt, db')
    → settle_grant draws primary user request.amount request.source granting db
      ≡ ok (receipt', db'')
    → (db'.players ≡ db''.players)
      × (receipt.account_xp_after ≡ receipt'.account_xp_after)
      × (receipt.level_after ≡ receipt'.level_after)
      × (receipt.level_money_reward ≡ receipt'.level_money_reward)
      × (receipt.wallet_after ≡ receipt'.wallet_after)
settle_account_xp-eq-settle_grant account_xp_key primary transaction event operation request draws
      user granting db row {receipt} {receipt'} {db'} {db''} by_id by_user h k =
    let s = settle_account_xp-SettledXp account_xp_key transaction event operation request db h in
    let g =
      settle_grant-SettledGrant draws primary user request.amount request.source granting db k in
    let (row', progress, found, has_progress, has_wallet, id, status, xp, _, _) =
      locked_rows user db g.locked in
    let same_row : row ≡ row' = ground arith in
    let (state_xp, state_wallet) =
      locked_state operation.actor_discord_user_id request.player_id db row' progress
        g.player.wallet (rw (← same_row) by_id) has_progress has_wallet s.locked in
    let player : request.player_id ≡ g.player.player_id =
      sym (find_by_id-id request.player_id db.players {row = row} by_id)
      ∙ ap (λ (r : ProgressionPlayer). r.id) same_row
      ∙ id in
    let projection : s.projection ≡ g.projection =
      same_projection _ _ _ _ _ (state_xp ∙ xp) state_wallet s.projected g.projected in
    let outcome = λ (p : AccountXpGrantProjection). settlement_receipt event request s.state p in
    let report = s.receipt_eq ∙ ap outcome projection in
    let report' = g.receipt_eq in
    (
      s.players_eq
          ∙ ap (λ (id : Uuid). paid_players id s.projection db.players) player
          ∙ ap (λ (p : AccountXpGrantProjection). paid_players g.player.player_id p db.players)
              projection
          ∙ sym g.players_eq,
      rw (report, report') refl,
      rw (report, report') refl,
      rw (report, report') refl,
      rw (report, report') refl,
    )

lock_operation-same :
    (id : Uuid) (db db' : ProgressionDb)
    → db'.operations ≡ db.operations
    → lock_operation id db' ≡ lock_operation id db
unfolding lock_operation
lock_operation-same id db db' e = rw e refl

replay_own :
    (account_xp_key : Text) (request : AccountXpSettlementRequest) (event : Uuid)
    (state : LockedAccountXpState) (projection : AccountXpGrantProjection)
    → replay_account_xp_settlement
        (settlement_event account_xp_key request
          (settlement_receipt event request state projection))
        request
      ≡ ok (settlement_receipt event request state projection)
unfolding replay_account_xp_settlement replay_payload
replay_own account_xp_key request event state projection =
    rw
      (
        eq_refl event,
        eq_refl request.player_id,
        eq_refl request.operation_id,
        eqb_refl request.amount,
        eq_refl request.source,
        eq_refl request.provenance,
      )
      refl

module _ (account_xp_key : Text) (is_blank : Text → Bool)
    (is_filled_object : JsonValue → Bool) where
  again_new :
      (transaction event : Uuid) (request : AccountXpSettlementRequest) (db : ProgressionDb)
      (operation : LockedOperation) {receipt : AccountXpSettlementReceipt} {db' : ProgressionDb}
      → validate_request account_xp_key is_blank is_filled_object request ≡ ok tt
      → lock_operation request.operation_id db' ≡ ok operation
      → ensure_operation_player operation.player_id request.player_id ≡ ok tt
      → db'.events ≡ settlement_event account_xp_key request receipt ∷ db.events
      → replay_account_xp_settlement (settlement_event account_xp_key request receipt) request
        ≡ ok receipt
      → apply_account_xp_settlement account_xp_key is_blank is_filled_object transaction event
          request db'
        ≡ ok (receipt, db')
  unfolding apply_account_xp_settlement find_event
  again_new transaction event request db operation {receipt} {db'} valid locked owned events
        replayed =
      let stored : find_event request.operation_id account_xp_key db'.events
          ≡ some (settlement_event account_xp_key request receipt) =
        rw (events, eq_refl request.operation_id, eq_refl account_xp_key) refl in
      ground arith

  -- A settlement of Account XP that went through, new or replayed, answers its repetition under
  -- any drawn ids with the same receipt, and changes nothing.
  pub apply_account_xp_settlement_idempotent :
      (transaction event transaction' event' : Uuid) (request : AccountXpSettlementRequest)
      (db : ProgressionDb) {receipt : AccountXpSettlementReceipt} {db' : ProgressionDb}
      → apply_account_xp_settlement account_xp_key is_blank is_filled_object transaction event
          request db
        ≡ ok (receipt, db')
      → apply_account_xp_settlement account_xp_key is_blank is_filled_object transaction' event'
          request db'
        ≡ ok (receipt, db')
  unfolding apply_account_xp_settlement
  apply_account_xp_settlement_idempotent transaction event transaction' event' request db {receipt}
        {db'} h =
      elim (Result-cases (validate_request account_xp_key is_blank is_filled_object request)) [
        | inr (_, e) ↦ absurd (ground arith)
        | inl (_, valid) ↦ elim (Result-cases (lock_operation request.operation_id db)) [
          | inr (_, e) ↦ absurd (ground arith)
          | inl (operation, locked) ↦
              elim (Result-cases (ensure_operation_player operation.player_id request.player_id)) [
                | inr (_, e) ↦ absurd (ground arith)
                | inl (_, owned) ↦
                    elim (Option-cases (find_event request.operation_id account_xp_key db.events)) [
                      | inr (row, existing) ↦
                          elim (Result-cases (replay_account_xp_settlement row request)) [
                            | inr (_, e) ↦ absurd (ground arith)
                            | inl (known, replayed) ↦
                                let same : db ≡ db' = ground arith in
                                let same_receipt : known ≡ receipt = ground arith in
                                rw (← same) (ground arith)
                          ]
                      | inl fresh ↦
                          let new : settle_account_xp account_xp_key transaction event operation
                                request db
                              ≡ ok (receipt, db') =
                            ground arith in
                          let s =
                            settle_account_xp-SettledXp account_xp_key transaction event operation
                              request db new in
                          again_new transaction' event' request db operation valid
                            (lock_operation-same request.operation_id db db' s.operations_eq
                              ∙ locked)
                            owned s.events_eq
                            (rw s.receipt_eq
                              (replay_own account_xp_key request event s.state s.projection))
                    ]
              ]
        ]
      ]
