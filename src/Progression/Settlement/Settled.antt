-- ===== src/Progression/Settlement/Settled.antt =====
-- A new settlement inside a broader operation pays what the grant of `ProgressionService` pays.
use graphite_bot.Common.{
  ◌≡◌, refl, true, none, some, List, [], ◌∷◌, ◌++◌, ok, inl, inr, arith, Result-cases, Option-cases,
  Bool-cases,
}
use graphite_bot.Common.Int.{pos, neg, ltb_ℤ, to_i64}
use graphite_bot.Common.Values.{Uuid, Text, wallet_account, system_account, is_pending}
use graphite_bot.Economy.Bank.Updates.{posting}
use graphite_bot.Economy.Tables.{PostingRow}
use graphite_bot.Economy.Wallet.Spent.{posted}
use graphite_bot.Progression.Account.{AccountXpGrantProjection, project_account_xp_grant}
use graphite_bot.Progression.Tables.{ProgressionPlayer, AccountXpSettlementReceipt, ProgressionDb}
use graphite_bot.Progression.Rows.{insert_level_reward_ledger}
use graphite_bot.Progression.Rows.Paid.{paid_players}
use graphite_bot.Progression.Service.Grants.{neg_add}
use graphite_bot.Progression.Owning.{find_ledger}
use graphite_bot.Progression.Settlement.{
  AccountXpSettlementRequest, LockedOperation, LockedAccountXpState, lock_account_xp_state,
  write_granted_xp, pay_level_reward, settlement_receipt, settlement_event, settle_account_xp,
}

pub record SettledXp (account_xp_key : Text) (event : Uuid) (operation : LockedOperation)
    (request : AccountXpSettlementRequest) (db : ProgressionDb)
    (receipt : AccountXpSettlementReceipt) (db' : ProgressionDb) : Type 0 where
  pub state : LockedAccountXpState
  pub projection : AccountXpGrantProjection
  pub locked : lock_account_xp_state operation.actor_discord_user_id request.player_id db ≡ ok state
  pub projected :
      project_account_xp_grant state.account_xp state.wallet request.amount ≡ ok projection
  pub receipt_eq : receipt ≡ settlement_receipt event request state projection
  pub players_eq : db'.players ≡ paid_players request.player_id projection db.players
  pub events_eq : db'.events ≡ settlement_event account_xp_key request receipt ∷ db.events
  pub operations_eq : db'.operations ≡ db.operations
  pub lines : List PostingRow
  pub lines_eq : db'.postings ≡ lines ++ db.postings
  pub balanced : posted lines ≡ pos 0

record PaidXp (player : Uuid) (projection : AccountXpGrantProjection) (db paid : ProgressionDb)
    : Type 0 where
  operations_eq : paid.operations ≡ db.operations
  events_eq : paid.events ≡ db.events
  players_eq : paid.players ≡ paid_players player projection db.players
  lines : List PostingRow
  lines_eq : paid.postings ≡ lines ++ db.postings
  balanced : posted lines ≡ pos 0

module _ (transaction : Uuid) (request : AccountXpSettlementRequest)
    (projection : AccountXpGrantProjection) (db : ProgressionDb) where
  paid-PaidXp :
      {rows : List ProgressionPlayer} {paid : ProgressionDb}
      → write_granted_xp request.player_id projection db.players ≡ ok rows
      → pay_level_reward transaction request projection (record db { players = rows }) ≡ ok paid
      → PaidXp request.player_id projection db paid
  unfolding write_granted_xp pay_level_reward insert_level_reward_ledger
  paid-PaidXp {rows} {paid} written h =
      elim (Bool-cases (ltb_ℤ (pos 0) projection.level_money_reward)) [
        | inr nothing ↦ record {
          operations_eq = ground arith;
          events_eq = ground arith;
          players_eq = ground arith;
          lines = [];
          lines_eq = ground arith;
          balanced = refl;
        }
        | inl reward ↦ elim (Option-cases (to_i64 (neg projection.level_money_reward))) [
          | inl over ↦ absurd (ground arith)
          | inr (debit, fits) ↦ record {
            operations_eq = ground arith;
            events_eq = ground arith;
            players_eq = ground arith;
            lines =
                posting transaction 0 (some request.player_id) wallet_account
                  projection.level_money_reward
                ∷ posting transaction 1 none system_account debit
                ∷ [];
            lines_eq = ground arith;
            balanced = neg_add projection.level_money_reward fits;
          }
        ]
      ]

module _ (account_xp_key : Text) (transaction event : Uuid) (operation : LockedOperation)
    (request : AccountXpSettlementRequest) (db : ProgressionDb) where
  -- The operation is pending and owns no Money.
  free :
      {out : AccountXpSettlementReceipt × ProgressionDb}
      → settle_account_xp account_xp_key transaction event operation request db ≡ ok out
      → (is_pending operation.state ≡ true) × (find_ledger request.operation_id db.ledger ≡ none)
  unfolding settle_account_xp
  free h = elim (Option-cases (find_ledger request.operation_id db.ledger)) [
    | inl e ↦ (ground arith, e)
    | inr (entry, e) ↦ absurd (ground arith)
  ]

  settled :
      (state : LockedAccountXpState) (projection : AccountXpGrantProjection)
      (rows : List ProgressionPlayer) (paid : ProgressionDb)
      → lock_account_xp_state operation.actor_discord_user_id request.player_id db ≡ ok state
      → project_account_xp_grant state.account_xp state.wallet request.amount ≡ ok projection
      → write_granted_xp request.player_id projection db.players ≡ ok rows
      → pay_level_reward transaction request projection (record db { players = rows }) ≡ ok paid
      → SettledXp account_xp_key event operation request db
          (settlement_receipt event request state projection)
          (record paid {
            events =
                settlement_event account_xp_key request
                  (settlement_receipt event request state projection)
                ∷ paid.events;
          })
  settled state projection rows paid locked projected written pay =
      let p = paid-PaidXp transaction request projection db written pay in
      record {
        state = state;
        projection = projection;
        locked = locked;
        projected = projected;
        receipt_eq = refl;
        players_eq = p.players_eq;
        events_eq = rw p.events_eq refl;
        operations_eq = p.operations_eq;
        lines = p.lines;
        lines_eq = p.lines_eq;
        balanced = p.balanced;
      }

  pub settle_account_xp-SettledXp :
      {receipt : AccountXpSettlementReceipt} {db' : ProgressionDb}
      → settle_account_xp account_xp_key transaction event operation request db ≡ ok (receipt, db')
      → SettledXp account_xp_key event operation request db receipt db'
  unfolding settle_account_xp
  settle_account_xp-SettledXp {receipt} {db'} h =
      let (waiting, unowned) = free h in
      elim (Result-cases
        (lock_account_xp_state operation.actor_discord_user_id request.player_id db)) [
          | inr (_, e) ↦ absurd (ground arith)
          | inl (state, locked) ↦
              elim (Result-cases
                (project_account_xp_grant state.account_xp state.wallet request.amount)) [
                  | inr (_, e) ↦ absurd (ground arith)
                  | inl (projection, projected) ↦
                      elim (Result-cases
                        (write_granted_xp request.player_id projection db.players)) [
                          | inr (_, e) ↦ absurd (ground arith)
                          | inl (rows, written) ↦
                              elim (Result-cases (
                                pay_level_reward transaction request projection
                                  (record db { players = rows }))) [
                                    | inr (_, e) ↦ absurd (ground arith)
                                    | inl (paid, pay) ↦
                                        let known =
                                          settlement_receipt event request state projection in
                                        let receipt_eq : receipt ≡ known = ground arith in
                                        let db_eq : db' ≡ record paid {
                                          events =
                                              settlement_event account_xp_key request known
                                              ∷ paid.events;
                                        } =
                                          ground arith in
                                        rw (receipt_eq, db_eq)
                                          (settled state projection rows paid locked projected
                                            written pay)
                                  ]
                        ]
                ]
        ]
