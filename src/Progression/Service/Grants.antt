-- ===== src/Progression/Service/Grants.antt =====
-- `grant_account_xp`: what a grant that went through did, and its repetition.
use graphite_bot.Common.{
  ◌≡◌, refl, sym, ap, ◌∙◌, if◌then◌else◌, true, none, some, List, [], ◌∷◌, ◌++◌, ok, arith, inl,
  inr, Result-cases, Option-cases, Bool-cases,
}
use graphite_bot.Common.Int.{ℤ, pos, neg, ltb_ℤ, to_i64, to_i64_exact, zero_add, ◌+ℤ◌}
use graphite_bot.Common.Values.{Uuid, Text, is_active, wallet_account, system_account}
use graphite_bot.Economy.Bank.Updates.{posting}
use graphite_bot.Economy.Bank.Money.{account_total, kind_total, own_line, system_line}
use graphite_bot.Economy.Tables.{PostingRow}
use graphite_bot.Economy.Wallet.Spent.{posted}
use graphite_bot.Progression.Account.{AccountXpGrantProjection, project_account_xp_grant}
use graphite_bot.Progression.Tables.{
  EventKind, ProgressionReceipt, AccountXpGrantReceipt, granted, account_xp_granted, ProgressionDb,
  Draws,
}
use graphite_bot.Progression.Rows.{insert_level_reward_ledger}
use graphite_bot.Progression.Rows.Paid.{paid_players}
use graphite_bot.Progression.Operations.{commit_rows, commit_operation}
use graphite_bot.Progression.Service.{
  LockedProgression, lock_progression, pay_grant, grant_receipt, finish, settle_grant,
}

-- The reward that is posted: only a positive one is.
abbrev pub reward_of : AccountXpGrantProjection → ℤ
reward_of projection =
    if ltb_ℤ (pos 0) projection.level_money_reward then projection.level_money_reward else pos 0

-- The parts of a grant that was paid and finished.
pub record SettledGrant (draws : Draws) (user amount : ℤ) (source : Text) (operation : Uuid)
    (db : ProgressionDb) (receipt : AccountXpGrantReceipt) (db' : ProgressionDb) : Type 0 where
  pub player : LockedProgression
  pub projection : AccountXpGrantProjection
  pub locked : lock_progression user db ≡ ok player
  pub active : is_active player.status ≡ true
  pub projected : project_account_xp_grant player.account_xp player.wallet amount ≡ ok projection
  pub receipt_eq : receipt ≡ grant_receipt operation amount source player.account_xp projection
  pub committed :
      commit_rows operation player.player_id (granted receipt) db.operations ≡ some db'.operations
  pub players_eq : db'.players ≡ paid_players player.player_id projection db.players
  pub lines : List PostingRow
  pub lines_eq : db'.postings ≡ lines ++ db.postings
  pub balanced : posted lines ≡ pos 0
  pub wallet_moves :
      account_total player.player_id wallet_account db'.postings
      ≡ reward_of projection +ℤ account_total player.player_id wallet_account db.postings
  pub system_moves :
      kind_total system_account db'.postings
      ≡ neg (reward_of projection) +ℤ kind_total system_account db.postings

record Paid (player : Uuid) (projection : AccountXpGrantProjection) (db paid : ProgressionDb)
    : Type 0 where
  operations_eq : paid.operations ≡ db.operations
  players_eq : paid.players ≡ paid_players player projection db.players
  lines : List PostingRow
  lines_eq : paid.postings ≡ lines ++ db.postings
  balanced : posted lines ≡ pos 0
  wallet_moves :
      account_total player wallet_account paid.postings
      ≡ reward_of projection +ℤ account_total player wallet_account db.postings
  system_moves :
      kind_total system_account paid.postings
      ≡ neg (reward_of projection) +ℤ kind_total system_account db.postings

pub neg_add : (a : ℤ) {b : ℤ} → to_i64 (neg a) ≡ some b → a +ℤ (b +ℤ pos 0) ≡ pos 0
unfolding ◌+ℤ◌
neg_add a e = ground arith

-- The lines of a reward, and what they are on the accounts.
abbrev reward_lines : Uuid → Uuid → ℤ → ℤ → List PostingRow
reward_lines transaction player reward debit =
    posting transaction 0 (some player) wallet_account reward
    ∷ posting transaction 1 none system_account debit
    ∷ []

reward_wallet :
    (transaction player : Uuid) (reward debit : ℤ) (rows : List PostingRow)
    → account_total player wallet_account (reward_lines transaction player reward debit ++ rows)
      ≡ reward +ℤ account_total player wallet_account rows
reward_wallet transaction player reward debit rows =
    own_line player _ _ _ _ wallet_account wallet_account refl
    ∙ ap (λ t. reward +ℤ t) (system_line player _ _ _ _ system_account wallet_account)

reward_system :
    (transaction player : Uuid) (reward debit : ℤ) (rows : List PostingRow)
    → kind_total system_account (reward_lines transaction player reward debit ++ rows)
      ≡ debit +ℤ kind_total system_account rows
unfolding kind_total
reward_system transaction player reward debit rows = zero_add _

pay_grant-Paid :
    (draws : Draws) (operation player : Uuid) (source : Text)
    (projection : AccountXpGrantProjection) (db : ProgressionDb) {paid : ProgressionDb}
    → pay_grant draws operation player source projection db ≡ ok paid
    → Paid player projection db paid
unfolding pay_grant insert_level_reward_ledger
pay_grant-Paid draws operation player source projection db {paid} h =
    elim (Bool-cases (ltb_ℤ (pos 0) projection.level_money_reward)) [
      | inr nothing ↦ record {
        operations_eq = ground arith;
        players_eq = ground arith;
        lines = [];
        lines_eq = ground arith;
        balanced = refl;
        wallet_moves =
            let same : paid.postings ≡ db.postings = ground arith in
            rw (same, nothing) (sym (zero_add _));
        system_moves =
            let same : paid.postings ≡ db.postings = ground arith in
            rw (same, nothing) (sym (zero_add _));
      }
      | inl reward ↦ elim (Option-cases (to_i64 (neg projection.level_money_reward))) [
        | inl over ↦ absurd (ground arith)
        | inr (debit, fits) ↦ record {
          operations_eq = ground arith;
          players_eq = ground arith;
          lines = reward_lines draws.transaction_id player projection.level_money_reward debit;
          lines_eq = ground arith;
          balanced = neg_add projection.level_money_reward fits;
          wallet_moves =
              let same : paid.postings
                  ≡ reward_lines draws.transaction_id player projection.level_money_reward debit
                    ++ db.postings =
                ground arith in
              rw (same, reward)
                (reward_wallet draws.transaction_id player projection.level_money_reward debit
                  db.postings);
          system_moves =
              let same : paid.postings
                  ≡ reward_lines draws.transaction_id player projection.level_money_reward debit
                    ++ db.postings =
                ground arith in
              let exact : debit ≡ neg projection.level_money_reward =
                to_i64_exact (neg projection.level_money_reward) fits in
              rw (same, reward, ← exact)
                (reward_system draws.transaction_id player projection.level_money_reward debit
                  db.postings);
        }
      ]
    ]

pub finish_parts :
    (draws : Draws) (primary : Text) (operation player : Uuid) (kind : EventKind)
    (receipt : ProgressionReceipt) (db : ProgressionDb) {done : ProgressionDb}
    → finish draws primary operation player kind receipt db ≡ ok done
    → (commit_rows operation player receipt db.operations ≡ some done.operations)
      × (done.players ≡ db.players)
      × (done.postings ≡ db.postings)
unfolding finish commit_operation
finish_parts draws primary operation player kind receipt db h =
    elim (Option-cases (commit_rows operation player receipt db.operations)) [
      | inl none_left ↦ absurd (ground arith)
      | inr (rows, e) ↦ ground arith
    ]

finished :
    (draws : Draws) (primary : Text) (user amount : ℤ) (source : Text) (operation : Uuid)
    (db : ProgressionDb) (player : LockedProgression) (projection : AccountXpGrantProjection)
    (paid : ProgressionDb) {done : ProgressionDb}
    → lock_progression user db ≡ ok player
    → is_active player.status ≡ true
    → project_account_xp_grant player.account_xp player.wallet amount ≡ ok projection
    → pay_grant draws operation player.player_id source projection db ≡ ok paid
    → finish draws primary operation player.player_id account_xp_granted
        (granted (grant_receipt operation amount source player.account_xp projection))
        paid
      ≡ ok done
    → SettledGrant draws user amount source operation db
        (grant_receipt operation amount source player.account_xp projection)
        done
finished draws primary user amount source operation db player projection paid {done} locked active
      projected pay end =
    let p = pay_grant-Paid draws operation player.player_id source projection db pay in
    let (rows, players, postings) =
      finish_parts draws primary operation player.player_id account_xp_granted
        (granted (grant_receipt operation amount source player.account_xp projection)) paid end in
    record {
      player = player;
      projection = projection;
      locked = locked;
      active = active;
      projected = projected;
      receipt_eq = refl;
      committed = rw (← p.operations_eq) rows;
      players_eq = players ∙ p.players_eq;
      lines = p.lines;
      lines_eq = postings ∙ p.lines_eq;
      balanced = p.balanced;
      wallet_moves = rw postings p.wallet_moves;
      system_moves = rw postings p.system_moves;
    }

pub settle_grant-SettledGrant :
    (draws : Draws) (primary : Text) (user amount : ℤ) (source : Text) (operation : Uuid)
    (db : ProgressionDb) {receipt : AccountXpGrantReceipt} {db' : ProgressionDb}
    → settle_grant draws primary user amount source operation db ≡ ok (receipt, db')
    → SettledGrant draws user amount source operation db receipt db'
unfolding settle_grant
settle_grant-SettledGrant draws primary user amount source operation db {receipt} {db'} h =
    elim (Result-cases (lock_progression user db)) [
      | inr (_, e) ↦ absurd (ground arith)
      | inl (player, locked) ↦
          elim (Result-cases (project_account_xp_grant player.account_xp player.wallet amount)) [
            | inr (_, e) ↦ absurd (ground arith)
            | inl (projection, projected) ↦
                elim (Result-cases
                  (pay_grant draws operation player.player_id source projection db)) [
                    | inr (_, e) ↦ absurd (ground arith)
                    | inl (paid, pay) ↦
                        elim (Result-cases (
                          finish draws primary operation player.player_id account_xp_granted
                            (granted
                              (grant_receipt operation amount source player.account_xp projection))
                            paid)) [
                              | inr (_, e) ↦ absurd (ground arith)
                              | inl (done, end) ↦
                                  let same : db' ≡ done = ground arith in
                                  let same_receipt : receipt
                                      ≡ grant_receipt operation amount source player.account_xp
                                          projection =
                                    ground arith in
                                  rw (same, same_receipt)
                                    (finished draws primary user amount source operation db player
                                      projection paid locked (ground arith) projected pay end)
                            ]
                  ]
          ]
    ]
