-- ===== src/Progression/Service/Reborn.antt =====
-- `rebirth`: what a Rebirth that went through did, and what a refused one leaves.
use graphite_bot.Common.{
  ℕ, suc, ◌≡◌, ◌≢◌, refl, sym, ◌∙◌, ap, true, Option, some, ok, arith, ◌⊎◌, inl, inr, Result-cases,
  Bool-cases, ◌==◌,
}
use graphite_bot.Common.Int.{ℤ, pos, negsuc}
use graphite_bot.Common.Values.{Uuid, Text, is_active}
use graphite_bot.Progression.Account.{account_level}
use graphite_bot.Progression.Account.Levels.{account_level-pos, account_level-IsLevelAt}
use graphite_bot.Progression.Activity.{ActivityProgress, activity_progress}
use graphite_bot.Progression.Tables.{
  ProgressRow, ProgressionPlayer, RebirthReceipt, reborn, rebirth_event, ProgressionDb, Draws,
}
use graphite_bot.Progression.Rows.{
  find_by_discord, find_by_id, update_player, write_account_xp, write_rebirth_count,
  with_account_xp,
}
use graphite_bot.Progression.Rows.Updates.{find_by_discord-update_player, find_by_id-update_other}
use graphite_bot.Progression.Service.{LockedProgression, lock_progression, finish, to_u64}
use graphite_bot.Progression.Service.Grants.{finish_parts}
use graphite_bot.Progression.Service.Granted.{locked_rows}
use graphite_bot.Progression.Service.Rebirths.{
  rebirth_receipt, next_rebirth, write_rebirth, settle_rebirth,
}

pub record SettledRebirth (user : ℤ) (operation : Uuid) (db : ProgressionDb)
    (receipt : RebirthReceipt) (id : Uuid) (db' : ProgressionDb) : Type 0 where
  player : LockedProgression
  previous : ℕ
  activity : ActivityProgress
  locked : lock_progression user db ≡ ok player
  active : is_active player.status ≡ true
  id_eq : id ≡ player.player_id
  at_cap : account_level player.account_xp ≡ ok 200
  counted : player.rebirth_count ≡ pos previous
  progress : activity_progress player.activity_xp_points ≡ ok activity
  receipt_eq : receipt ≡ rebirth_receipt operation previous player.activity_xp_points activity.level
  players_eq : db'.players ≡ (write_rebirth player.player_id (pos (suc previous)) db).players
  postings_eq : db'.postings ≡ db.postings

next_rebirth-suc :
    (previous : ℕ) {count : ℤ} → next_rebirth previous ≡ ok count → count ≡ pos (suc previous)
next_rebirth-suc previous h = ground arith

to_u64-pos : (count : ℤ) {n : ℕ} → to_u64 count ≡ ok n → count ≡ pos n
to_u64-pos (pos m) h = ground arith
to_u64-pos (negsuc m) h = absurd (ground arith)

pub settle_rebirth-Settled :
    (draws : Draws) (primary : Text) (user : ℤ) (operation : Uuid) (db : ProgressionDb)
    {receipt : RebirthReceipt} {id : Uuid} {db' : ProgressionDb}
    → settle_rebirth draws primary user operation db ≡ ok (receipt, id, db')
    → SettledRebirth user operation db receipt id db'
unfolding settle_rebirth
settle_rebirth-Settled draws primary user operation db {receipt} {id} {db'} h =
    elim (Result-cases (lock_progression user db)) [
      | inr (_, e) ↦ absurd (ground arith)
      | inl (player, locked) ↦ elim (Result-cases (account_level player.account_xp)) [
        | inr (_, e) ↦ absurd (ground arith)
        | inl (level, levelled) ↦ elim (Result-cases (to_u64 player.rebirth_count)) [
          | inr (_, e) ↦ absurd (ground arith)
          | inl (previous, counted) ↦ elim (Result-cases (next_rebirth previous)) [
            | inr (_, e) ↦ absurd (ground arith)
            | inl (count, next) ↦
                elim (Result-cases (activity_progress player.activity_xp_points)) [
                  | inr (_, e) ↦ absurd (ground arith)
                  | inl (activity, progress) ↦
                      let same : count ≡ pos (suc previous) = next_rebirth-suc previous next in
                      let known =
                        rebirth_receipt operation previous player.activity_xp_points
                          activity.level in
                      elim (Result-cases (
                        finish draws primary operation player.player_id rebirth_event (reborn known)
                          (write_rebirth player.player_id count db))) [
                            | inr (_, e) ↦ absurd (ground arith)
                            | inl (done, end) ↦
                                let (_, players, postings) =
                                  finish_parts draws primary operation player.player_id
                                    rebirth_event (reborn known)
                                    (write_rebirth player.player_id count db) end in
                                let done_eq : db' ≡ done = ground arith in
                                record {
                                  player = player;
                                  previous = previous;
                                  activity = activity;
                                  locked = locked;
                                  active = ground arith;
                                  id_eq = ground arith;
                                  at_cap = ground arith;
                                  counted = to_u64-pos player.rebirth_count counted;
                                  progress = progress;
                                  receipt_eq = ground arith;
                                  players_eq = rw (done_eq, ← same) players;
                                  postings_eq = rw done_eq postings;
                                }
                          ]
                ]
          ]
        ]
      ]
    ]

-- The active player was at level 200; the XP starts again at nothing and the count is one more,
-- Activity EXP and Wallet stay, and so do the other players and all postings.
pub record Reborn (user : ℤ) (db : ProgressionDb) (receipt : RebirthReceipt) (id : Uuid)
    (db' : ProgressionDb) : Type 0 where
  pub row : ProgressionPlayer
  pub progress : ProgressRow
  pub found : find_by_discord user db.players ≡ some row
  pub has_progress : row.progress ≡ some progress
  pub id_eq : id ≡ row.id
  pub active : is_active row.status ≡ true
  pub capped : progress.account_xp ≡ pos 172370
  pub counted : row.rebirth_count ≡ pos receipt.previous_rebirth_count
  pub next : receipt.rebirth_count ≡ suc receipt.previous_rebirth_count
  pub written :
      find_by_discord user db'.players
      ≡ some (record row {
        rebirth_count = pos receipt.rebirth_count;
        progress = some (record progress { account_xp = pos 0 });
      })
  pub activity : receipt.activity_xp_points ≡ progress.activity_xp_points
  pub others :
      (other : Uuid)
      → (row.id ≡ other) ⊎ (find_by_id other db'.players ≡ find_by_id other db.players)
  pub postings : db'.postings ≡ db.postings

at_cap-pos : (xp : ℤ) → account_level xp ≡ ok 200 → xp ≡ pos 172370
at_cap-pos xp h =
    let (m, e, _) = account_level-pos xp 200 h in
    let at = account_level-IsLevelAt m 200 (rw (← e) h) in e ∙ ground (arith, at.not_next)

reborn_row :
    (count : ℤ) (row : ProgressionPlayer) (progress : ProgressRow)
    → row.progress ≡ some progress
    → write_account_xp (pos 0) (write_rebirth_count count row) ≡ record row {
      rebirth_count = count;
      progress = some (record progress { account_xp = pos 0 });
    }
reborn_row count row progress e =
    let first : with_account_xp (pos 0) row.progress
        ≡ some (record progress { account_xp = pos 0 }) =
      rw e refl in
    ap (λ (o : Option ProgressRow). record row { rebirth_count = count; progress = o }) first

pub SettledRebirth-Reborn :
    (user : ℤ) (operation : Uuid) (start db : ProgressionDb) {receipt : RebirthReceipt} {id : Uuid}
    {db' : ProgressionDb}
    → db.players ≡ start.players
    → db.postings ≡ start.postings
    → SettledRebirth user operation db receipt id db'
    → Reborn user start receipt id db'
SettledRebirth-Reborn user operation start db {receipt} {id} {db'} before posted_before s =
    let (row, progress, found, has_progress, has_wallet, row_id, status, xp, points, count) =
      locked_rows user db s.locked in
    let players = s.players_eq in
    let same = s.receipt_eq in
    let change = write_rebirth_count (pos (suc s.previous)) in
    record {
      row = row;
      progress = progress;
      found = rw (← before) found;
      has_progress = has_progress;
      id_eq = s.id_eq ∙ sym row_id;
      active = rw status s.active;
      capped = xp ∙ at_cap-pos s.player.account_xp s.at_cap;
      counted =
          count
          ∙ s.counted
          ∙ ap pos (ap (λ (r : RebirthReceipt). r.previous_rebirth_count) (sym same));
      next = rw same refl;
      written =
          rw (same, players, ← row_id)
            (find_by_discord-update_player (write_account_xp (pos 0)) (λ r. (refl, refl, refl)) user
                _
                (find_by_discord-update_player change (λ r. (refl, refl, refl)) user db.players
                  found)
              ∙ ap some (reborn_row (pos (suc s.previous)) row progress has_progress));
      activity = ap (λ (r : RebirthReceipt). r.activity_xp_points) same ∙ sym points;
      others = λ other. elim (Bool-cases (row.id == other)) [
        | inl this ↦ inl (ground arith)
        | inr that ↦
            let ne : row.id ≢ other = ground arith in
            inr (
              rw (players, ← row_id, ← before)
                (find_by_id-update_other (write_account_xp (pos 0)) (λ r. (refl, refl, refl)) row.id
                    other (update_player row.id change db.players) ne
                  ∙ find_by_id-update_other change (λ r. (refl, refl, refl)) row.id other db.players
                      ne))
      ];
      postings = s.postings_eq ∙ posted_before;
    }
