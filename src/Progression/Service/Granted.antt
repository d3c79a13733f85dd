-- ===== src/Progression/Service/Granted.antt =====
-- What a grant of Account XP moves, and its repetition.
use graphite_bot.Common.{
  ℕ, ◌+◌, ◌-◌, min, ◌≡◌, refl, sym, ◌∙◌, ap, true, false, some, List, ◌++◌, ok, arith, ◌⊎◌, inl,
  inr, Option-cases, Bool-cases, ◌==◌,
}
use graphite_bot.Common.Int.{ℤ, pos, neg, leb_ℤ, ◌+ℤ◌, int_laws}
use graphite_bot.Common.Values.{Uuid, Text, wallet_account, system_account, is_active}
use graphite_bot.Economy.Bank.Money.{Mirrors, account_total, kind_total}
use graphite_bot.Economy.Tables.{PostingRow}
use graphite_bot.Economy.Wallet.Spent.{posted}
use graphite_bot.Progression.Account.{AccountXpGrantProjection}
use graphite_bot.Progression.Account.Curve.{total_reward}
use graphite_bot.Progression.Account.Levels.{IsLevelAt}
use graphite_bot.Progression.Service.Grants.{SettledGrant, reward_of}
use graphite_bot.Progression.Tables.{
  ProgressRow, ProgressionPlayer, AccountXpGrantReceipt, ProgressionDb, Draws,
}
use graphite_bot.Progression.Rows.{find_by_discord, find_by_id}
use graphite_bot.Progression.Rows.Updates.{find_by_discord-update_player}
use graphite_bot.Progression.Rows.Paid.{
  paid_row-eq, find-paid, paid_players-other, project-IsPaid, xp_unchanged, wallet_unchanged,
  capped, level_before, level_after, rewarded, wallet_paid,
}
use graphite_bot.Progression.Service.{LockedProgression, lock_progression}

-- The player's XP rises by the amount, up to the cap; the Wallet rises by the rewards of the levels
-- that were reached, which are posted out of the system's account and into the player's Wallet
-- account; the other players stay.
pub record Granted (user amount : ℤ) (db : ProgressionDb) (receipt : AccountXpGrantReceipt)
    (db' : ProgressionDb) : Type 0 where
  pub row : ProgressionPlayer
  pub progress : ProgressRow
  pub xp : ℕ
  pub added : ℕ
  pub wallet : ℤ
  pub found : find_by_discord user db.players ≡ some row
  pub has_progress : row.progress ≡ some progress
  pub has_wallet : row.wallet ≡ some wallet
  pub active : is_active row.status ≡ true
  pub xp_eq : progress.account_xp ≡ pos xp
  pub added_eq : amount ≡ pos added
  pub written :
      find_by_discord user db'.players
      ≡ some (record row {
        progress = some (record progress { account_xp = receipt.account_xp_after });
        wallet = some receipt.wallet_after;
      })
  pub capped : receipt.account_xp_after ≡ pos (min (xp + added) 172370)
  pub level_before : IsLevelAt xp receipt.level_before
  pub level_after : IsLevelAt (min (xp + added) 172370) receipt.level_after
  pub rewarded :
      receipt.level_money_reward
      ≡ pos (total_reward receipt.level_after - total_reward receipt.level_before)
  pub paid : receipt.wallet_after ≡ wallet +ℤ receipt.level_money_reward
  pub others :
      (other : Uuid)
      → (row.id ≡ other) ⊎ (find_by_id other db'.players ≡ find_by_id other db.players)
  pub lines : List PostingRow
  pub lines_eq : db'.postings ≡ lines ++ db.postings
  pub balanced : posted lines ≡ pos 0
  pub wallet_mirrors :
      Mirrors row.id wallet_account wallet receipt.wallet_after db.postings db'.postings
  pub system_moves :
      kind_total system_account db'.postings
      ≡ neg receipt.level_money_reward +ℤ kind_total system_account db.postings
  pub requested : receipt.requested_xp ≡ amount
  pub before : receipt.account_xp_before ≡ pos xp

-- A positive number or nothing is posted as it is.
reward_of-pos :
    (projection : AccountXpGrantProjection) {reward : ℕ}
    → projection.level_money_reward ≡ pos reward
    → reward_of projection ≡ projection.level_money_reward
reward_of-pos projection {reward} e = rw e (ground arith)

moved_mirrors :
    (total total' before after reward : ℤ)
    → total' ≡ reward +ℤ total
    → after ≡ before +ℤ reward
    → total' +ℤ before ≡ total +ℤ after
moved_mirrors total total' before after reward moved paid = rw (moved, paid) (omega int_laws)

-- The rows that were joined.
pub locked_rows :
    (user : ℤ) (db : ProgressionDb) {player : LockedProgression}
    → lock_progression user db ≡ ok player
    → (row : ProgressionPlayer) × (progress : ProgressRow) × (find_by_discord user db.players
        ≡ some row)
      × (row.progress ≡ some progress)
      × (row.wallet ≡ some player.wallet)
      × (row.id ≡ player.player_id)
      × (row.status ≡ player.status)
      × (progress.account_xp ≡ player.account_xp)
      × (progress.activity_xp_points ≡ player.activity_xp_points)
      × (row.rebirth_count ≡ player.rebirth_count)
unfolding lock_progression
locked_rows user db h = elim (Option-cases (find_by_discord user db.players)) [
  | inl e ↦ absurd (ground arith)
  | inr (row, found) ↦ elim (Option-cases row.progress) [
    | inl e ↦ absurd (ground arith)
    | inr (progress, has_progress) ↦ elim (Option-cases row.wallet) [
      | inl e ↦ absurd (ground arith)
      | inr (wallet, has_wallet) ↦ (
        row,
        progress,
        found,
        has_progress,
        ground arith,
        ground arith,
        ground arith,
        ground arith,
        ground arith,
        ground arith,
      )
    ]
  ]
]

pub SettledGrant-Granted :
    (draws : Draws) (user amount : ℤ) (source : Text) (operation : Uuid) (start db : ProgressionDb)
    {receipt : AccountXpGrantReceipt} {db' : ProgressionDb}
    → db.players ≡ start.players
    → db.postings ≡ start.postings
    → leb_ℤ amount (pos 0) ≡ false
    → SettledGrant draws user amount source operation db receipt db'
    → Granted user amount start receipt db'
SettledGrant-Granted draws user amount source operation start db {receipt} {db'} before
      posted_before positive s =
    let (row, progress, found, has_progress, has_wallet, id, status, xp, _, _) =
      locked_rows user db s.locked in
    let (m, a, xp_eq, added_eq, _, p) =
      project-IsPaid s.player.account_xp s.player.wallet amount positive s.projected in
    let same = s.receipt_eq in
    let wallet_before = account_total s.player.player_id wallet_account db.postings in
    let system_before = kind_total system_account db.postings in
    let posted_as_is = reward_of-pos s.projection (rewarded m a _ s.projection p) in
    let players = s.players_eq in
    record {
      row = row;
      progress = progress;
      xp = m;
      added = a;
      wallet = s.player.wallet;
      found = rw (← before) found;
      has_progress = has_progress;
      has_wallet = has_wallet;
      active = rw status s.active;
      xp_eq = xp ∙ xp_eq;
      added_eq = added_eq;
      written =
          rw (same, players, ← id)
            (find-paid (find_by_discord user)
                (λ change keeps rows r e. find_by_discord-update_player change keeps user rows e)
                s.projection row progress s.player.wallet
                (λ none_granted. xp_unchanged m a _ s.projection p none_granted ∙ sym (xp ∙ xp_eq))
                (λ no_reward. wallet_unchanged m a _ s.projection p no_reward) has_progress
                has_wallet db.players found
              ∙ ap some
                  (paid_row-eq s.projection row progress s.player.wallet has_progress has_wallet));
      capped =
          ap (λ (r : AccountXpGrantReceipt). r.account_xp_after) same ∙ capped m a _ s.projection p;
      level_before = rw same (level_before m a _ s.projection p);
      level_after = rw same (level_after m a _ s.projection p);
      rewarded = rw same (rewarded m a _ s.projection p);
      paid = rw same (wallet_paid m a _ s.projection p);
      others = λ other. elim (Bool-cases (row.id == other)) [
        | inl this ↦ inl (ground arith)
        | inr that ↦ inr (
            rw (players, ← id, ← before)
              (paid_players-other row.id other s.projection db.players (ground arith)))
      ];
      lines = s.lines;
      lines_eq = rw (← posted_before) s.lines_eq;
      balanced = s.balanced;
      wallet_mirrors =
          rw (same, id, ← posted_before)
            (moved_mirrors _ _ s.player.wallet _ _
              (s.wallet_moves ∙ ap (λ r. r +ℤ wallet_before) posted_as_is)
              (wallet_paid m a _ s.projection p));
      system_moves =
          rw (same, ← posted_before)
            (s.system_moves ∙ ap (λ r. neg r +ℤ system_before) posted_as_is);
      requested = rw same refl;
      before = rw same xp_eq;
    }
