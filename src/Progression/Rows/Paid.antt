-- ===== src/Progression/Rows/Paid.antt =====
-- The rows of players after a grant: the Account XP and the Wallet of its projection.
use graphite_bot.Common.{
  ℕ, ◌+◌, ◌≤◌, ◌-◌, min, ◌≡◌, ◌≢◌, refl, ◌∙◌, ap, Bool-cases, false, Option, some, List, ok, arith,
  ◌<◌, if◌then◌else◌, inl, inr,
}
use graphite_bot.Common.Int.{ℤ, pos, negsuc, leb_ℤ, ltb_ℤ, ◌+ℤ◌}
use graphite_bot.Common.Values.{Uuid}
use graphite_bot.Progression.Account.{AccountXpGrantProjection, project_account_xp_grant}
use graphite_bot.Progression.Account.Curve.{total_reward}
use graphite_bot.Progression.Account.Levels.{IsLevelAt, level_of-IsLevelAt}
use graphite_bot.Progression.Account.Grants.{
  projection_of, projected, granted, reward_between, project-range,
}
use graphite_bot.Progression.Tables.{ProgressRow, ProgressionPlayer}
use graphite_bot.Progression.Rows.{
  find_by_id, update_player, write_account_xp, write_wallet, with_account_xp, with_wallet,
}
use graphite_bot.Progression.Rows.Updates.{Keeps, find_by_id-update_other}

-- Each update is made only when it changes something.
abbrev pub paid_players :
    Uuid → AccountXpGrantProjection → List ProgressionPlayer → List ProgressionPlayer
paid_players id p rows =
    let earned =
      if ltb_ℤ (pos 0) p.granted_xp
      then update_player id (write_account_xp p.account_xp_after) rows
      else rows in
    if ltb_ℤ (pos 0) p.level_money_reward
    then update_player id (write_wallet p.wallet_after) earned
    else earned

abbrev pub paid_row : AccountXpGrantProjection → ProgressionPlayer → ProgressionPlayer
paid_row p row = write_wallet p.wallet_after (write_account_xp p.account_xp_after row)

-- The row with the joined values written.
pub paid_row-eq :
    (p : AccountXpGrantProjection) (row : ProgressionPlayer) (progress : ProgressRow) (wallet : ℤ)
    → row.progress ≡ some progress
    → row.wallet ≡ some wallet
    → paid_row p row ≡ record row {
      progress = some (record progress { account_xp = p.account_xp_after });
      wallet = some p.wallet_after;
    }
paid_row-eq p row progress wallet e f =
    let first : with_account_xp p.account_xp_after row.progress
        ≡ some (record progress { account_xp = p.account_xp_after }) =
      rw e refl in
    let second : with_wallet p.wallet_after row.wallet ≡ some p.wallet_after = rw f refl in
    ap
      (λ (o : Option ProgressRow). record row {
        progress = o;
        wallet = with_wallet p.wallet_after row.wallet;
      })
      first
    ∙ ap
        (λ (w : Option ℤ). record row {
          progress = some (record progress { account_xp = p.account_xp_after });
          wallet = w;
        })
        second

write_account_xp-same :
    (row : ProgressionPlayer) {progress : ProgressRow}
    → row.progress ≡ some progress
    → write_account_xp progress.account_xp row ≡ row
write_account_xp-same row {progress} e =
    let same : with_account_xp progress.account_xp row.progress ≡ row.progress = rw e refl in
    ap (λ (o : Option ProgressRow). record row { progress = o }) same

write_wallet-same :
    (row : ProgressionPlayer) {wallet : ℤ}
    → row.wallet ≡ some wallet
    → write_wallet wallet row ≡ row
write_wallet-same row {wallet} e =
    let same : with_wallet wallet row.wallet ≡ row.wallet = rw e refl in
    ap (λ (o : Option ℤ). record row { wallet = o }) same

-- `find` is one of the two lookups; where an update is left out it would have changed nothing.
module _ (find : List ProgressionPlayer → Option ProgressionPlayer)
    (find-update : (change : ProgressionPlayer → ProgressionPlayer)
      → Keeps change
      → (rows : List ProgressionPlayer) (row : ProgressionPlayer) → find rows ≡ some row
      → find (update_player row.id change rows) ≡ some (change row))
    (p : AccountXpGrantProjection) (row : ProgressionPlayer) (progress : ProgressRow) (wallet : ℤ)
    (xp_same : ltb_ℤ (pos 0) p.granted_xp ≡ false → p.account_xp_after ≡ progress.account_xp)
    (wallet_same : ltb_ℤ (pos 0) p.level_money_reward ≡ false → p.wallet_after ≡ wallet)
    (has_progress : row.progress ≡ some progress) (has_wallet : row.wallet ≡ some wallet)
    (rows : List ProgressionPlayer) (found : find rows ≡ some row) where
  find-earned :
      find (
        if ltb_ℤ (pos 0) p.granted_xp
        then update_player row.id (write_account_xp p.account_xp_after) rows
        else rows)
      ≡ some (write_account_xp p.account_xp_after row)
  find-earned = elim (Bool-cases (ltb_ℤ (pos 0) p.granted_xp)) [
    | inl earned ↦
        rw earned (
          find-update (write_account_xp p.account_xp_after) (λ r. (refl, refl, refl)) rows row
            found)
    | inr nothing ↦ rw (nothing, xp_same nothing, write_account_xp-same row has_progress) found
  ]

  pub find-paid : find (paid_players row.id p rows) ≡ some (paid_row p row)
  find-paid = elim (Bool-cases (ltb_ℤ (pos 0) p.level_money_reward)) [
    | inl reward ↦
        rw reward
          (find-update (write_wallet p.wallet_after) (λ r. (refl, refl, refl)) _ _ find-earned)
    | inr nothing ↦
        rw
          (
            nothing,
            wallet_same nothing,
            write_wallet-same (write_account_xp p.account_xp_after row) has_wallet,
          )
          find-earned
  ]

pub paid_players-other :
    (id other : Uuid) (p : AccountXpGrantProjection) (rows : List ProgressionPlayer)
    → id ≢ other
    → find_by_id other (paid_players id p rows) ≡ find_by_id other rows
paid_players-other id other p rows ne = ground (
  arith,
  find_by_id-update_other (write_account_xp p.account_xp_after) (λ r. (refl, refl, refl)) id other
      rows ne,
  find_by_id-update_other (write_wallet p.wallet_after) (λ r. (refl, refl, refl)) id other
      (if ltb_ℤ (pos 0) p.granted_xp
        then update_player id (write_account_xp p.account_xp_after) rows
        else rows)
      ne,
)

-- The projection of a grant from XP in range.
pub record IsPaid (m a : ℕ) (wallet : ℤ) (p : AccountXpGrantProjection) : Type 0 where
  pub in_range : m ≤ 172370
  pub projection_eq : p ≡ projection_of m a wallet

pub project-IsPaid :
    (xp wallet amount : ℤ) {p : AccountXpGrantProjection}
    → leb_ℤ amount (pos 0) ≡ false
    → project_account_xp_grant xp wallet amount ≡ ok p
    → (m : ℕ) × (a : ℕ) × (xp ≡ pos m) × (amount ≡ pos a) × (0 < a) × IsPaid m a wallet p
project-IsPaid xp wallet (negsuc a) positive h = absurd (ground arith)
project-IsPaid xp wallet (pos a) positive h =
    let (m, e, le) = project-range xp wallet (pos a) h in
    (
      m,
      a,
      e,
      refl,
      ground arith,
      record { in_range = le; projection_eq = (projected m a wallet le (rw e at h)).0 },
    )

add_zero : (w : ℤ) (r : ℕ) → ltb_ℤ (pos 0) (pos r) ≡ false → w +ℤ pos r ≡ w
unfolding ◌+ℤ◌
add_zero w r h = ground arith

min-granted : (m a : ℕ) → m ≤ 172370 → m + granted m a ≡ min (m + a) 172370
min-granted m a h = ground arith

module _ (m a : ℕ) (wallet : ℤ) (p : AccountXpGrantProjection) (paid : IsPaid m a wallet p) where
  pub xp_unchanged : ltb_ℤ (pos 0) p.granted_xp ≡ false → p.account_xp_after ≡ pos m
  xp_unchanged h = ground (arith, paid.projection_eq)

  pub wallet_unchanged : ltb_ℤ (pos 0) p.level_money_reward ≡ false → p.wallet_after ≡ wallet
  wallet_unchanged h =
      rw paid.projection_eq
        (add_zero wallet (reward_between m (m + granted m a)) (rw paid.projection_eq at h))

  pub capped : p.account_xp_after ≡ pos (min (m + a) 172370)
  capped = rw paid.projection_eq (ap pos (min-granted m a paid.in_range))

  pub level_before : IsLevelAt m p.before.level
  level_before = rw paid.projection_eq (level_of-IsLevelAt m paid.in_range)

  pub level_after : IsLevelAt (min (m + a) 172370) p.after.level
  level_after =
      rw (paid.projection_eq, min-granted m a paid.in_range)
        (level_of-IsLevelAt (min (m + a) 172370) (omega arith))

  pub rewarded :
      p.level_money_reward ≡ pos (total_reward p.after.level - total_reward p.before.level)
  rewarded = rw paid.projection_eq refl

  pub wallet_paid : p.wallet_after ≡ wallet +ℤ p.level_money_reward
  wallet_paid = rw paid.projection_eq refl
