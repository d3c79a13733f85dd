-- ===== src/Progression/Rows/Updates.antt =====
-- An update of a player's row and what the two lookups find afterwards.
use graphite_bot.Common.{◌≡◌, ◌≢◌, refl, some, List, [], ◌∷◌, arith}
use graphite_bot.Common.Int.{ℤ}
use graphite_bot.Common.Values.{Uuid}
use graphite_bot.Progression.Tables.{ProgressionPlayer}
use graphite_bot.Progression.Rows.{find_by_discord, find_by_id, update_player}

-- The columns by which a row is found stay.
abbrev pub Keeps : (ProgressionPlayer → ProgressionPlayer) → Type 0
Keeps change =
    (row : ProgressionPlayer)
    → ((change row).id ≡ row.id)
      × ((change row).discord_user_id ≡ row.discord_user_id)
      × ((change row).status ≡ row.status)

module _ (change : ProgressionPlayer → ProgressionPlayer) (keeps : Keeps change) where
  pub find_by_discord-update_player :
      (user : ℤ) (rows : List ProgressionPlayer) {row : ProgressionPlayer}
      → find_by_discord user rows ≡ some row
      → find_by_discord user (update_player row.id change rows) ≡ some (change row)
  unfolding find_by_discord update_player
  find_by_discord-update_player user [] h = cc
  find_by_discord-update_player user (x ∷ xs) {row} h = ground (
    arith,
    keeps x,
    λ (e : find_by_discord user xs ≡ some row). find_by_discord-update_player user xs e,
  )

  pub find_by_id-update_player :
      (id : Uuid) (rows : List ProgressionPlayer) {row : ProgressionPlayer}
      → find_by_id id rows ≡ some row
      → find_by_id id (update_player id change rows) ≡ some (change row)
  unfolding find_by_id update_player
  find_by_id-update_player id [] h = cc
  find_by_id-update_player id (x ∷ xs) {row} h =
      ground (arith, keeps x, λ (e : find_by_id id xs ≡ some row). find_by_id-update_player id xs e)

  pub find_by_id-update_other :
      (id other : Uuid) (rows : List ProgressionPlayer)
      → id ≢ other
      → find_by_id other (update_player id change rows) ≡ find_by_id other rows
  unfolding find_by_id update_player
  find_by_id-update_other id other [] ne = refl
  find_by_id-update_other id other (x ∷ xs) ne =
      ground (arith, keeps x, find_by_id-update_other id other xs ne)
