-- ===== src/Economy/Interest/Calls.antt =====
-- The calls of the interest service: one player by Discord id, one by id, and a batch.
use graphite_bot.Common.{
  not, ◌&&◌, suc, ◌>>=◌, Result, ℕ, ◌≡◌, refl, subst, some, List, [], ◌∷◌, ok, err, arith, All,
  ◌==◌, ==_iff, Bool-cases, Option-cases, Result-cases, inl, inr,
}
use graphite_bot.Common.Int.{ℤ, eqb_ℤ, pos}
use graphite_bot.Common.Values.{Uuid, Digest, is_deleted}
use graphite_bot.Economy.Tables.{LotRow}
use graphite_bot.Economy.Interest.Tables.{
  BankInterestError, InterestPlayer, InterestDb, InterestDraws, BankInterestSummary,
  BankInterestBatchSummary, Calendar, Date,
}
use graphite_bot.Economy.Interest.{
  find_by_discord, find_by_id, accrue_interest, accrue_interest_tx, accrue_by_id_tx,
  accrue_interest_by_player_id, accrue_rows, committed, accrue_due_interest_batch, add_summary,
}
use graphite_bot.Economy.Interest.Accrual.{accrue_locked_player}
use graphite_bot.Economy.Interest.Sound.{Balanced, IsSound}
use graphite_bot.Economy.Interest.Accrued.{Accrued, accrue_locked_player-Accrued}

committed-IsSound :
    {A : Type 0} (m : Result BankInterestError (A × InterestDb)) (db : InterestDb)
    → IsSound db
    → ((a : A) (db' : InterestDb) → m ≡ ok (a, db') → IsSound db')
    → IsSound (committed m db).1
committed-IsSound (ok (a, db')) db s h = h a db' refl
committed-IsSound (err e) db s h = s

module _ (interest_request_hash : Uuid → Date → ℤ → ℤ → ℤ → Digest)
    (draws : Uuid → Date → InterestDraws) (calendar : Calendar) where
  find_by_discord-Balanced :
      (lots : List LotRow) (user : ℤ) (rows : List InterestPlayer) {row : InterestPlayer}
      → All (Balanced lots) rows
      → find_by_discord user rows ≡ some row
      → Balanced lots row
  unfolding find_by_discord
  find_by_discord-Balanced lots user [] a h = cc
  find_by_discord-Balanced lots user (first ∷ rows) {row} a h =
      elim (Bool-cases (eqb_ℤ first.discord_user_id user && not (is_deleted first.status))) [
        | inl e ↦ subst (Balanced lots) (ground arith) a.0
        | inr e ↦ find_by_discord-Balanced lots user rows a.1 (ground arith)
      ]

  find_by_id-Balanced :
      (lots : List LotRow) (id : Uuid) (rows : List InterestPlayer) {row : InterestPlayer}
      → All (Balanced lots) rows
      → find_by_id id rows ≡ some row
      → Balanced lots row × (row.player_id ≡ id)
  unfolding find_by_id
  find_by_id-Balanced lots id [] a h = cc
  find_by_id-Balanced lots id (first ∷ rows) {row} a h =
      elim (Bool-cases ((first.player_id == id) && not (is_deleted first.status))) [
        | inl e ↦
            let same : first ≡ row = ground arith in
            (subst (Balanced lots) same a.0, ground (arith, ==_iff first.player_id id))
        | inr e ↦ find_by_id-Balanced lots id rows a.1 (ground arith)
      ]

  -- An accrual that goes through, on tables whose rows are in range and whose balances are the
  -- sums of their lots, credits the lots of one player with exactly the interest that it reports,
  -- leaves every other player's principal alone, and keeps each Bank balance the sum of its
  -- player's lots.
  pub accrue_interest-Accrued :
      (today : Date) (snowflake : ℕ) (db : InterestDb) {summary : BankInterestSummary}
      {db' : InterestDb}
      → IsSound db
      → accrue_interest interest_request_hash draws calendar today snowflake db ≡ (ok summary, db')
      → (id : Uuid) × Accrued id db summary db'
  unfolding accrue_interest accrue_interest_tx
  accrue_interest-Accrued today snowflake db {summary} {db'} s h =
      elim (Option-cases (find_by_discord (pos snowflake) db.players)) [
        | inl nobody ↦ absurd (ground arith)
        | inr (player, found) ↦
            let balanced =
              find_by_discord-Balanced db.lots (pos snowflake) db.players s.balanced found in
            let run =
              accrue_locked_player interest_request_hash (draws player.player_id) calendar player
                today db in
            elim (Result-cases run) [
              | inr (er, refused) ↦ absurd (ground arith)
              | inl ((done, out), ran) ↦
                  let ran' : run ≡ ok (summary, db') = ground arith in
                  (
                    player.player_id,
                    accrue_locked_player-Accrued interest_request_hash (draws player.player_id)
                        calendar player today db s balanced ran',
                  )
            ]
      ]

  accrue_by_id_tx-Accrued :
      (today : Date) (id : Uuid) (db : InterestDb) {summary : BankInterestSummary}
      {db' : InterestDb}
      → IsSound db
      → accrue_by_id_tx interest_request_hash draws calendar today id db ≡ ok (summary, db')
      → Accrued id db summary db'
  unfolding accrue_by_id_tx
  accrue_by_id_tx-Accrued today id db {summary} {db'} s h =
      elim (Option-cases (find_by_id id db.players)) [
        | inl nobody ↦ absurd (ground arith)
        | inr (player, found) ↦
            let owned = find_by_id-Balanced db.lots id db.players s.balanced found in
            let ran : accrue_locked_player interest_request_hash (draws player.player_id) calendar
                  player today db
                ≡ ok (summary, db') =
              ground arith in
            subst (λ (u : Uuid). Accrued u db summary db') owned.1
              (accrue_locked_player-Accrued interest_request_hash (draws player.player_id) calendar
                player today db s owned.0 ran)
      ]

  accrue_interest_by_player_id-IsSound :
      (today : Date) (id : Uuid) (db : InterestDb)
      → IsSound db
      → IsSound (accrue_interest_by_player_id interest_request_hash draws calendar today id db).1
  unfolding accrue_interest_by_player_id
  accrue_interest_by_player_id-IsSound today id db s =
      committed-IsSound (accrue_by_id_tx interest_request_hash draws calendar today id db) db s
        λ summary db' e. (accrue_by_id_tx-Accrued today id db s e).sound

  accrue_rows-IsSound :
      (today : ℕ → Date) (round : ℕ) (rows : List InterestPlayer) (batch : BankInterestBatchSummary)
      (db : InterestDb)
      → IsSound db
      → IsSound (accrue_rows interest_request_hash draws calendar today round rows batch db).1
  unfolding accrue_rows
  accrue_rows-IsSound today round [] batch db s = s
  accrue_rows-IsSound today round (row ∷ rows) batch db s =
      let accrued =
        accrue_interest_by_player_id interest_request_hash draws calendar (today round)
          row.player_id db in
      let next = accrue_interest_by_player_id-IsSound (today round) row.player_id db s in
      elim (Result-cases (accrued.0 >>= add_summary interest_request_hash draws calendar batch)) [
        | inl (batch', e) ↦
            rw (e, accrue_rows) (accrue_rows-IsSound today (suc round) rows batch' accrued.1 next)
        | inr (er, e) ↦ rw (e, accrue_rows) next
      ]

  -- On tables with distinct lot ids, no negative lot and rows in range, a batch of accruals keeps
  -- every Bank balance the sum of its player's lots, whatever the limit and the days are, also
  -- when it stops at an error.
  pub accrue_due_interest_batch-IsSound :
      (today : ℕ → Date) (limit : ℕ) (db : InterestDb)
      → IsSound db
      → IsSound (accrue_due_interest_batch interest_request_hash draws calendar today limit db).1
  unfolding accrue_due_interest_batch
  accrue_due_interest_batch-IsSound today limit db s = elim (Bool-cases (limit == 0)) [
    | inl e ↦ rw e s
    | inr e ↦ rw e (accrue_rows-IsSound today 1 _ _ db s)
  ]
