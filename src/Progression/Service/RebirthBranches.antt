-- ===== src/Progression/Service/RebirthBranches.antt =====
-- The ways in which a Rebirth whose operation is pending ends: refused, stopped by the Bank, or done.
use graphite_bot.Common.{
  ℕ, suc, ◌≤◌, ◌<◌, ◌≡◌, refl, ◌∙◌, ap, true, false, some, Result, ok, err, ◌⊎◌, inl, inr,
  Bool-cases, ltb, arith,
}
use graphite_bot.Common.Int.{ℤ, pos}
use graphite_bot.Common.Checked.{i64_limit}
use graphite_bot.Common.Values.{Uuid, Text, Digest, is_active}
use graphite_bot.Economy.Interest.Tables.{
  InterestDb, BankInterestSummary, BankInterestError, InterestDraws, Calendar, Date,
}
use graphite_bot.Economy.Interest.{accrue_interest}
use graphite_bot.Progression.Errors.{ProgressionError, bank_interest}
use graphite_bot.Progression.Tables.{
  ProgressRow, ProgressionPlayer, RebirthReceipt, MutationKind, ProgressionDb, Draws,
}
use graphite_bot.Progression.Rows.{find_by_discord}
use graphite_bot.Progression.Operations.{resolved_pending, resolve_operation}
use graphite_bot.Progression.Replay.{resolve_operation_keeps}
use graphite_bot.Progression.Service.RebirthCalls.{RebornAfter, SettledRebirth-RebornAfter}
use graphite_bot.Progression.Service.Rebirths.{
  Store, settle_rebirth, commit_rebirth, after_accrual, resume_rebirth, claim_rebirth, rebirth,
}
use graphite_bot.Progression.Service.RebirthProgress.{
  resolve_operation-commit_rows, refusal, not_eligible, eligible, settle_rebirth_total,
}

module _ (interest_request_hash : Uuid → Date → ℤ → ℤ → ℤ → Digest)
    (interest_draws : Uuid → Date → InterestDraws) (calendar : Calendar) (today : Date)
    (rebirth_request_hash : Digest) (primary : Text) (draws : Draws) (snowflake : ℕ) (key : Text)
    (store : Store) where
  abbrev accrued : Result BankInterestError BankInterestSummary × InterestDb
  accrued =
      accrue_interest interest_request_hash interest_draws calendar today snowflake store.interest

  abbrev Done : RebirthReceipt → Store → Type 0
  Done =
      RebornAfter interest_request_hash interest_draws calendar today rebirth_request_hash primary
        draws snowflake key store

  -- The two ends once the player may be reborn.
  abbrev Ends : Result ProgressionError RebirthReceipt × Store → Type 0
  Ends r =
      ((e : BankInterestError) × (accrued.0 ≡ err e)
        × (r ≡ (
          err (bank_interest e),
          record { progression = store.progression; interest = accrued.1 },
        )))
      ⊎ ((summary : BankInterestSummary) × (accrued.0 ≡ ok summary)
          × (receipt : RebirthReceipt) × (store' : Store) × (r ≡ (ok receipt, store'))
          × Done receipt store')

  -- The ends of a new Rebirth of a player with the XP `m`.
  abbrev pub Branches :
      ProgressionPlayer → ℕ → Result ProgressionError RebirthReceipt × Store → Type 0
  Branches row m r =
      (((is_active row.status ≡ false) ⊎ (m < 172370)) × (r ≡ (err (refusal row), store)))
      ⊎ ((is_active row.status ≡ true) × (m ≡ 172370) × Ends r)

  after_accrual_total :
      (operation : Uuid) (claimed : ProgressionDb) {receipt : RebirthReceipt} {player : Uuid}
      {done : ProgressionDb}
      → claimed.players ≡ store.progression.players
      → claimed.postings ≡ store.progression.postings
      → settle_rebirth draws primary (pos snowflake) operation claimed ≡ ok (receipt, player, done)
      → (r : Result BankInterestError BankInterestSummary) → accrued.0 ≡ r
      → Ends (
          after_accrual
            (settle_rebirth draws primary (pos snowflake) operation)
            store.progression
            claimed
            (r, accrued.1))
  after_accrual_total operation claimed players postings h (err e) stopped = inl (e, stopped, refl)
  after_accrual_total operation claimed {receipt} {player} {done} players postings h (ok summary)
        paid =
      inr (
        summary,
        paid,
        receipt,
        (commit_rebirth (record { progression = store.progression; interest = accrued.1 })
            (ok (receipt, player, done))).1,
        rw h refl,
        SettledRebirth-RebornAfter interest_request_hash interest_draws calendar today
            rebirth_request_hash primary draws snowflake key store operation claimed summary players
            postings paid h,
      )

  -- A Rebirth whose operation is new or still pending, of a found player with a Wallet and
  -- Account XP up to 172,370, where the user's id, the Activity EXP and the count raised by one
  -- are below 2^63, ends in one of three ways: a player who is not active, or below 172,370 XP,
  -- is refused with that error before the Bank accrues anything, and all tables stay; for an
  -- active one at 172,370 whose accrual fails it ends with the Bank's error, the progression as
  -- it was and the Bank as the accrual left it; and where the accrual goes through it goes
  -- through too: the player starts again at nothing with one more rebirth, keeps the Activity EXP
  -- and the Wallet, every other player and all postings of the progression stay, and the Bank's
  -- rows differ from the accrued ones by the new count only.
  pub rebirth-Branches :
      {operation : Uuid} {claimed : ProgressionDb} (row : ProgressionPlayer)
      (progress : ProgressRow) (wallet : ℤ) (m n k : ℕ)
      → snowflake < i64_limit
      → resolve_operation draws
          (pos snowflake)
          key
          MutationKind.rebirth
          rebirth_request_hash
          store.progression
        ≡ ok (resolved_pending operation, claimed)
      → find_by_discord (pos snowflake) store.progression.players ≡ some row
      → row.progress ≡ some progress
      → row.wallet ≡ some wallet
      → progress.account_xp ≡ pos m
      → m ≤ 172370
      → row.rebirth_count ≡ pos n
      → suc n < i64_limit
      → progress.activity_xp_points ≡ pos k
      → k < i64_limit
      → Branches row m (
          rebirth interest_request_hash interest_draws calendar today rebirth_request_hash primary
            draws snowflake key store)
  unfolding rebirth claim_rebirth resume_rebirth
  rebirth-Branches {operation} {claimed} row progress wallet m n k fits resolved found has_progress
        has_wallet xp within count few points small =
      let (players, postings) =
        resolve_operation_keeps draws (pos snowflake) key MutationKind.rebirth rebirth_request_hash
          store.progression resolved in
      let found' : find_by_discord (pos snowflake) claimed.players ≡ some row = rw players found in
      let inside : ltb snowflake 9223372036854775808 ≡ true = ground arith in
      let refused : (is_active row.status ≡ false) ⊎ (m < 172370)
          → rebirth interest_request_hash interest_draws calendar today rebirth_request_hash primary
              draws snowflake key store
            ≡ (err (refusal row), store) =
        λ why.
          rw
            (
              inside,
              resolved,
              not_eligible (pos snowflake) claimed row progress found' has_progress m xp within why,
            )
            refl in
      elim (Bool-cases (is_active row.status)) [
        | inr frozen ↦ inl (inl frozen, refused (inl frozen))
        | inl active ↦ elim (Bool-cases (ltb m 172370)) [
          | inl low ↦ let below : m < 172370 = ground arith in inl (inr below, refused (inr below))
          | inr high ↦
              let at : m ≡ 172370 = ground arith in
              let full : progress.account_xp ≡ pos 172370 = xp ∙ ap pos at in
              let (receipt, done, settled) =
                settle_rebirth_total (pos snowflake) claimed row progress found' has_progress draws
                  primary operation wallet n k active full has_wallet count few points small
                  (λ receipt.
                    resolve_operation-commit_rows draws (pos snowflake) key MutationKind.rebirth
                      rebirth_request_hash store.progression row.id receipt resolved) in
              inr (
                active,
                at,
                rw
                    (
                      inside,
                      resolved,
                      eligible (pos snowflake) claimed row progress found' has_progress active full,
                    )
                    (after_accrual_total operation claimed players postings settled accrued.0 refl),
              )
        ]
      ]
