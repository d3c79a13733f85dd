-- ===== src/Progression/Service/RebirthCalls.antt =====
-- Whole calls of `rebirth`, with the Bank's interest between its two steps.
use graphite_bot.Common.{
  ℕ, ◌≡◌, refl, sym, subst, Result, ok, err, arith, ◌⊎◌, inl, inr, Result-cases, Bool-cases, ltb,
}
use graphite_bot.Common.Int.{ℤ, pos}
use graphite_bot.Common.Values.{Uuid, Text, Digest}
use graphite_bot.Economy.Interest.Tables.{
  InterestDb, BankInterestSummary, BankInterestError, InterestDraws, Calendar, Date,
}
use graphite_bot.Economy.Interest.{accrue_interest}
use graphite_bot.Progression.Errors.{ProgressionError, snowflake_out_of_range}
use graphite_bot.Progression.Tables.{
  RebirthReceipt, reborn, StoredResult, stored, MutationKind, ProgressionDb, Draws,
}
use graphite_bot.Progression.Operations.{
  OperationResolution, resolved_pending, resolved_committed, resolve_operation,
}
use graphite_bot.Progression.Replay.{Answered, resolve_committed-Answered, resolve_operation_keeps}
use graphite_bot.Progression.Service.{ensure_rebirth_eligible}
use graphite_bot.Progression.Service.Reborn.{Reborn, SettledRebirth-Reborn, settle_rebirth-Settled}
use graphite_bot.Progression.Service.Rebirths.{
  Store, settle_rebirth, set_rebirth_count, commit_rebirth, decode_rebirth, after_accrual,
  resume_rebirth, claim_rebirth, rebirth,
}

module _ (interest_request_hash : Uuid → Date → ℤ → ℤ → ℤ → Digest)
    (interest_draws : Uuid → Date → InterestDraws) (calendar : Calendar) (today : Date)
    (rebirth_request_hash : Digest) (primary : Text) (draws : Draws) (snowflake : ℕ) (key : Text)
    (store : Store) where
  abbrev pub accrued : Result BankInterestError BankInterestSummary × InterestDb
  accrued =
      accrue_interest interest_request_hash interest_draws calendar today snowflake store.interest

  -- The progression side of a Rebirth, and the Bank after its interest with the new count.
  pub record RebornAfter (receipt : RebirthReceipt) (store' : Store) : Type 0 where
    pub player : Uuid
    pub summary : BankInterestSummary
    pub reborn : Reborn (pos snowflake) store.progression receipt player store'.progression
    pub accrued_ok : accrued.0 ≡ ok summary
    pub counts : store'.interest ≡ record accrued.1 {
      players = set_rebirth_count player (pos receipt.rebirth_count) accrued.1.players;
    }

  -- A stored answer that changes nothing, or a new Rebirth.
  abbrev pub Completed : RebirthReceipt → Store → Type 0
  Completed receipt store' =
      ((store' ≡ store)
        × Answered (pos snowflake) key MutationKind.rebirth rebirth_request_hash (reborn receipt)
            store.progression)
      ⊎ RebornAfter receipt store'

  -- What is said of a call that goes through.
  abbrev Outcome : Result ProgressionError RebirthReceipt × Store → Type 0
  Outcome (ok receipt, store') = Completed receipt store'
  Outcome (err e, store') = Unit

  pub SettledRebirth-RebornAfter :
      (operation : Uuid) (claimed : ProgressionDb) (summary : BankInterestSummary)
      {receipt : RebirthReceipt} {player : Uuid} {done : ProgressionDb}
      → claimed.players ≡ store.progression.players
      → claimed.postings ≡ store.progression.postings
      → accrued.0 ≡ ok summary
      → settle_rebirth draws primary (pos snowflake) operation claimed ≡ ok (receipt, player, done)
      → RebornAfter receipt
          (commit_rebirth
            (record { progression = store.progression; interest = accrued.1 })
            (ok (receipt, player, done))).1
  SettledRebirth-RebornAfter operation claimed summary {player = player} players postings paid h =
      record {
        player = player;
        summary = summary;
        reborn =
            SettledRebirth-Reborn (pos snowflake) operation store.progression claimed players
              postings (settle_rebirth-Settled draws primary (pos snowflake) operation claimed h);
        accrued_ok = paid;
        counts = refl;
      }

  settled-Outcome :
      (operation : Uuid) (claimed : ProgressionDb) (summary : BankInterestSummary)
      → claimed.players ≡ store.progression.players
      → claimed.postings ≡ store.progression.postings
      → accrued.0 ≡ ok summary
      → (r : Result ProgressionError (RebirthReceipt × Uuid × ProgressionDb))
      → settle_rebirth draws primary (pos snowflake) operation claimed ≡ r
      → Outcome
          (commit_rebirth (record { progression = store.progression; interest = accrued.1 }) r)
  settled-Outcome operation claimed summary players postings paid (err e) h = tt
  settled-Outcome operation claimed summary players postings paid (ok (receipt, id, db')) h =
      inr (SettledRebirth-RebornAfter operation claimed summary players postings paid h)

  after_accrual-Outcome :
      (operation : Uuid) (claimed : ProgressionDb)
      → claimed.players ≡ store.progression.players
      → claimed.postings ≡ store.progression.postings
      → (r : Result BankInterestError BankInterestSummary) → accrued.0 ≡ r
      → Outcome (
          after_accrual
            (settle_rebirth draws primary (pos snowflake) operation)
            store.progression
            claimed
            (r, accrued.1))
  after_accrual-Outcome operation claimed players postings (err e) h = tt
  after_accrual-Outcome operation claimed players postings (ok summary) h =
      settled-Outcome operation claimed summary players postings h _ refl

  abbrev Resolved : OperationResolution → ProgressionDb → Type 0
  Resolved resolution claimed =
      resolve_operation draws (pos snowflake) key MutationKind.rebirth rebirth_request_hash
        store.progression
      ≡ ok (resolution, claimed)

  decoded_rebirth :
      (value : StoredResult) {receipt : RebirthReceipt}
      → decode_rebirth value ≡ ok receipt
      → value ≡ stored (reborn receipt)
  decoded_rebirth value h = ground arith

  decoded-Outcome :
      (value : StoredResult) (claimed : ProgressionDb)
      → Resolved (resolved_committed value) claimed
      → (r : Result ProgressionError RebirthReceipt) → decode_rebirth value ≡ r
      → Outcome (r, store)
  decoded-Outcome value claimed found (err e) h = tt
  decoded-Outcome value claimed found (ok receipt) h = inl (
    refl,
    resolve_committed-Answered draws (pos snowflake) key MutationKind.rebirth rebirth_request_hash
        (reborn receipt) store.progression found (decoded_rebirth value h),
  )

  abbrev resume :
      OperationResolution → ProgressionDb → Result ProgressionError RebirthReceipt × Store
  resume resolution claimed =
      resume_rebirth interest_request_hash interest_draws calendar today rebirth_request_hash
        primary draws snowflake (pos snowflake) store (resolution, claimed)

  resume_rebirth-Outcome :
      (resolution : OperationResolution) (claimed : ProgressionDb)
      → Resolved resolution claimed
      → Outcome (resume resolution claimed)
  unfolding resume_rebirth
  resume_rebirth-Outcome (resolved_committed value) claimed found =
      decoded-Outcome value claimed found (decode_rebirth value) refl
  resume_rebirth-Outcome (resolved_pending operation) claimed found =
      let (players, postings) =
        resolve_operation_keeps draws (pos snowflake) key MutationKind.rebirth rebirth_request_hash
          store.progression found in
      elim (Result-cases (ensure_rebirth_eligible (pos snowflake) claimed)) [
        | inr (e, refused) ↦
            let ends : resume (resolved_pending operation) claimed ≡ (err e, store) =
              rw refused refl in
            subst Outcome (sym ends) tt
        | inl (_, eligible) ↦
            let goes_on : resume (resolved_pending operation) claimed
                ≡ after_accrual (settle_rebirth draws primary (pos snowflake) operation)
                    store.progression claimed (accrued.0, accrued.1) =
              rw eligible refl in
            subst Outcome (sym goes_on)
              (after_accrual-Outcome operation claimed players postings accrued.0 refl)
      ]

  whole : Result ProgressionError RebirthReceipt × Store
  whole =
      rebirth interest_request_hash interest_draws calendar today rebirth_request_hash primary draws
        snowflake key store

  refused-Outcome : (e : ProgressionError) → whole ≡ (err e, store) → Outcome whole
  refused-Outcome e h = subst Outcome (sym h) tt

  rebirth-Outcome : Outcome whole
  unfolding whole rebirth claim_rebirth
  rebirth-Outcome = elim (Bool-cases (ltb snowflake 9223372036854775808)) [
    | inr over ↦ refused-Outcome snowflake_out_of_range (rw over refl)
    | inl fits ↦
        elim (Result-cases (
          resolve_operation draws (pos snowflake) key MutationKind.rebirth rebirth_request_hash
            store.progression)) [
              | inr (e, refused) ↦ refused-Outcome e (rw (fits, refused) refl)
              | inl ((resolution, claimed), found) ↦
                  let goes_on : whole ≡ resume resolution claimed = rw (fits, found) refl in
                  subst Outcome (sym goes_on) (resume_rebirth-Outcome resolution claimed found)
            ]
  ]

  -- A Rebirth that goes through either changes nothing and answers with the receipt that the
  -- committed operation of the same user, kind and request stores under its key, or the Bank has
  -- accrued the player's interest and then: the active player stood at 172,370 XP, starts again
  -- at nothing with one more rebirth, keeps the Activity EXP and the Wallet, every other player
  -- and all postings of the progression stay, and the Bank's rows differ from the accrued ones by
  -- the new count only.
  pub rebirth-RebornAfter :
      {receipt : RebirthReceipt} {store' : Store}
      → rebirth interest_request_hash interest_draws calendar today rebirth_request_hash primary
          draws snowflake key store
        ≡ (ok receipt, store')
      → Completed receipt store'
  unfolding whole
  rebirth-RebornAfter h = subst Outcome (h) rebirth-Outcome
