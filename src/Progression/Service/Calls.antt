-- ===== src/Progression/Service/Calls.antt =====
-- Whole calls of `grant_account_xp`, and their repetition.
use graphite_bot.Common.{
  ℕ, ◌≡◌, refl, sym, ap, ◌∙◌, Bool, false, some, ok, arith, ◌⊎◌, inl, inr, Result-cases,
}
use graphite_bot.Common.Int.{ℤ, pos, leb_ℤ, to_i64}
use graphite_bot.Common.Values.{Text, Digest}
use graphite_bot.Progression.Service.Granted.{Granted, SettledGrant-Granted}
use graphite_bot.Progression.Service.Grants.{settle_grant-SettledGrant}
use graphite_bot.Progression.Tables.{
  AccountXpGrantReceipt, granted, stored, StoredResult, account_xp_grant, ProgressionDb, Draws,
}
use graphite_bot.Progression.Operations.{
  OperationResolution, resolved_pending, resolved_committed, resolve_operation,
}
use graphite_bot.Progression.Replay.{
  Answered, resolve_committed-Answered, has_operation, DistinctOperations, replay_committed,
  resolve_operation_keeps, replay_pending,
}
use graphite_bot.Progression.Service.{settle_grant, decode_grant, resume_grant, grant_account_xp}

module _ (is_blank : Text → Bool) (account_xp_request_hash : ℤ → Text → Digest) (primary : Text)
    (draws : Draws) (snowflake : ℕ) (amount : ℤ) (source key : Text) (db : ProgressionDb) where
  -- What a grant that returned `Ok` went through.
  record Called (receipt : AccountXpGrantReceipt) (db' : ProgressionDb) : Type 0 where
    positive : leb_ℤ amount (pos 0) ≡ false
    named : is_blank source ≡ false
    fits : to_i64 (pos snowflake) ≡ some (pos snowflake)
    resolution : OperationResolution
    claimed : ProgressionDb
    resolved :
        resolve_operation draws
          (pos snowflake)
          key
          account_xp_grant
          (account_xp_request_hash amount source)
          db
        ≡ ok (resolution, claimed)
    resumed :
        resume_grant
          (settle_grant draws primary (pos snowflake) amount source)
          (resolution, claimed)
        ≡ ok (receipt, db')

  grant_account_xp-Called :
      {receipt : AccountXpGrantReceipt} {db' : ProgressionDb}
      → grant_account_xp is_blank account_xp_request_hash primary draws snowflake amount source key
          db
        ≡ ok (receipt, db')
      → Called receipt db'
  unfolding grant_account_xp
  grant_account_xp-Called h =
      elim (Result-cases (
        resolve_operation draws (pos snowflake) key account_xp_grant
          (account_xp_request_hash amount source) db)) [
            | inr (e, bad) ↦ absurd (ground arith)
            | inl ((resolution, claimed), found) ↦ record {
              positive = ground arith;
              named = ground arith;
              fits = ground arith;
              resolution = resolution;
              claimed = claimed;
              resolved = found;
              resumed = ground arith;
            }
          ]

  -- A stored answer that changes nothing, or a new grant.
  abbrev pub Outcome : AccountXpGrantReceipt → ProgressionDb → Type 0
  Outcome receipt db' =
      ((db' ≡ db)
        × Answered (pos snowflake) key account_xp_grant (account_xp_request_hash amount source)
            (granted receipt) db)
      ⊎ Granted (pos snowflake) amount db receipt db'

  decoded_grant :
      (value : StoredResult) {receipt : AccountXpGrantReceipt}
      → decode_grant value ≡ ok receipt
      → value ≡ stored (granted receipt)
  decoded_grant value h = ground arith

  resumed-Granted :
      {receipt : AccountXpGrantReceipt} {db' : ProgressionDb} (resolution : OperationResolution)
      (claimed : ProgressionDb)
      → leb_ℤ amount (pos 0) ≡ false
      → resolve_operation draws
          (pos snowflake)
          key
          account_xp_grant
          (account_xp_request_hash amount source)
          db
        ≡ ok (resolution, claimed)
      → resume_grant
          (settle_grant draws primary (pos snowflake) amount source)
          (resolution, claimed)
        ≡ ok (receipt, db')
      → Outcome receipt db'
  unfolding resume_grant
  resumed-Granted {receipt} {db'} (resolved_committed value) claimed positive e h =
      let (same, _) = replay_committed draws draws (pos snowflake) key account_xp_grant _ db e in
      elim (Result-cases (decode_grant value)) [
        | inr (_, bad) ↦ absurd (ground arith)
        | inl (stored_receipt, decoded) ↦
            let returned : claimed ≡ db' = ground arith in
            let same_receipt : stored_receipt ≡ receipt = ground arith in
            inl (
              sym returned ∙ same,
              resolve_committed-Answered draws (pos snowflake) key account_xp_grant _
                  (granted receipt) db e (decoded_grant value (decoded ∙ ap ok same_receipt)),
            )
      ]
  resumed-Granted (resolved_pending operation) claimed positive e h =
      let (players, postings) =
        resolve_operation_keeps draws (pos snowflake) key account_xp_grant _ db e in
      inr (
        SettledGrant-Granted draws (pos snowflake) amount source operation db claimed players
          postings positive
          (settle_grant-SettledGrant draws primary (pos snowflake) amount source operation claimed
            h))

  resumed_again :
      (draws' : Draws) {receipt : AccountXpGrantReceipt} {db' : ProgressionDb}
      (resolution : OperationResolution) (claimed : ProgressionDb)
      → DistinctOperations db.operations
      → has_operation draws.operation_id db.operations ≡ false
      → resolve_operation draws
          (pos snowflake)
          key
          account_xp_grant
          (account_xp_request_hash amount source)
          db
        ≡ ok (resolution, claimed)
      → resume_grant
          (settle_grant draws primary (pos snowflake) amount source)
          (resolution, claimed)
        ≡ ok (receipt, db')
      → (value : StoredResult) × (resolve_operation draws'
            (pos snowflake)
            key
            account_xp_grant
            (account_xp_request_hash amount source)
            db'
          ≡ ok (resolved_committed value, db'))
        × (decode_grant value ≡ ok receipt)
  unfolding resume_grant
  resumed_again draws' {receipt} {db'} (resolved_committed value) claimed d fresh e h =
      let (same, again) =
        replay_committed draws draws' (pos snowflake) key account_xp_grant _ db e in
      elim (Result-cases (decode_grant value)) [
        | inr (_, bad) ↦ absurd (ground arith)
        | inl (stored_receipt, decoded) ↦
            let returned : claimed ≡ db' = ground arith in
            (value, rw (sym returned ∙ same) again, ground arith)
      ]
  resumed_again draws' {receipt} {db'} (resolved_pending operation) claimed d fresh e h =
      let s =
        settle_grant-SettledGrant draws primary (pos snowflake) amount source operation claimed h in
      (
        stored (granted receipt),
        replay_pending draws draws' (pos snowflake) key account_xp_grant _ db s.player.player_id
            (granted receipt) db' d fresh e s.committed,
        refl,
      )

  -- A grant that goes through either changes nothing and answers with the receipt that the
  -- committed operation of the same user, kind and request stores under its key, or the XP of the
  -- active player rises by the amount up to 172,370, the reported levels are those of the curve
  -- before and after, the Wallet rises by exactly the rewards of the levels that were passed, the
  -- new lines sum to zero and post the rewards out of the system's account and into the player's
  -- Wallet account, and every other player stays.
  pub grant_account_xp-Granted :
      {receipt : AccountXpGrantReceipt} {db' : ProgressionDb}
      → grant_account_xp is_blank account_xp_request_hash primary draws snowflake amount source key
          db
        ≡ ok (receipt, db')
      → Outcome receipt db'
  grant_account_xp-Granted {receipt} {db'} h =
      let c = grant_account_xp-Called h in
      resumed-Granted c.resolution c.claimed c.positive c.resolved c.resumed

  -- A grant that went through answers a repetition of the same request, whatever that draws, with
  -- the same receipt, and changes nothing; the operation ids stored before must be distinct and
  -- the first call's id new.
  pub grant_account_xp_idempotent :
      (draws' : Draws) {receipt : AccountXpGrantReceipt} {db' : ProgressionDb}
      → DistinctOperations db.operations
      → has_operation draws.operation_id db.operations ≡ false
      → grant_account_xp is_blank account_xp_request_hash primary draws snowflake amount source key
          db
        ≡ ok (receipt, db')
      → grant_account_xp is_blank account_xp_request_hash primary draws' snowflake amount source key
          db'
        ≡ ok (receipt, db')
  unfolding grant_account_xp resume_grant
  grant_account_xp_idempotent draws' {receipt} {db'} d fresh h =
      let c = grant_account_xp-Called h in
      let (value, again, decoded) =
        resumed_again draws' c.resolution c.claimed d fresh c.resolved c.resumed in
      rw (c.positive, c.named, c.fits, again, decoded) refl
