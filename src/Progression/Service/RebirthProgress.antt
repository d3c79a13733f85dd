-- ===== src/Progression/Service/RebirthProgress.antt =====
-- Lemmas on the players who may be reborn, and on the second step of a Rebirth.
use graphite_bot.Common.{
  ℕ, suc, ◌≤◌, ◌<◌, ◌≡◌, refl, sym, true, false, ◌&&◌, some, List, [], ◌∷◌, ok, err, ◌⊎◌, inl, inr,
  Option-cases, Bool-cases, ◌==◌, if◌then◌else◌, arith,
}
use graphite_bot.Common.Int.{ℤ, pos, ltb_ℤ}
use graphite_bot.Common.Checked.{i64_limit}
use graphite_bot.Common.Values.{Uuid, Text, Digest, is_active, is_pending}
use graphite_bot.Progression.Errors.{ProgressionError, account_frozen, rebirth_requires_level_cap}
use graphite_bot.Progression.Account.{account_level}
use graphite_bot.Progression.Account.Levels.{
  total_xp-cap, level_of, level_of-IsLevelAt, account_level-level_of, account_level-iff-IsLevelAt,
}
use graphite_bot.Progression.Activity.Progress.{activity_progress_total}
use graphite_bot.Progression.Tables.{
  ProgressRow, ProgressionPlayer, RebirthReceipt, reborn, ProgressionReceipt, rebirth_event,
  MutationKind, OperationRow, ProgressionDb, Draws,
}
use graphite_bot.Progression.Rows.{find_by_discord}
use graphite_bot.Progression.Operations.{
  resolved_pending, select_operation, new_operation, resolve_operation, committed_row, commit_rows,
  commit_operation,
}
use graphite_bot.Progression.Replay.{resolve_found, resolve_new, validated_pending}
use graphite_bot.Progression.Service.{
  lock_progression, ensure_rebirth_eligible, insert_progression_event, insert_outbox, finish,
}
use graphite_bot.Progression.Service.Rebirths.{
  next_rebirth, rebirth_receipt, write_rebirth, settle_rebirth,
}

-- A claimed operation can be committed.
commit_rows-select :
    (key : Text) (operation player : Uuid) (receipt : ProgressionReceipt) (rows : List OperationRow)
    {row : OperationRow}
    → select_operation key rows ≡ some row
    → row.id ≡ operation
    → is_pending row.state ≡ true
    → (out : List OperationRow) × (commit_rows operation player receipt rows ≡ some out)
unfolding commit_rows select_operation
commit_rows-select key operation player receipt [] h i p = absurd (ground arith)
commit_rows-select key operation player receipt (first ∷ rows) {row} h i p =
    elim (Bool-cases (first.id == operation && is_pending first.state)) [
      | inl fits ↦ (committed_row player receipt first ∷ rows, rw fits refl)
      | inr not_it ↦
          let later : select_operation key rows ≡ some row = ground arith in
          let (out, e) = commit_rows-select key operation player receipt rows later i p in
          (first ∷ out, rw (not_it, e) refl)
    ]

pub resolve_operation-commit_rows :
    (draws : Draws) (user : ℤ) (key : Text) (kind : MutationKind) (hash : Digest)
    (db : ProgressionDb) (player : Uuid) (receipt : ProgressionReceipt) {operation : Uuid}
    {claimed : ProgressionDb}
    → resolve_operation draws user key kind hash db ≡ ok (resolved_pending operation, claimed)
    → (out : List OperationRow) × (commit_rows operation player receipt claimed.operations
        ≡ some out)
unfolding select_operation
resolve_operation-commit_rows draws user key kind hash db player receipt {operation} {claimed} h =
    elim (Option-cases (select_operation key db.operations)) [
      | inr (row, e) ↦
          let (valid, same) = resolve_found draws user key kind hash db row e h in
          let (id, open_row) = validated_pending row user kind hash operation valid in
          rw same (commit_rows-select key operation player receipt db.operations e id open_row)
      | inl e ↦
          let (id, same) = resolve_new draws user key kind hash db e h in
          let row = new_operation draws user key kind hash in
          rw (same) (
            commit_rows-select key operation player receipt (row ∷ db.operations) {row = row}
              (ground arith) (sym id) refl)
    ]

-- Only the cap is at level 200.
level_of-cap : (m : ℕ) → m < 172370 → (level_of m == 200) ≡ false
level_of-cap m below = let at = level_of-IsLevelAt m (omega arith) in ground (arith, at.not_next)

cap_level : account_level (pos 172370) ≡ ok 200
cap_level = (account_level-iff-IsLevelAt (pos 172370) 200).1 (
  172370,
  refl,
  record {
    first = omega arith;
    last = omega arith;
    reached = omega (arith, total_xp-cap);
    not_next = inl (refl, refl);
  },
)

-- Why a player is refused before anything is accrued.
abbrev pub refusal : ProgressionPlayer → ProgressionError
refusal row = if is_active row.status then rebirth_requires_level_cap else account_frozen row.status

next_rebirth_total : (n : ℕ) → suc n < i64_limit → next_rebirth n ≡ ok (pos (suc n))
next_rebirth_total n few = ground arith

not_negative : (n : ℕ) → ltb_ℤ (pos n) (pos 0) ≡ false
not_negative n = ground arith

finish_total :
    (draws : Draws) (primary : Text) (operation player : Uuid) (receipt : ProgressionReceipt)
    (db : ProgressionDb) {out : List OperationRow}
    → commit_rows operation player receipt db.operations ≡ some out
    → (done : ProgressionDb) × (finish draws primary operation player rebirth_event receipt db
        ≡ ok done)
unfolding finish commit_operation
finish_total draws primary operation player receipt db {out} h = (
  insert_outbox draws operation receipt
      (record (insert_progression_event draws primary operation player rebirth_event receipt db) {
        operations = out;
      }),
  rw h refl,
)

module _ (user : ℤ) (db : ProgressionDb) (row : ProgressionPlayer) (progress : ProgressRow)
    (found : find_by_discord user db.players ≡ some row)
    (has_progress : row.progress ≡ some progress) where
  pub not_eligible :
      (m : ℕ)
      → progress.account_xp ≡ pos m
      → m ≤ 172370
      → (is_active row.status ≡ false) ⊎ (m < 172370)
      → ensure_rebirth_eligible user db ≡ err (refusal row)
  unfolding ensure_rebirth_eligible
  not_eligible m xp within why = elim (Bool-cases (is_active row.status)) [
    | inr frozen ↦ rw (found, has_progress, frozen) refl
    | inl active ↦
        let below : m < 172370 = ground arith in
        rw (found, has_progress, active, xp, account_level-level_of m within, level_of-cap m below)
          refl
  ]

  pub eligible :
      is_active row.status ≡ true
      → progress.account_xp ≡ pos 172370
      → ensure_rebirth_eligible user db ≡ ok tt
  unfolding ensure_rebirth_eligible
  eligible active xp = rw (found, has_progress, active, xp, cap_level) refl

  -- Once eligible, with a Wallet and numbers in range, the second step goes through.
  pub settle_rebirth_total :
      (draws : Draws) (primary : Text) (operation : Uuid) (wallet : ℤ) (n k : ℕ)
      → is_active row.status ≡ true
      → progress.account_xp ≡ pos 172370
      → row.wallet ≡ some wallet
      → row.rebirth_count ≡ pos n
      → suc n < i64_limit
      → progress.activity_xp_points ≡ pos k
      → k < i64_limit
      → ((receipt : ProgressionReceipt)
          → (out : List OperationRow) × (commit_rows operation row.id receipt db.operations
              ≡ some out))
      → (receipt : RebirthReceipt) × (done : ProgressionDb) × (settle_rebirth draws primary user
            operation db
          ≡ ok (receipt, row.id, done))
  unfolding settle_rebirth lock_progression
  settle_rebirth_total draws primary operation wallet n k active xp has_wallet count few points
        small commits =
      let (activity, counted, split) = activity_progress_total k small in
      let receipt = rebirth_receipt operation n (pos k) activity.level in
      let (out, committed) = commits (reborn receipt) in
      let (done, end) =
        finish_total draws primary operation row.id (reborn receipt)
          (write_rebirth row.id (pos (suc n)) db) committed in
      (
        receipt,
        done,
        rw
            (
              found,
              has_progress,
              has_wallet,
              active,
              xp,
              cap_level,
              count,
              not_negative n,
              next_rebirth_total n few,
              points,
              counted,
              end,
            )
            refl,
      )
