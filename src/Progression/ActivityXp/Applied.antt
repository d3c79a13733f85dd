-- ===== src/Progression/ActivityXp/Applied.antt =====
-- What a change of Activity EXP does to the points, and when it is refused.
use graphite_bot.Common.{
  ℕ, eq_refl, ◌+◌, ◌-◌, ◌<◌, ◌≡◌, ap, ◌∙◌, ◌==◌, ◌∷◌, refl, sym, subst, Bool, true, false, some,
  none, ok, err, ltb, leb, arith, ◌⊎◌, inl, inr, Bool-cases, Result,
}
use graphite_bot.Common.Int.{pos, ◌+ℤ◌, ◌-ℤ◌}
use graphite_bot.Common.Checked.{i64_limit}
use graphite_bot.Common.Values.{Uuid, Text, is_active, is_pending}
use graphite_bot.Progression.Errors.{arithmetic_overflow}
use graphite_bot.Progression.Activity.{ActivityProgress}
use graphite_bot.Progression.Activity.Progress.{IsActivityProgress, activity_progress_total}
use graphite_bot.Progression.Tables.{
  JsonValue, ProgressRow, ProgressionPlayer, ActivityXpMutationKind, grant, spend, loss,
  ActivityXpMutationReceipt, OperationRow, EventRow, ProgressionDb,
}
use graphite_bot.Progression.Rows.{find_by_id, with_activity_xp, write_activity_xp}
use graphite_bot.Progression.ActivityXp.Again.{replay_own}
use graphite_bot.Progression.Rows.Updates.{find_by_id-update_player, find_by_id-update_other}
use graphite_bot.Progression.Owning.{find_operation, find_event}
use graphite_bot.Progression.ActivityXp.{
  ActivityXpError, ActivityXpMutationRequest, math, insufficient_activity_xp, activity_points_after,
  lock_active_activity_xp_balance, ensure_operation_player, mutation_receipt, mutation_event,
  write_mutation, replay_activity_mutation, settle_mutation, validate_input,
  apply_activity_xp_mutation,
}

-- A grant is refused where the points would leave 64 bits, a spend or a loss where they do not
-- suffice.
abbrev pub refuses : ActivityXpMutationKind → ℕ → ℕ → Bool
refuses grant m a = leb i64_limit (m + a)
refuses spend m a = ltb m a
refuses loss m a = ltb m a

abbrev pub refusal : ActivityXpMutationKind → ℕ → ℕ → ActivityXpError
refusal grant m a = math arithmetic_overflow
refusal spend m a = insufficient_activity_xp (pos m) (pos a)
refusal loss m a = insufficient_activity_xp (pos m) (pos a)

abbrev pub moved : ActivityXpMutationKind → ℕ → ℕ → ℕ
moved grant m a = m + a
moved spend m a = m - a
moved loss m a = m - a

points_refused :
    (kind : ActivityXpMutationKind) (m a : ℕ)
    → refuses kind m a ≡ true
    → activity_points_after (pos m) kind (pos a) ≡ err (refusal kind m a)
unfolding activity_points_after ◌+ℤ◌
points_refused grant m a h = ground arith
points_refused spend m a h = ground arith
points_refused loss m a h = ground arith

points_moved :
    (kind : ActivityXpMutationKind) (m a : ℕ)
    → m < i64_limit
    → refuses kind m a ≡ false
    → activity_points_after (pos m) kind (pos a) ≡ ok (pos (moved kind m a))
unfolding activity_points_after ◌+ℤ◌ ◌-ℤ◌
points_moved grant m a small h = ground arith
points_moved spend m a small h = ground arith
points_moved loss m a small h = ground arith

moved-small :
    (kind : ActivityXpMutationKind) (m a : ℕ)
    → m < i64_limit
    → refuses kind m a ≡ false
    → moved kind m a < i64_limit
moved-small grant m a small h = ground arith
moved-small spend m a small h = omega arith
moved-small loss m a small h = omega arith

-- A change of the row's points to `points`, as the tables show it: the player's row, the row of any
-- player `other`, and the event that keeps the receipt.
pub record Changed (request : ActivityXpMutationRequest) (db : ProgressionDb)
    (row : ProgressionPlayer) (progress : ProgressRow) (other : Uuid) (m points : ℕ)
    (receipt : ActivityXpMutationReceipt) (db' : ProgressionDb) : Type 0 where
  pub stored_points :
      find_by_id request.player_id db'.players
      ≡ some (record row { progress = some (record progress { activity_xp_points = pos points }) })
  pub others_stay :
      ((request.player_id == other) ≡ true)
      ⊎ (find_by_id other db'.players ≡ find_by_id other db.players)
  pub rest_stays : db' ≡ record db { players = db'.players; events = db'.events }
  pub event : EventRow
  pub kept_event : find_event request.operation_id request.mutation_key db'.events ≡ some event
  pub answers : replay_activity_mutation event request ≡ ok receipt
  pub older_events : db'.events ≡ event ∷ db.events
  pub before : IsActivityProgress m receipt.before
  pub after : IsActivityProgress points receipt.after

-- The outcome: a refusal, or the change with its receipt.
abbrev pub Outcome :
    ActivityXpMutationRequest
    → ProgressionDb
    → ProgressionPlayer
    → ProgressRow
    → Uuid
    → ℕ
    → ℕ
    → Result ActivityXpError (ActivityXpMutationReceipt × ProgressionDb)
    → Type 0
Outcome request db row progress other m a r =
    ((refuses request.kind m a ≡ true) × (r ≡ err (refusal request.kind m a)))
    ⊎ ((refuses request.kind m a ≡ false)
        × (receipt : ActivityXpMutationReceipt) × (db' : ProgressionDb) × (r ≡ ok (receipt, db'))
        × Changed request db row progress other m (moved request.kind m a) receipt db')

module _ (event : Uuid) (request : ActivityXpMutationRequest) (db : ProgressionDb)
    (operation : OperationRow) (row : ProgressionPlayer) (progress : ProgressRow) (m a : ℕ)
    (pending : is_pending operation.state ≡ true)
    (found : find_by_id request.player_id db.players ≡ some row)
    (has_progress : row.progress ≡ some progress) (active : is_active row.status ≡ true)
    (points : progress.activity_xp_points ≡ pos m) (small : m < i64_limit)
    (amount : request.amount ≡ pos a) where
  balance : lock_active_activity_xp_balance request.player_id db ≡ ok (pos m)
  unfolding lock_active_activity_xp_balance
  balance = rw (found, has_progress, active, points) refl

  write_mutation-Changed :
      (other : Uuid) (points : ℕ) (before after : ActivityProgress)
      → IsActivityProgress m before
      → IsActivityProgress points after
      → Changed request db row progress other m points
          (mutation_receipt event request before after)
          (write_mutation request (pos points) (mutation_receipt event request before after) db)
  unfolding find_event
  write_mutation-Changed other points before after counted counted' = record {
    stored_points =
        find_by_id-update_player (write_activity_xp (pos points)) (λ r. (refl, refl, refl))
          request.player_id db.players found
        ∙ ap some (
            ap (λ p. record row { progress = p })
              (ap (with_activity_xp (pos points)) has_progress));
    others_stay = elim (Bool-cases (request.player_id == other)) [
      | inl same ↦ inl same
      | inr differs ↦ inr (
          find_by_id-update_other (write_activity_xp (pos points)) (λ r. (refl, refl, refl))
            request.player_id other db.players (ground arith))
    ];
    rest_stays = refl;
    event = mutation_event request (mutation_receipt event request before after);
    kept_event = rw (eq_refl request.operation_id, eq_refl request.mutation_key) refl;
    answers = replay_own event request before after;
    older_events = refl;
    before = counted;
    after = counted';
  }

  settle_mutation-Outcome :
      (other : Uuid)
      → Outcome request db row progress other m a (settle_mutation event operation.state request db)
  unfolding settle_mutation
  settle_mutation-Outcome other =
      let (before, counted, split) = activity_progress_total m small in
      elim (Bool-cases (refuses request.kind m a)) [
        | inl over ↦ inl (
          over,
          rw (pending, balance, counted, amount, points_refused request.kind m a over) refl,
        )
        | inr fine ↦
            let (after, counted', split') =
              activity_progress_total (moved request.kind m a)
                (moved-small request.kind m a small fine) in
            let receipt = mutation_receipt event request before after in
            inr (
              fine,
              receipt,
              write_mutation request (pos (moved request.kind m a)) receipt db,
              rw
                  (
                    pending,
                    balance,
                    counted,
                    amount,
                    points_moved request.kind m a small fine,
                    counted',
                  )
                  refl,
              write_mutation-Changed other (moved request.kind m a) before after split split',
            )
      ]

  -- Once the request is valid and its operation is pending and has no event under the key, for an
  -- active player with points in range: a spend or loss of more points than there are, and a
  -- grant past 64 bits, is refused with that error; anything else goes through: the player's row
  -- keeps the sum, or the difference, which is not negative, and nothing else of it changes;
  -- every other player and all other tables stay; and one event is added, which answers a
  -- repetition with the same receipt, whose progress before and after is that of the old and the
  -- new points on the curve.
  pub apply_activity_xp_mutation-Outcome :
      (is_blank : Text → Bool) (byte_length : Text → ℕ) (is_filled_object : JsonValue → Bool)
      → validate_input is_blank byte_length is_filled_object request ≡ ok tt
      → find_operation request.operation_id db.operations ≡ some operation
      → ensure_operation_player operation.player_id request.player_id ≡ ok tt
      → find_event request.operation_id request.mutation_key db.events ≡ none
      → (other : Uuid)
      → Outcome request db row progress other m a
          (apply_activity_xp_mutation is_blank byte_length is_filled_object event request db)
  unfolding apply_activity_xp_mutation
  apply_activity_xp_mutation-Outcome is_blank byte_length is_filled_object valid owner owned fresh
        other =
      let same : apply_activity_xp_mutation is_blank byte_length is_filled_object event request db
          ≡ settle_mutation event operation.state request db =
        rw (valid, owner, owned, fresh) refl in
      subst (Outcome request db row progress other m a) (sym same) (settle_mutation-Outcome other)
