-- ===== src/Progression/Tests/Settlements.antt =====
-- A settlement of 20 Account XP inside operation 5, and changes of Activity EXP.
use graphite_bot.Common.{◌≡◌, refl, arith, Result, ok, err, some, none, partition_point}
use graphite_bot.Common.Int.{ℤ, pos, ◌+ℤ◌, ◌-ℤ◌, ◌*ℤ◌, ◌/ℤ◌}
use graphite_bot.Common.Values.{pending}
use graphite_bot.Progression.Account.{
  account_level, account_progress, account_xp_threshold, account_xp_to_next, account_xp_thresholds,
  thresholds_from, account_xp_to_next_const, cumulative_level_reward,
  account_cumulative_level_rewards, rewards_from, level_money_reward_const,
  project_account_xp_grant,
}
use graphite_bot.Progression.Activity.{
  ActivityProgress, activity_progress, activity_level, raise_bound, narrow_bound,
  activity_total_i128, total_low, total_middle, total_high, activity_xp_to_next,
}
use graphite_bot.Progression.Tables.{
  AccountXpGrantReceipt, AccountXpSettlementReceipt, ActivityXpMutationReceipt, spend,
  ProgressionDb,
}
use graphite_bot.Progression.Rows.{
  find_by_discord, find_by_id, update_player, insert_level_reward_ledger,
}
use graphite_bot.Progression.Operations.{commit_rows, commit_operation}
use graphite_bot.Progression.Service.{lock_progression, pay_grant, settle_grant, finish}
use graphite_bot.Progression.Owning.{find_operation, find_event, find_ledger}
use graphite_bot.Progression.Settlement.{
  AccountXpSettlementRequest, LockedOperation, lock_operation, ensure_operation_player,
  lock_account_xp_state, write_granted_xp, pay_level_reward, has_progress, has_wallet,
  settle_account_xp, apply_account_xp_settlement,
}
use graphite_bot.Progression.Settlement.Repeated.{
  settle_account_xp-eq-settle_grant, apply_account_xp_settlement_idempotent,
}
use graphite_bot.Progression.ActivityXp
use graphite_bot.Progression.ActivityXp.{
  ActivityXpMutationRequest, activity_points_after, lock_active_activity_xp_balance,
  settle_mutation, validate_input, apply_activity_xp_mutation,
}
use graphite_bot.Progression.ActivityXp.Applied.{Outcome, apply_activity_xp_mutation-Outcome}
use graphite_bot.Progression.ActivityXp.Again.{apply_activity_xp_mutation_idempotent}
use graphite_bot.Progression.Tests.Data.{
  is_blank, byte_length, is_filled_object, player, owning, with_player, draws,
}

abbrev before : ProgressionDb
before = with_player (player (pos 100) (pos 50))

abbrev request : AccountXpSettlementRequest
request = record { operation_id = 5; player_id = 1; amount = pos 20; source = 4; provenance = 3 }

abbrev operation : LockedOperation
operation = record { actor_discord_user_id = pos 11; player_id = some 1; state = pending }

abbrev receipt : AccountXpSettlementReceipt
receipt = record {
  event_id = 9;
  operation_id = 5;
  player_id = 1;
  requested_xp = pos 20;
  granted_xp = pos 20;
  source = 4;
  account_xp_before = pos 100;
  account_xp_after = pos 120;
  level_before = 1;
  level_after = 2;
  level_money_reward = pos 700;
  wallet_before = pos 50;
  wallet_after = pos 750;
}

abbrev grant_receipt : AccountXpGrantReceipt
grant_receipt = record {
  operation_id = 5;
  requested_xp = pos 20;
  granted_xp = pos 20;
  source = 4;
  account_xp_before = pos 100;
  account_xp_after = pos 120;
  level_before = 1;
  level_after = 2;
  level_money_reward = pos 700;
  wallet_after = pos 750;
}

-- The tables after a call.
abbrev state_of : {E A : Type 0} → Result E (A × ProgressionDb) → ProgressionDb → ProgressionDb
state_of (ok (answer, db)) start = db
state_of (err e) start = start

abbrev settled : ProgressionDb
settled = state_of (settle_account_xp 90 8 9 operation request before) before

settled_once : settle_account_xp 90 8 9 operation request before ≡ ok (receipt, settled)
unfolding settle_account_xp lock_account_xp_state find_by_id write_granted_xp pay_level_reward
    has_progress has_wallet find_ledger project_account_xp_grant account_progress account_level
    account_xp_threshold account_xp_to_next account_xp_thresholds thresholds_from
    account_xp_to_next_const cumulative_level_reward account_cumulative_level_rewards rewards_from
    level_money_reward_const partition_point update_player insert_level_reward_ledger ◌+ℤ◌ ◌-ℤ◌
settled_once = refl

abbrev granted : ProgressionDb
granted = state_of (settle_grant draws 2 (pos 11) (pos 20) 4 5 before) before

granted_once : settle_grant draws 2 (pos 11) (pos 20) 4 5 before ≡ ok (grant_receipt, granted)
unfolding settle_grant lock_progression find_by_discord pay_grant finish commit_operation
    commit_rows project_account_xp_grant account_progress account_level account_xp_threshold
    account_xp_to_next account_xp_thresholds thresholds_from account_xp_to_next_const
    cumulative_level_reward account_cumulative_level_rewards rewards_from level_money_reward_const
    partition_point update_player insert_level_reward_ledger ◌+ℤ◌ ◌-ℤ◌
granted_once = refl

found_by_id : find_by_id 1 before.players ≡ some (player (pos 100) (pos 50))
unfolding find_by_id
found_by_id = refl

found_by_discord : find_by_discord (pos 11) before.players ≡ some (player (pos 100) (pos 50))
unfolding find_by_discord
found_by_discord = refl

settle_account_xp-eq-settle_grant_example :
    (settled.players ≡ granted.players)
    × (receipt.account_xp_after ≡ grant_receipt.account_xp_after)
    × (receipt.level_after ≡ grant_receipt.level_after)
    × (receipt.level_money_reward ≡ grant_receipt.level_money_reward)
    × (receipt.wallet_after ≡ grant_receipt.wallet_after)
settle_account_xp-eq-settle_grant_example =
    settle_account_xp-eq-settle_grant 90 2 8 9 operation request draws (pos 11) 5 before
      (player (pos 100) (pos 50)) found_by_id found_by_discord settled_once granted_once

applied_once :
    apply_account_xp_settlement 90 is_blank is_filled_object 8 9 request before
    ≡ ok (receipt, settled)
unfolding apply_account_xp_settlement lock_operation find_operation find_event settle_account_xp
    lock_account_xp_state find_by_id write_granted_xp pay_level_reward has_progress has_wallet
    find_ledger project_account_xp_grant account_progress account_level account_xp_threshold
    account_xp_to_next account_xp_thresholds thresholds_from account_xp_to_next_const
    cumulative_level_reward account_cumulative_level_rewards rewards_from level_money_reward_const
    partition_point update_player insert_level_reward_ledger ensure_operation_player ◌+ℤ◌ ◌-ℤ◌
applied_once = refl

apply_account_xp_settlement_idempotent_example :
    apply_account_xp_settlement 90 is_blank is_filled_object 18 19 request settled
    ≡ ok (receipt, settled)
apply_account_xp_settlement_idempotent_example =
    apply_account_xp_settlement_idempotent 90 is_blank is_filled_object 8 9 18 19 request before
      applied_once

abbrev spending : ActivityXpMutationRequest
spending = record {
  operation_id = 5;
  player_id = 1;
  mutation_key = 7;
  kind = spend;
  amount = pos 93;
  source = 4;
  provenance = 3;
}

abbrev at_31 : ℤ → ℤ → ℤ → ActivityProgress
at_31 points into missing = record {
  points = points;
  level = 31;
  points_into_level = into;
  points_for_next_level = pos 121;
  points_remaining = missing;
}

abbrev spend_receipt : ActivityXpMutationReceipt
spend_receipt = record {
  event_id = 9;
  operation_id = 5;
  player_id = 1;
  mutation_key = 7;
  kind = spend;
  amount = pos 93;
  source = 4;
  before = at_31 (pos 1_600) (pos 93) (pos 28);
  after = at_31 (pos 1_507) (pos 0) (pos 121);
}

abbrev spent : ProgressionDb
spent = state_of (settle_mutation 9 pending spending before) before

spent_once :
    apply_activity_xp_mutation is_blank byte_length is_filled_object 9 spending before
    ≡ ok (spend_receipt, spent)
unfolding apply_activity_xp_mutation find_operation find_event settle_mutation
    ActivityXp.ensure_operation_player lock_active_activity_xp_balance find_by_id
    activity_points_after update_player activity_progress activity_level raise_bound narrow_bound
    activity_total_i128 total_low total_middle total_high activity_xp_to_next ◌+ℤ◌ ◌-ℤ◌ ◌*ℤ◌ ◌/ℤ◌
spent_once = refl

apply_activity_xp_mutation_idempotent_example :
    apply_activity_xp_mutation is_blank byte_length is_filled_object 19 spending spent
    ≡ ok (spend_receipt, spent)
apply_activity_xp_mutation_idempotent_example =
    apply_activity_xp_mutation_idempotent is_blank byte_length is_filled_object 9 19 spending before
      spent_once

apply_activity_xp_mutation-Outcome_example :
    Outcome spending before
      (player (pos 100) (pos 50))
      (record { account_xp = pos 100; activity_xp_points = pos 1_600 })
      2
      1_600
      93
      (apply_activity_xp_mutation is_blank byte_length is_filled_object 9 spending before)
apply_activity_xp_mutation-Outcome_example =
    apply_activity_xp_mutation-Outcome 9 spending before owning (player (pos 100) (pos 50))
      (record { account_xp = pos 100; activity_xp_points = pos 1_600 }) 1_600 93 refl found_by_id
      refl refl refl (omega arith) refl is_blank byte_length is_filled_object valid owner owned
      fresh 2
  where
    valid : validate_input is_blank byte_length is_filled_object spending ≡ ok tt
    valid = unfold validate_input in refl

    owner : find_operation 5 before.operations ≡ some owning
    owner = unfold find_operation in refl

    owned : ActivityXp.ensure_operation_player (some 1) 1 ≡ ok tt
    owned = unfold ActivityXp.ensure_operation_player in refl

    fresh : find_event 5 7 before.events ≡ none
    fresh = unfold find_event in refl
