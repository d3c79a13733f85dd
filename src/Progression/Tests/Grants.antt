-- ===== src/Progression/Tests/Grants.antt =====
-- A grant of 20 Account XP that passes level 2, and a second of 30.
use graphite_bot.Common.{◌+◌, ◌≡◌, refl, arith, ok, false, some, none, [], ◌∷◌, partition_point}
use graphite_bot.Common.Int.{pos, negsuc, ◌+ℤ◌, ◌-ℤ◌}
use graphite_bot.Common.Values.{committed, wallet_account, system_account}
use graphite_bot.Economy.Bank.Updates.{posting}
use graphite_bot.Progression.Account.{
  AccountProgress, AccountXpGrantProjection, account_level, account_progress, account_xp_threshold,
  account_xp_to_next, account_xp_thresholds, thresholds_from, account_xp_to_next_const,
  cumulative_level_reward, account_cumulative_level_rewards, rewards_from, level_money_reward_const,
  project_account_xp_grant,
}
use graphite_bot.Progression.Account.Grants.{project_account_xp_grant_split}
use graphite_bot.Progression.Tables.{
  AccountXpGrantReceipt, granted, stored, level_reward, account_xp_granted, service_event, mutation,
  account_xp_grant, ProgressionDb,
}
use graphite_bot.Progression.Rows.{find_by_discord, update_player, insert_level_reward_ledger}
use graphite_bot.Progression.Operations.{
  select_operation, insert_operation, validate_operation_row, resolve_operation, commit_rows,
  commit_operation,
}
use graphite_bot.Progression.Replay.{has_operation}
use graphite_bot.Progression.Service.{
  lock_progression, pay_grant, settle_grant, resume_grant, finish, grant_account_xp,
}
use graphite_bot.Progression.Service.Calls.{
  Outcome, grant_account_xp-Granted, grant_account_xp_idempotent,
}
use graphite_bot.Progression.Tests.Data.{
  is_blank, grant_hash, player, owning, with_player, draws, later_draws,
}

abbrev at_100 : AccountProgress
at_100 = record {
  total_xp = pos 100;
  level = 1;
  xp_into_level = pos 100;
  xp_to_next = some (pos 110);
  at_cap = false;
}

abbrev at_120 : AccountProgress
at_120 = record {
  total_xp = pos 120;
  level = 2;
  xp_into_level = pos 10;
  xp_to_next = some (pos 110);
  at_cap = false;
}

abbrev at_150 : AccountProgress
at_150 = record {
  total_xp = pos 150;
  level = 2;
  xp_into_level = pos 40;
  xp_to_next = some (pos 110);
  at_cap = false;
}

abbrev first : AccountXpGrantProjection
first = record {
  before = at_100;
  after = at_120;
  granted_xp = pos 20;
  account_xp_after = pos 120;
  level_money_reward = pos 700;
  wallet_after = pos 750;
}

abbrev second : AccountXpGrantProjection
second = record {
  before = at_120;
  after = at_150;
  granted_xp = pos 30;
  account_xp_after = pos 150;
  level_money_reward = pos 0;
  wallet_after = pos 750;
}

first_projected : project_account_xp_grant (pos 100) (pos 50) (pos 20) ≡ ok first
unfolding project_account_xp_grant account_progress account_level account_xp_threshold
    account_xp_to_next account_xp_thresholds thresholds_from account_xp_to_next_const
    cumulative_level_reward account_cumulative_level_rewards rewards_from level_money_reward_const
    partition_point ◌+ℤ◌ ◌-ℤ◌
first_projected = refl

second_projected : project_account_xp_grant (pos 120) (pos 750) (pos 30) ≡ ok second
unfolding project_account_xp_grant account_progress account_level account_xp_threshold
    account_xp_to_next account_xp_thresholds thresholds_from account_xp_to_next_const
    cumulative_level_reward account_cumulative_level_rewards rewards_from level_money_reward_const
    partition_point ◌+ℤ◌ ◌-ℤ◌
second_projected = refl

project_account_xp_grant_split_example :
    (whole : AccountXpGrantProjection) × (project_account_xp_grant
        (pos 100)
        (pos 50)
        (pos (20 + 30))
      ≡ ok whole)
    × (whole.account_xp_after ≡ pos 150)
    × (whole.wallet_after ≡ pos 750)
project_account_xp_grant_split_example =
    project_account_xp_grant_split 100 20 30 (pos 50) (omega arith) first_projected second_projected

abbrev receipt : AccountXpGrantReceipt
receipt = record {
  operation_id = 6;
  requested_xp = pos 20;
  granted_xp = pos 20;
  source = 4;
  account_xp_before = pos 100;
  account_xp_after = pos 120;
  level_before = 1;
  level_after = 2;
  level_money_reward = pos 700;
  wallet_after = pos 750;
}

abbrev after : ProgressionDb
after = record {
  operations =
      record {
        id = 6;
        external_request_key = 30;
        actor_discord_user_id = some (pos 11);
        player_id = some 1;
        kind = mutation account_xp_grant;
        state = committed;
        policy_version = 1;
        request_hash = 4;
        rng_root = 7;
        result = stored (granted receipt);
      }
      ∷ owning
      ∷ [];
  players = player (pos 120) (pos 750) ∷ [];
  events =
      record {
        id = 9;
        operation_id = 6;
        mutation_key = 2;
        player_id = 1;
        event_kind = account_xp_granted;
        payload = service_event (granted receipt);
      }
      ∷ [];
  ledger =
      record {
        id = 8;
        operation_id = 6;
        entry = level_reward (record {
          source = 4;
          level_before = 1;
          level_after = 2;
          granted_xp = pos 20;
          reward = pos 700;
        });
      }
      ∷ [];
  postings =
      posting 8 0 (some 1) wallet_account (pos 700)
      ∷ posting 8 1 none system_account (negsuc 699)
      ∷ [];
  outbox = record { id = 10; operation_id = 6; payload = granted receipt } ∷ [];
}

granted_once :
    grant_account_xp is_blank grant_hash 2 draws 11
      (pos 20)
      4
      30
      (with_player (player (pos 100) (pos 50)))
    ≡ ok (receipt, after)
unfolding grant_account_xp resume_grant resolve_operation select_operation insert_operation
    validate_operation_row settle_grant lock_progression find_by_discord project_account_xp_grant
    account_progress account_level account_xp_threshold account_xp_to_next account_xp_thresholds
    thresholds_from account_xp_to_next_const cumulative_level_reward
    account_cumulative_level_rewards rewards_from level_money_reward_const partition_point pay_grant
    update_player insert_level_reward_ledger finish commit_operation commit_rows ◌+ℤ◌ ◌-ℤ◌
granted_once = refl

grant_account_xp-Granted_example :
    Outcome is_blank grant_hash 2 draws 11
      (pos 20)
      4
      30
      (with_player (player (pos 100) (pos 50)))
      receipt
      after
grant_account_xp-Granted_example =
    grant_account_xp-Granted is_blank grant_hash 2 draws 11 (pos 20) 4 30
      (with_player (player (pos 100) (pos 50))) granted_once

grant_account_xp_idempotent_example :
    grant_account_xp is_blank grant_hash 2 later_draws 11 (pos 20) 4 30 after ≡ ok (receipt, after)
grant_account_xp_idempotent_example =
    grant_account_xp_idempotent is_blank grant_hash 2 draws 11 (pos 20) 4 30
      (with_player (player (pos 100) (pos 50))) later_draws distinct new granted_once
  where
    distinct : (has_operation 5 [] ≡ false) × Unit {0}
    distinct = unfold has_operation in (refl, tt)

    new : has_operation 6 (owning ∷ []) ≡ false
    new = unfold has_operation in refl
