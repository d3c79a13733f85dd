-- ===== src/Progression/Tests/Rebirths.antt =====
-- A Rebirth at the cap, and one that is refused below it.
use graphite_bot.Common.{suc, ◌+◌, ◌≡◌, refl, arith, ok, err, some, [], ◌∷◌, partition_point}
use graphite_bot.Common.Int.{ℤ, pos, ◌+ℤ◌, ◌-ℤ◌, ◌*ℤ◌, ◌/ℤ◌}
use graphite_bot.Common.Values.{Uuid, Digest, active, committed}
use graphite_bot.Economy.Interest.Tables.{InterestDb, InterestDraws, Calendar, Date}
use graphite_bot.Economy.Interest.{accrue_interest}
use graphite_bot.Progression.Errors.{rebirth_requires_level_cap}
use graphite_bot.Progression.Account.{
  account_level, account_xp_thresholds, thresholds_from, account_xp_to_next_const,
}
use graphite_bot.Progression.Activity.{
  activity_progress, activity_level, raise_bound, narrow_bound, activity_total_i128, total_low,
  total_middle, total_high, activity_xp_to_next,
}
use graphite_bot.Progression.Tables.{
  RebirthReceipt, reborn, stored, rebirth_event, service_event, mutation, MutationKind,
  ProgressionPlayer, ProgressionDb,
}
use graphite_bot.Progression.Rows.{find_by_discord, update_player}
use graphite_bot.Progression.Operations.{
  select_operation, insert_operation, validate_operation_row, resolve_operation, commit_rows,
  commit_operation,
}
use graphite_bot.Progression.Service.{lock_progression, ensure_rebirth_eligible, finish}
use graphite_bot.Progression.Service.Rebirths.{Store, settle_rebirth, set_rebirth_count, rebirth}
use graphite_bot.Progression.Service.RebirthCalls.{Completed, rebirth-RebornAfter}
use graphite_bot.Progression.Service.RebirthBranches.{Branches, rebirth-Branches}
use graphite_bot.Progression.Tests.Data.{player, owning, with_player, draws}

abbrev digest : Uuid → Date → ℤ → ℤ → ℤ → Digest
digest owner day bank rebirths remainder = owner + day

abbrev interest_draws : Uuid → Date → InterestDraws
interest_draws owner day = record {
  operation_id = 1_000 + day;
  transaction_id = 2_000 + day;
  rng_root = 7;
  outbox_id = 3_000 + day;
}

abbrev calendar : Calendar
calendar = record { succ_opt = λ d. some (suc d); checked_add_days = λ d n. some (d + n) }

-- The interest of day 100 has been accrued, and the Bank is empty.
abbrev interest : ℤ → InterestDb
interest count = record {
  players =
      record {
        player_id = 1;
        discord_user_id = pos 11;
        status = active;
        bank = pos 0;
        rebirth_count = count;
        remainder_q32 = pos 0;
        last_accrual_day = 100;
      }
      ∷ [];
  lots = [];
  operations = [];
  ledger = [];
  postings = [];
  outbox = [];
}

abbrev store : ℤ → Store
store xp = record { progression = with_player (player xp (pos 50)); interest = interest (pos 3) }

abbrev receipt : RebirthReceipt
receipt = record {
  operation_id = 6;
  previous_rebirth_count = 3;
  rebirth_count = 4;
  activity_xp_points = pos 1_600;
  activity_level = 31;
}

abbrev reborn_player : ProgressionPlayer
reborn_player = record (player (pos 0) (pos 50)) { rebirth_count = pos 4 }

abbrev after : ProgressionDb
after = record {
  operations =
      record {
        id = 6;
        external_request_key = 30;
        actor_discord_user_id = some (pos 11);
        player_id = some 1;
        kind = mutation MutationKind.rebirth;
        state = committed;
        policy_version = 1;
        request_hash = 8;
        rng_root = 7;
        result = stored (reborn receipt);
      }
      ∷ owning
      ∷ [];
  players = reborn_player ∷ [];
  events =
      record {
        id = 9;
        operation_id = 6;
        mutation_key = 2;
        player_id = 1;
        event_kind = rebirth_event;
        payload = service_event (reborn receipt);
      }
      ∷ [];
  ledger = [];
  postings = [];
  outbox = record { id = 10; operation_id = 6; payload = reborn receipt } ∷ [];
}

abbrev store_after : Store
store_after = record { progression = after; interest = interest (pos 4) }

reborn_once :
    rebirth digest interest_draws calendar 100 8 2 draws 11 30 (store (pos 172_370))
    ≡ (ok receipt, store_after)
unfolding rebirth resolve_operation select_operation insert_operation validate_operation_row
    settle_rebirth set_rebirth_count ensure_rebirth_eligible lock_progression find_by_discord
    account_level account_xp_thresholds thresholds_from account_xp_to_next_const partition_point
    activity_progress activity_level raise_bound narrow_bound activity_total_i128 total_low
    total_middle total_high activity_xp_to_next update_player finish commit_operation commit_rows
    accrue_interest ◌+ℤ◌ ◌-ℤ◌ ◌*ℤ◌ ◌/ℤ◌
reborn_once = refl

rebirth-RebornAfter_example :
    Completed digest interest_draws calendar 100 8 2 draws 11 30
      (store (pos 172_370))
      receipt
      store_after
rebirth-RebornAfter_example =
    rebirth-RebornAfter digest interest_draws calendar 100 8 2 draws 11 30 (store (pos 172_370))
      reborn_once

too_early :
    rebirth digest interest_draws calendar 100 8 2 draws 11 30 (store (pos 172_369))
    ≡ (err rebirth_requires_level_cap, store (pos 172_369))
unfolding rebirth resolve_operation select_operation insert_operation validate_operation_row
    ensure_rebirth_eligible find_by_discord account_level account_xp_thresholds thresholds_from
    account_xp_to_next_const partition_point
too_early = refl

rebirth-Branches_example :
    Branches digest interest_draws calendar 100 8 2 draws 11 30
      (store (pos 172_370))
      (player (pos 172_370) (pos 50))
      172_370
      (rebirth digest interest_draws calendar 100 8 2 draws 11 30 (store (pos 172_370)))
unfolding resolve_operation select_operation insert_operation validate_operation_row find_by_discord
rebirth-Branches_example =
    rebirth-Branches digest interest_draws calendar 100 8 2 draws 11 30 (store (pos 172_370))
      (player (pos 172_370) (pos 50))
      (record { account_xp = pos 172_370; activity_xp_points = pos 1_600 }) (pos 50) 172_370 3 1_600
      (omega arith) refl refl refl refl refl (omega arith) refl (omega arith) refl (omega arith)
