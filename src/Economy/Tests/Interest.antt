-- ===== src/Economy/Tests/Interest.antt =====
-- Interest on a small Bank: two players, the first with two lots and two days due.
use graphite_bot.Common.FixedPoint.{q32_pow}
use graphite_bot.Common.{ℕ, suc, ◌+◌, ◌≡◌, refl, some, List, [], ◌∷◌, map, ok, arith, length}
use graphite_bot.Common.Int.{ℤ, pos, ◌+ℤ◌, ◌-ℤ◌, ◌*ℤ◌, ◌/ℤ◌, ◌%ℤ◌}
use graphite_bot.Common.Values.{Uuid, Digest, active}
use graphite_bot.Economy.Tables.{LotRow}
use graphite_bot.Economy.Bank.LotLaws.{owner, lot_total}
use graphite_bot.Economy.Interest.{accrue_interest, accrue_due_interest_batch}
use graphite_bot.Economy.Interest.Tables.{
  Date, InterestPlayer, InterestLot, BankInterestSummary, InterestDb, InterestDraws, Calendar,
}
use graphite_bot.Economy.Interest.Rate.{calculate_daily_interest, rebirth_growth_q32, checked_add}
use graphite_bot.Economy.Interest.Daily.{IsExactDay, calculate_daily_interest-IsExactDay}
use graphite_bot.Economy.Interest.Allocation.{allocate, allocate_interest_to_lots, set_principal}
use graphite_bot.Economy.Interest.Exact.{total, allocate-Exact}
use graphite_bot.Economy.Interest.Sound.{IsSound}
use graphite_bot.Economy.Interest.Accrued.{Accrued}
use graphite_bot.Economy.Interest.Calls.{accrue_interest-Accrued, accrue_due_interest_batch-IsSound}

abbrev digest : Uuid → Date → ℤ → ℤ → ℤ → Digest
digest player day bank rebirths remainder = player + day

abbrev draws : Uuid → Date → InterestDraws
draws player day = record {
  operation_id = 1_000 + day;
  transaction_id = 2_000 + day;
  rng_root = 7;
  outbox_id = 3_000 + day;
}

abbrev calendar : Calendar
calendar = record { succ_opt = λ d. some (suc d); checked_add_days = λ d n. some (d + n) }

abbrev lot : Uuid → Uuid → ℕ → LotRow
lot id player principal = record {
  id = id;
  player_id = player;
  principal_remaining = pos principal;
  deposited_at = id;
  created_by_operation_id = id;
}

abbrev player : Uuid → ℕ → ℕ → InterestPlayer
player id snowflake bank = record {
  player_id = id;
  discord_user_id = pos snowflake;
  status = active;
  bank = pos bank;
  rebirth_count = pos 0;
  remainder_q32 = pos 0;
  last_accrual_day = 100;
}

abbrev db : InterestDb
db = record {
  players = player 1 11 500_000 ∷ player 2 22 70 ∷ [];
  lots = lot 5 1 200_000 ∷ lot 6 2 70 ∷ lot 4 1 300_000 ∷ [];
  operations = [];
  ledger = [];
  postings = [];
  outbox = [];
}

db-IsSound : IsSound db
unfolding owner lot_total
db-IsSound = record {
  distinct = (refl, (refl, (refl, tt)));
  funded = omega arith;
  balanced = (
    record {
      bank_eq = refl;
      bank_lt = omega arith;
      rebirth = omega arith;
      remainder = omega arith;
      remainder_lt = omega arith;
    },
    (
      record {
        bank_eq = refl;
        bank_lt = omega arith;
        rebirth = omega arith;
        remainder = omega arith;
        remainder_lt = omega arith;
      },
      tt,
    ),
  );
}

abbrev summary : BankInterestSummary
summary = record {
  player_id = 1;
  days_processed = 2;
  interest_credited = pos 40;
  last_accrual_day = 102;
}

abbrev after : InterestDb
after = (accrue_interest digest draws calendar 102 11 db).1

two_days : accrue_interest digest draws calendar 102 11 db ≡ (ok summary, after)
unfolding q32_pow accrue_interest calculate_daily_interest rebirth_growth_q32 checked_add
    allocate_interest_to_lots set_principal ◌+ℤ◌ ◌-ℤ◌ ◌*ℤ◌ ◌/ℤ◌ ◌%ℤ◌
two_days = refl

accrue_interest-Accrued_example : (id : Uuid) × Accrued id db summary after
accrue_interest-Accrued_example =
    accrue_interest-Accrued digest draws calendar 102 11 db db-IsSound two_days

accrue_due_interest_batch-IsSound_example :
    IsSound (accrue_due_interest_batch digest draws calendar (λ n. 102) 10 db).1
accrue_due_interest_batch-IsSound_example =
    accrue_due_interest_batch-IsSound digest draws calendar (λ n. 102) 10 db db-IsSound

calculate_daily_interest-IsExactDay_example : IsExactDay 20_000_000 3 5
calculate_daily_interest-IsExactDay_example =
    calculate_daily_interest-IsExactDay 20_000_000 3 5 (omega arith) (omega arith)

abbrev small_lots : List InterestLot
small_lots = record { id = 1; principal = pos 2 } ∷ record { id = 2; principal = pos 1 } ∷ []

allocate-Exact_example :
    (amounts : List ℕ) × (allocate (pos 2) (pos 3) small_lots ≡ ok (map pos amounts))
    × (length amounts ≡ length small_lots)
    × (total amounts ≡ 2)
allocate-Exact_example =
    allocate-Exact 2 3 small_lots (omega arith) (omega arith) (omega arith) (omega arith) refl
