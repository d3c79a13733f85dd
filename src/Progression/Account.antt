-- ===== src/Progression/Account.antt =====
-- The Account curve of crates/graphite-progression/src/progression.rs and the projection of one
-- grant of progression/account_settlement.rs. The two tables are built by constant functions over
-- values that are not negative, which are native numbers here.
pub mod Curve
pub mod Levels
pub mod Grants
use graphite_bot.Common.{
  ℕ, zero, suc, ◌+◌, ◌*◌, ◌/◌, Bool, not, ◌&&◌, Option, none, some, List, [], ◌∷◌, Result, ok, err,
  ◌>>=◌, ok_or, if◌then◌else◌, ◌==◌, leb, ltb, get_or, partition_point,
}
use graphite_bot.Common.Int.{ℤ, pos, ◌+ℤ◌, ◌-ℤ◌, leb_ℤ, min_ℤ, to_i64}
use graphite_bot.Progression.Errors.{
  ProgressionMathError, invalid_account_xp, arithmetic_overflow, narrow_64,
}

abbrev pub account_max_level : ℕ
account_max_level = 200

abbrev pub account_xp_cap : ℤ
account_xp_cap = pos 172_370

pub record AccountProgress : Type 0 where
  pub total_xp : ℤ
  pub level : ℕ
  pub xp_into_level : ℤ
  pub xp_to_next : Option ℤ
  pub at_cap : Bool

unfoldable pub account_xp_to_next_const : ℕ → ℕ
account_xp_to_next_const level =
    let numerator = 5_000 + 250 * level + level * level in ((numerator + 250) / 500) * 10

unfoldable pub level_money_reward_const : ℕ → ℕ
level_money_reward_const level = let value = 500 + 75 * level in ((value + 50) / 100) * 100

-- The rounds of `build_account_xp_thresholds` from a level and the total before it.
unfoldable pub thresholds_from : ℕ → ℕ → ℕ → List ℕ
thresholds_from zero level total = []
thresholds_from (suc rounds) level total =
    (total + account_xp_to_next_const level)
    ∷ thresholds_from rounds (level + 1) (total + account_xp_to_next_const level)

-- `ACCOUNT_XP_THRESHOLDS[1..]`: the entry of level 1 and 199 rounds.
unfoldable pub account_xp_thresholds : List ℕ
account_xp_thresholds = 0 ∷ thresholds_from 199 1 0

unfoldable pub rewards_from : ℕ → ℕ → ℕ → List ℕ
rewards_from zero level total = []
rewards_from (suc rounds) level total =
    (total + level_money_reward_const level)
    ∷ rewards_from rounds (level + 1) (total + level_money_reward_const level)

-- `ACCOUNT_CUMULATIVE_LEVEL_REWARDS`: no reward at the levels 0 and 1, and 199 rounds.
unfoldable pub account_cumulative_level_rewards : List ℕ
account_cumulative_level_rewards = 0 ∷ 0 ∷ rewards_from 199 2 0

-- An index past the table would panic; no level is past it.
unfoldable pub cumulative_level_reward : ℕ → ℤ
cumulative_level_reward level = pos (get_or account_cumulative_level_rewards level 0)

-- `ACCOUNT_XP_THRESHOLDS[level]`, with entry 0 before the others.
unfoldable pub account_xp_threshold : ℕ → ℕ
account_xp_threshold level = get_or (0 ∷ account_xp_thresholds) level 0

unfoldable pub account_xp_to_next : ℕ → Option ℤ
account_xp_to_next level =
    if leb 1 level && ltb level account_max_level
    then some (pos (account_xp_to_next_const level))
    else none

unfoldable pub account_total_xp_for_level : ℕ → Option ℤ
account_total_xp_for_level level =
    if leb 1 level && leb level account_max_level
    then some (pos (account_xp_threshold level))
    else none

unfoldable pub level_money_reward : ℕ → Option ℤ
level_money_reward level =
    if leb 2 level && leb level account_max_level
    then some (pos (level_money_reward_const level))
    else none

abbrev pub to_u16 : ℕ → Result ProgressionMathError ℕ
to_u16 n = if ltb n 65_536 then ok n else err arithmetic_overflow

unfoldable pub account_level : ℤ → Result ProgressionMathError ℕ
account_level account_xp =
    if not (leb_ℤ (pos 0) account_xp && leb_ℤ account_xp account_xp_cap)
    then err invalid_account_xp
    else to_u16 (
        partition_point (λ (threshold : ℕ). leb_ℤ (pos threshold) account_xp) account_xp_thresholds)

unfoldable pub account_progress : ℤ → Result ProgressionMathError AccountProgress
account_progress account_xp = do
  level ← account_level account_xp
  into ← narrow_64 (account_xp -ℤ pos (account_xp_threshold level))
  ok (record {
    total_xp = account_xp;
    level = level;
    xp_into_level = into;
    xp_to_next = account_xp_to_next level;
    at_cap = level == account_max_level;
  })

pub record AccountXpGrantProjection : Type 0 where
  pub before : AccountProgress
  pub after : AccountProgress
  pub granted_xp : ℤ
  pub account_xp_after : ℤ
  pub level_money_reward : ℤ
  pub wallet_after : ℤ

pub data AccountXpGrantProjectionError : Type 0 where
  math : ProgressionMathError → AccountXpGrantProjectionError
  invalid_state : AccountXpGrantProjectionError

-- `map_err(AccountXpGrantProjectionError::Math)`.
abbrev pub map_math :
    {A : Type 0} → Result ProgressionMathError A → Result AccountXpGrantProjectionError A
map_math (ok a) = ok a
map_math (err e) = err (math e)

unfoldable pub project_account_xp_grant :
    ℤ → ℤ → ℤ → Result AccountXpGrantProjectionError AccountXpGrantProjection
project_account_xp_grant account_xp_before wallet_before requested_xp = do
  before ← map_math (account_progress account_xp_before)
  remaining ← ok_or (to_i64 (account_xp_cap -ℤ account_xp_before)) invalid_state
  let granted_xp = min_ℤ requested_xp remaining
  account_xp_after ← map_math (narrow_64 (account_xp_before +ℤ granted_xp))
  after ← map_math (account_progress account_xp_after)
  reward ←
      ok_or (to_i64 (cumulative_level_reward after.level -ℤ cumulative_level_reward before.level))
        invalid_state
  wallet_after ← map_math (narrow_64 (wallet_before +ℤ reward))
  ok (record {
    before = before;
    after = after;
    granted_xp = granted_xp;
    account_xp_after = account_xp_after;
    level_money_reward = reward;
    wallet_after = wallet_after;
  })
