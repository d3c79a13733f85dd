-- ===== src/Progression/Account/Curve.antt =====
-- The tables of the Account curve as sums: what the levels below one take, and what they pay.
use graphite_bot.Common.{
  ℕ, zero, suc, ◌+◌, ◌≤◌, ◌<◌, ◌≡◌, refl, arith, get_or, partition_point, leb, ◌⊎◌, inl, inr,
  Bool-cases,
}
use graphite_bot.Common.Int.{pos}
use graphite_bot.Progression.Account.{
  account_xp_to_next_const, level_money_reward_const, thresholds_from, account_xp_thresholds,
  rewards_from, account_cumulative_level_rewards, account_xp_threshold, cumulative_level_reward,
}

-- The XP at which a level begins.
unfoldable pub total_xp : ℕ → ℕ
total_xp zero = 0
total_xp (suc zero) = 0
total_xp (suc (suc level)) = total_xp (suc level) + account_xp_to_next_const (suc level)

-- The rewards of the levels 2 to the given one.
unfoldable pub total_reward : ℕ → ℕ
total_reward zero = 0
total_reward (suc zero) = 0
total_reward (suc (suc level)) =
    total_reward (suc level) + level_money_reward_const (suc (suc level))

pub total_xp-step :
    (level : ℕ) → 1 ≤ level → total_xp (level + 1) ≡ total_xp level + account_xp_to_next_const level
unfolding total_xp
total_xp-step zero h = absurd (omega arith)
total_xp-step (suc level) h = ground arith

pub total_reward-step :
    (level : ℕ)
    → 1 ≤ level
    → total_reward (level + 1) ≡ total_reward level + level_money_reward_const (level + 1)
unfolding total_reward
total_reward-step zero h = absurd (omega arith)
total_reward-step (suc level) h = ground arith

pub total_xp-lt : (level : ℕ) → 1 ≤ level → total_xp level < total_xp (level + 1)
unfolding account_xp_to_next_const
total_xp-lt level h = ground (arith, total_xp-step level h)

-- The table holds the sums.
pub get_thresholds_from :
    (rounds level k : ℕ)
    → 1 ≤ level
    → k < rounds
    → get_or (thresholds_from rounds level (total_xp level)) k 0 ≡ total_xp (level + 1 + k)
unfolding thresholds_from
get_thresholds_from zero level k h lt = absurd (omega arith)
get_thresholds_from (suc rounds) level zero h lt = ground (arith, total_xp-step level h)
get_thresholds_from (suc rounds) level (suc k) h lt =
    rw (← total_xp-step level h)
      (ground (arith, get_thresholds_from rounds (level + 1) k (omega arith) (omega arith)))

pub get_rewards_from :
    (rounds level k : ℕ)
    → 1 ≤ level
    → k < rounds
    → get_or (rewards_from rounds (level + 1) (total_reward level)) k 0
      ≡ total_reward (level + 1 + k)
unfolding rewards_from
get_rewards_from zero level k h lt = absurd (omega arith)
get_rewards_from (suc rounds) level zero h lt = ground (arith, total_reward-step level h)
get_rewards_from (suc rounds) level (suc k) h lt =
    rw (← total_reward-step level h)
      (ground (arith, get_rewards_from rounds (level + 1) k (omega arith) (omega arith)))

pub account_xp_threshold-total_xp :
    (level : ℕ) → level ≤ 200 → account_xp_threshold level ≡ total_xp level
unfolding account_xp_threshold account_xp_thresholds total_xp
account_xp_threshold-total_xp zero h = refl
account_xp_threshold-total_xp (suc zero) h = refl
account_xp_threshold-total_xp (suc (suc k)) h =
    ground (arith, get_thresholds_from 199 1 k (omega arith) (omega arith))

pub cumulative_level_reward-total_reward :
    (level : ℕ) → level ≤ 200 → cumulative_level_reward level ≡ pos (total_reward level)
unfolding cumulative_level_reward account_cumulative_level_rewards total_reward
cumulative_level_reward-total_reward zero h = refl
cumulative_level_reward-total_reward (suc zero) h = refl
cumulative_level_reward-total_reward (suc (suc k)) h =
    ground (arith, get_rewards_from 199 1 k (omega arith) (omega arith))

-- The first entries of the table that a value has reached.
pub partition_thresholds :
    (rounds level k m : ℕ)
    → 1 ≤ level
    → total_xp level ≤ m
    → partition_point (λ threshold. leb threshold m) (thresholds_from rounds level (total_xp level))
      ≡ k
    → (k ≤ rounds) × (total_xp (level + k) ≤ m) × ((k ≡ rounds) ⊎ (m < total_xp (level + k + 1)))
unfolding partition_point thresholds_from
partition_thresholds zero level k m h reached e = ground arith
partition_thresholds (suc rounds) level zero m h reached e =
    elim (Bool-cases (leb (total_xp level + account_xp_to_next_const level) m)) [
      | inl more ↦ absurd (ground arith)
      | inr done ↦ (omega arith, ground arith, inr (ground (arith, total_xp-step level h)))
    ]
partition_thresholds (suc rounds) level (suc k) m h reached e =
    elim (Bool-cases (leb (total_xp level + account_xp_to_next_const level) m)) [
      | inr done ↦ absurd (ground arith)
      | inl more ↦
          ground (
            arith,
            total_xp-step level h,
            partition_thresholds rounds (level + 1) k m (omega arith),
          )
    ]
