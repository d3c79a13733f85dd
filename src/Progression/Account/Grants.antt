-- ===== src/Progression/Account/Grants.antt =====
-- The projection of a grant: where the XP, the level and the Wallet end.
use graphite_bot.Common.{
  ℕ, zero, suc, ◌+◌, ◌-◌, ◌≤◌, ◌≡◌, refl, sym, arith, true, ok, err, Result-cases, inl, inr, ok_or,
  leb, ◌==◌, if◌then◌else◌,
}
use graphite_bot.Common.Int.{ℤ, pos, ◌-ℤ◌, ◌+ℤ◌, to_i64, min_ℤ, fits_i64, int_laws}
use graphite_bot.Common.Checked.{sub_i64_pos, add_i64_pos}
use graphite_bot.Progression.Errors.{arithmetic_overflow}
use graphite_bot.Progression.Account.{
  AccountProgress, account_level, account_progress, account_xp_to_next, level_money_reward_const,
  AccountXpGrantProjection, math, invalid_state, project_account_xp_grant, cumulative_level_reward,
}
use graphite_bot.Progression.Account.Curve.{
  total_xp, total_reward, total_reward-step, account_xp_threshold-total_xp,
  cumulative_level_reward-total_reward,
}
use graphite_bot.Progression.Account.Levels.{
  level_of, level_of-IsLevelAt, account_level-level_of, account_level-pos, total_xp-le,
}

abbrev pub progress_of : ℕ → AccountProgress
progress_of m = record {
  total_xp = pos m;
  level = level_of m;
  xp_into_level = pos (m - total_xp (level_of m));
  xp_to_next = account_xp_to_next (level_of m);
  at_cap = level_of m == 200;
}

pub account_progress-progress_of :
    (m : ℕ) → m ≤ 172370 → account_progress (pos m) ≡ ok (progress_of m)
unfolding account_progress
account_progress-progress_of m h =
    let at = level_of-IsLevelAt m h in
    rw (
      account_level-level_of m h,
      account_xp_threshold-total_xp (level_of m) at.last,
      sub_i64_pos arithmetic_overflow m (total_xp (level_of m)) at.reached (omega arith),
    )

total_reward_mono : (level d : ℕ) → 1 ≤ level → total_reward level ≤ total_reward (level + d)
total_reward_mono level zero h = ground arith
total_reward_mono level (suc d) h =
    ground (arith, total_reward_mono level d h, total_reward-step (level + d) (omega arith))

pub total_reward-le : (a b : ℕ) → 1 ≤ a → a ≤ b → total_reward a ≤ total_reward b
total_reward-le a b h k =
    let e : a + (b - a) ≡ b = omega arith in rw (← e) (total_reward_mono a (b - a) h)

total_reward-max : total_reward 200 ≡ 1609400
unfolding total_reward level_money_reward_const
total_reward-max = refl

-- More XP is no lower level.
pub level_of_mono : (m n : ℕ) → m ≤ n → n ≤ 172370 → level_of m ≤ level_of n
level_of_mono m n h le =
    let p = level_of-IsLevelAt m (omega arith) in
    let q = level_of-IsLevelAt n le in
    ground (
      arith,
      p.first,
      p.last,
      p.reached,
      q.first,
      q.last,
      q.not_next,
      total_xp-le (level_of n + 1) (level_of m) (omega arith),
    )

abbrev pub granted : ℕ → ℕ → ℕ
granted m a = if leb a (172370 - m) then a else 172370 - m

abbrev pub reward_between : ℕ → ℕ → ℕ
reward_between m n = total_reward (level_of n) - total_reward (level_of m)

abbrev pub projection_of : ℕ → ℕ → ℤ → AccountXpGrantProjection
projection_of m a wallet = record {
  before = progress_of m;
  after = progress_of (m + granted m a);
  granted_xp = pos (granted m a);
  account_xp_after = pos (m + granted m a);
  level_money_reward = pos (reward_between m (m + granted m a));
  wallet_after = wallet +ℤ pos (reward_between m (m + granted m a));
}

min-granted : (m a : ℕ) → min_ℤ (pos a) (pos (172370 - m)) ≡ pos (granted m a)
min-granted m a = ground arith

reward_sub :
    (a b : ℕ)
    → 1 ≤ a
    → a ≤ b
    → b ≤ 200
    → ok_or (to_i64 (cumulative_level_reward b -ℤ cumulative_level_reward a)) invalid_state
      ≡ ok (pos (total_reward b - total_reward a))
reward_sub a b h le last =
    rw
      (
        cumulative_level_reward-total_reward b last,
        cumulative_level_reward-total_reward a (omega arith),
      )
      (sub_i64_pos invalid_state (total_reward b) (total_reward a) (total_reward-le a b h le)
        (omega (arith, total_reward-le b 200 (omega arith) last, total_reward-max)))

-- A grant on XP in range is this projection, unless the Wallet would leave 64 bits.
pub project_account_xp_grant-projection_of :
    (m a : ℕ) (wallet : ℤ)
    → m ≤ 172370
    → project_account_xp_grant (pos m) wallet (pos a) ≡ (
        if fits_i64 (wallet +ℤ pos (reward_between m (m + granted m a)))
        then ok (projection_of m a wallet)
        else err (math arithmetic_overflow))
unfolding project_account_xp_grant
project_account_xp_grant-projection_of m a wallet h =
    let within : m + granted m a ≤ 172370 = ground arith in
    let before = level_of-IsLevelAt m h in
    let after = level_of-IsLevelAt (m + granted m a) within in
    rw
      (
        account_progress-progress_of m h,
        sub_i64_pos invalid_state 172370 m h (omega arith),
        min-granted m a,
        add_i64_pos arithmetic_overflow m (granted m a) (omega arith),
        account_progress-progress_of (m + granted m a) within,
      )
      (ground (
        arith,
        reward_sub (level_of m) (level_of (m + granted m a)) before.first
            (level_of_mono m (m + granted m a) (omega arith) within) after.last,
      ))

pub projected :
    (m a : ℕ) (wallet : ℤ) {p : AccountXpGrantProjection}
    → m ≤ 172370
    → project_account_xp_grant (pos m) wallet (pos a) ≡ ok p
    → (p ≡ projection_of m a wallet)
      × (fits_i64 (wallet +ℤ pos (reward_between m (m + granted m a))) ≡ true)
projected m a wallet h e = ground (arith, project_account_xp_grant-projection_of m a wallet h)

granted-add :
    (m a b : ℕ) → m ≤ 172370 → m + granted m a + granted (m + granted m a) b ≡ m + granted m (a + b)
granted-add m a b h = ground arith

rewards_add :
    (wallet : ℤ) (r s t : ℕ)
    → r ≤ s
    → s ≤ t
    → wallet +ℤ pos (s - r) +ℤ pos (t - s) ≡ wallet +ℤ pos (t - r)
rewards_add wallet r s t h k = grind int_laws

reward_between-add :
    (wallet : ℤ) (m n o : ℕ)
    → m ≤ n
    → n ≤ o
    → o ≤ 172370
    → wallet +ℤ pos (reward_between m n) +ℤ pos (reward_between n o)
      ≡ wallet +ℤ pos (reward_between m o)
reward_between-add wallet m n o h k last =
    let rising = λ (x y : ℕ) (le : x ≤ y) (top : y ≤ 172370).
      total_reward-le (level_of x) (level_of y) (level_of-IsLevelAt x (omega arith)).first
        (level_of_mono x y le top) in
    rewards_add wallet _ _ _ (rising m n h (omega arith)) (rising n o k last)

-- A grant on XP in range and a second one on what the first left end with the XP and the Wallet
-- of one grant of both amounts, which then goes through too.
pub project_account_xp_grant_split :
    (m a b : ℕ) (wallet : ℤ) {first second : AccountXpGrantProjection}
    → m ≤ 172370
    → project_account_xp_grant (pos m) wallet (pos a) ≡ ok first
    → project_account_xp_grant first.account_xp_after first.wallet_after (pos b) ≡ ok second
    → (whole : AccountXpGrantProjection) × (project_account_xp_grant (pos m) wallet (pos (a + b))
        ≡ ok whole)
      × (whole.account_xp_after ≡ second.account_xp_after)
      × (whole.wallet_after ≡ second.wallet_after)
project_account_xp_grant_split m a b wallet {first} {second} h one two =
    let (first_eq, _) = projected m a wallet h one in
    let next : project_account_xp_grant (pos (m + granted m a))
          (projection_of m a wallet).wallet_after (pos b)
        ≡ ok second =
      rw first_eq at two in
    let (second_eq, fits) = projected (m + granted m a) b _ (ground arith) next in
    let ends = granted-add m a b h in
    let paid =
      reward_between-add wallet m (m + granted m a) (m + granted m a + granted (m + granted m a) b)
        (omega arith) (omega arith) (ground arith) in
    let fits' : fits_i64 (wallet +ℤ pos (reward_between m (m + granted m (a + b)))) ≡ true =
      rw (sym ends, sym paid) fits in
    (
      projection_of m (a + b) wallet,
      rw (project_account_xp_grant-projection_of m (a + b) wallet h, fits') refl,
      rw (second_eq, sym ends) refl,
      rw (second_eq, sym ends) (sym paid),
    )

pub project-range :
    (xp wallet amount : ℤ) {p : AccountXpGrantProjection}
    → project_account_xp_grant xp wallet amount ≡ ok p
    → (m : ℕ) × (xp ≡ pos m) × (m ≤ 172370)
unfolding project_account_xp_grant account_progress
project-range xp wallet amount h = elim (Result-cases (account_level xp)) [
  | inl (level, e) ↦ account_level-pos xp level e
  | inr (_, e) ↦ absurd (ground arith)
]
