-- ===== src/Services/Repair/Price.antt =====
-- The price of a full repair, and the refund of a cancelled one.
use graphite_bot.Common.{
  ℕ, ◌+◌, ◌*◌, ◌/◌, ◌-◌, ◌≤◌, ◌<◌, ◌≡◌, ◌⊎◌, inl, inr, refl, some, ok, arith, true, false,
  Bool-cases,
}
use native.Mathlib.Decide.{dec_le}
use graphite_bot.Common.Int.{pos, ◌/ℤ◌, to_i64_pos}
use graphite_bot.Common.Checked.{i64_limit, i128_limit, mul_i128_pos, sub_i64_pos}
use graphite_bot.Services.Equipment.{
  EquipmentTier, EquipmentSlot, repair_ratio_percent, material, base_material_units,
}
use graphite_bot.Services.Repair.{
  RepairPreview, arithmetic_overflow, is_gold, checked_mul, ceil_ratio, activity_cost,
  round100_with_minimum, preview_full_repair, repair_cancel_refund,
}
use graphite_bot.Services.Repair.Rounding.{ceil_ratio_bounds, round100_with_minimum_bounds}

abbrev pub preview_of : EquipmentTier → EquipmentSlot → ℕ → ℕ → ℕ → ℕ → ℕ → ℕ → RepairPreview
preview_of tier slot current maximum appraisal money units experience = record {
  tier = tier;
  slot = slot;
  current_durability = pos current;
  max_durability = pos maximum;
  missing_durability = pos (maximum - current);
  recraft_appraisal = pos appraisal;
  money_cost = pos money;
  repair_material = material tier;
  material_units = pos units;
  activity_xp_cost = pos experience;
}

-- What a repair costs: Money to the nearest hundred of its share of the appraisal, and at least one
-- hundred; the least units that cover its share of the material; Activity EXP for gold alone.
pub record Priced (tier : EquipmentTier) (slot : EquipmentSlot)
    (current maximum appraisal ratio base : ℕ) : Type 0 where
  pub hundreds : ℕ
  pub units : ℕ
  pub experience : ℕ
  pub computed :
      preview_full_repair tier slot (pos current) (pos maximum) (pos appraisal)
      ≡ ok (preview_of tier slot current maximum appraisal (hundreds * 100) units experience)
  pub money :
      (1 ≤ hundreds)
      × ((appraisal * ratio * (maximum - current) < 100 * (100 * maximum)) × (hundreds ≡ 1)
          ⊎ (appraisal * ratio * (maximum - current)
              ≤ hundreds * 100 * (100 * maximum) + 50 * (100 * maximum))
            × (hundreds * 100 * (100 * maximum)
                ≤ appraisal * ratio * (maximum - current) + 50 * (100 * maximum)))
  pub units_share :
      (base * (maximum - current) ≤ units * maximum)
      × (units * maximum < base * (maximum - current) + maximum)
  pub experience_share :
      (is_gold tier ≡ true)
        × (250 * base * (maximum - current) ≤ experience * maximum)
        × (experience * maximum < 250 * base * (maximum - current) + maximum)
      ⊎ (is_gold tier ≡ false) × (experience ≡ 0)

mul_le : (a b d : ℕ) → a ≤ b → a * d ≤ b * d
mul_le a b d h = grind arith

mul_mono : (a b c d : ℕ) → a ≤ b → c ≤ d → a * c ≤ b * d
mul_mono a b c d h k = grind arith

cancel : (a b d : ℕ) → 0 < d → a * d < b * d + d → a ≤ b
cancel a b d h k = elim (dec_le a b) [
  | yes le ↦ le
  | no more ↦
      let above : (b + 1) * d ≤ a * d = mul_le (b + 1) a d (omega arith) in absurd (omega arith)
]

activity_cost_cases :
    (tier : EquipmentTier) (base missing maximum : ℕ)
    → 0 < maximum
    → base ≤ 4
    → missing ≤ maximum
    → maximum < i64_limit
    → (e : ℕ) × (activity_cost tier (pos base) (pos missing) (pos maximum) ≡ ok (pos e))
      × (e ≤ 1_000)
      × ((is_gold tier ≡ true)
            × (250 * base * missing ≤ e * maximum)
            × (e * maximum < 250 * base * missing + maximum)
          ⊎ (is_gold tier ≡ false) × (e ≡ 0))
unfolding activity_cost checked_mul
activity_cost_cases tier base missing maximum h b m s = elim (Bool-cases (is_gold tier)) [
  | inr e ↦ (0, rw e refl, omega arith, inr (e, refl))
  | inl e ↦
      let share : 250 * base * missing ≤ 1_000 * maximum =
        mul_mono (250 * base) 1_000 missing maximum (omega arith) m in
      let c = ceil_ratio_bounds (250 * base * missing) maximum h (omega arith) in
      (
        c.0,
        rw
            (
              e,
              mul_i128_pos arithmetic_overflow 250 base (omega arith),
              mul_i128_pos arithmetic_overflow (250 * base) missing (omega arith),
            )
            c.1,
        cancel c.0 1_000 maximum h (omega (arith, c.3)),
        inl (e, c.2, c.3),
      )
]

-- The steps of a preview, with the numbers that they give.
preview_steps :
    (tier : EquipmentTier) (slot : EquipmentSlot)
    (current maximum appraisal ratio base money units experience : ℕ)
    → repair_ratio_percent tier ≡ some (pos ratio)
    → base_material_units slot ≡ pos base
    → current < maximum
    → maximum < i64_limit
    → 0 < appraisal
    → appraisal * ratio < i128_limit
    → appraisal * ratio * (maximum - current) < i128_limit
    → base * (maximum - current) < i128_limit
    → round100_with_minimum (pos (appraisal * ratio * (maximum - current))) (pos (100 * maximum))
      ≡ ok (pos money)
    → ceil_ratio (pos (base * (maximum - current))) (pos maximum) ≡ ok (pos units)
    → activity_cost tier (pos base) (pos (maximum - current)) (pos maximum) ≡ ok (pos experience)
    → money < i64_limit
    → units < i64_limit
    → experience < i64_limit
    → preview_full_repair tier slot (pos current) (pos maximum) (pos appraisal)
      ≡ ok (preview_of tier slot current maximum appraisal money units experience)
unfolding preview_full_repair checked_mul
preview_steps tier slot c m a r b money units experience re be lt small pa h1 h2 h3 me ue ee ml ul
      el =
    rw
      (
        sub_i64_pos arithmetic_overflow m c (omega arith) small,
        re,
        mul_i128_pos arithmetic_overflow a r h1,
        mul_i128_pos arithmetic_overflow (a * r) (m - c) h2,
        mul_i128_pos arithmetic_overflow 100 m (omega arith),
        me,
        be,
        mul_i128_pos arithmetic_overflow b (m - c) h3,
        ue,
        ee,
        to_i64_pos money ml,
        to_i64_pos units ul,
        to_i64_pos experience el,
      )
      (ground arith)

ratio_le : (tier : EquipmentTier) (r : ℕ) → repair_ratio_percent tier ≡ some (pos r) → r ≤ 25
unfolding repair_ratio_percent
ratio_le tier r e = ground arith

units_le : (slot : EquipmentSlot) (b : ℕ) → base_material_units slot ≡ pos b → b ≤ 4
unfolding base_material_units
units_le slot b e = ground arith

money_bound :
    (h n a m : ℕ)
    → 0 < m
    → n ≤ a * 25 * m
    → (n < 100 * (100 * m)) × (h ≡ 1)
      ⊎ (n ≤ h * 100 * (100 * m) + 50 * (100 * m)) × (h * 100 * (100 * m) ≤ n + 50 * (100 * m))
    → h * 100 ≤ a + 100
money_bound h n a m p le (inl (_, e)) = omega arith
money_bound h n a m p le (inr (_, up)) =
    let c : h * 10_000 ≤ a * 25 + 5_000 = cancel (h * 10_000) (a * 25 + 5_000) m p (omega arith) in
    omega arith

-- A damaged item of a tier with a ratio, whose appraisal and durability keep the products in the
-- width, has a repair price: Money is its share of the appraisal to the nearest hundred, and one
-- hundred where the share is less; the units are the fewest that cover its share of the base
-- material; gold alone also costs Activity EXP, the fewest that cover its share.
pub preview_full_repair-Priced :
    (tier : EquipmentTier) (slot : EquipmentSlot) (current maximum appraisal ratio base : ℕ)
    → repair_ratio_percent tier ≡ some (pos ratio)
    → base_material_units slot ≡ pos base
    → current < maximum
    → maximum < i64_limit
    → 0 < appraisal
    → appraisal + 100 < i64_limit
    → appraisal * ratio * (maximum - current) + 100 * (100 * maximum) < i128_limit
    → Priced tier slot current maximum appraisal ratio base
preview_full_repair-Priced tier slot c m a r b re be lt small pa room bound =
    let r_le = ratio_le tier r re in
    let b_le = units_le slot b be in
    let missing = m - c in
    let share : a * r ≤ a * 25 = mul_mono a a r 25 (omega arith) r_le in
    let whole : a * r * missing ≤ a * 25 * m =
      mul_mono (a * r) (a * 25) missing m share (omega arith) in
    let part : b * missing ≤ 4 * m = mul_mono b 4 missing m b_le (omega arith) in
    let money = round100_with_minimum_bounds (a * r * missing) (100 * m) (omega arith) bound in
    let units = ceil_ratio_bounds (b * missing) m (omega arith) (omega arith) in
    let experience = activity_cost_cases tier b missing m (omega arith) b_le (omega arith) small in
    let money_le = money_bound money.0 (a * r * missing) a m (omega arith) whole money.3 in
    let units_small = cancel units.0 4 m (omega arith) (omega (arith, units.3)) in
    record {
      hundreds = money.0;
      units = units.0;
      experience = experience.0;
      computed =
          preview_steps tier slot c m a r b (money.0 * 100) units.0 experience.0 re be lt small pa
            (omega arith) (omega arith) (omega arith) money.1 units.1 experience.1 (omega arith)
            (omega arith) (omega (arith, experience.2));
      money = (money.2, money.3);
      units_share = (units.2, units.3);
      experience_share = experience.3;
    }

-- A cancelled repair gives back four fifths of the eligible material, rounded down, no Money and
-- no Activity EXP, for every count in the width.
pub repair_cancel_refund_fifths :
    (eligible : ℕ)
    → eligible < i64_limit
    → (units : ℕ) × (repair_cancel_refund (pos eligible)
        ≡ ok (record { material_units = pos units; money = pos 0; activity_xp = pos 0 }))
      × (units * 5 ≤ eligible * 4)
      × (eligible * 4 < units * 5 + 5)
unfolding repair_cancel_refund checked_mul ◌/ℤ◌
repair_cancel_refund_fifths eligible h = (
  eligible * 4 / 5,
  rw
      (
        mul_i128_pos arithmetic_overflow eligible 4 (omega arith),
        to_i64_pos (eligible * 4 / 5) (omega arith),
      )
      (ground arith),
  omega arith,
  omega arith,
)
