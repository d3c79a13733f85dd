-- ===== src/Services/Upgrade/Ratio.antt =====
-- Lemmas on the loop of `gcd`, and on what `probability` makes of a ratio with it.
use native.Mathlib.Nat.{
  mod-lt, div-add-mod', mul-div_cancel, div-mul-le_self, mul-le-mul_right, eq_of_mul-eq-mul_right,
  le-div_iff_mul-le,
}
use graphite_bot.Common.{
  ℕ, zero, suc, ◌+◌, ◌-◌, leb, leb→le, ◌*◌, ◌/◌, ◌%◌, ◌≤◌, ◌<◌, ◌≡◌, refl, subst, ◌⊎◌, true, false,
  ◌==◌, arith, inl, inr, Bool-cases,
}
use graphite_bot.Services.Upgrade.{UpgradeProbability, gcd_loop, gcd, probability}

abbrev pub Divides : ℕ → ℕ → Type 0
Divides d n = (k : ℕ) × (n ≡ k * d)

of_rest :
    (d left quotient right rest k r : ℕ)
    → quotient * right + rest ≡ left
    → right ≡ k * d
    → rest ≡ r * d
    → left ≡ (quotient * k + r) * d
of_rest d left quotient right rest k r sum e f =
    let opened : quotient * (k * d) + r * d ≡ left =
      subst (λ x. quotient * x + r * d ≡ left) e (subst (λ x. quotient * right + x ≡ left) f sum) in
    omega arith

divisor_of_left : (d left right : ℕ) → Divides d right → Divides d (left % right) → Divides d left
divisor_of_left d left right (k, e) (r, f) = (
  left / right * k + r,
  of_rest d left (left / right) right (left % right) k r (div-add-mod' left right) e f,
)

gcd_stop : (fuel left right : ℕ) → (right == 0) ≡ true → gcd_loop (suc fuel) left right ≡ left
unfolding gcd_loop
gcd_stop fuel left right end = rw (gcd_loop, end) refl

gcd_next :
    (fuel left right : ℕ)
    → (right == 0) ≡ false
    → gcd_loop (suc fuel) left right ≡ gcd_loop fuel right (left % right)
unfolding gcd_loop
gcd_next fuel left right goes = rw (gcd_loop, goes) refl

pub gcd_loop-Divides :
    (fuel left right : ℕ)
    → right < fuel
    → Divides (gcd_loop fuel left right) left × Divides (gcd_loop fuel left right) right
gcd_loop-Divides zero left right h = absurd (omega arith)
gcd_loop-Divides (suc fuel) left right h = elim (Bool-cases (right == 0)) [
  | inl end ↦ rw (gcd_stop fuel left right end) ((1, omega arith), (0, ground arith))
  | inr goes ↦
      let positive : 0 < right = ground arith in
      let falls = mod-lt left positive in
      let smaller : left % right < fuel = omega (arith, falls) in
      let (of_right, of_rest) = gcd_loop-Divides fuel right (left % right) smaller in
      rw (gcd_next fuel left right goes)
        (divisor_of_left (gcd_loop fuel right (left % right)) left right of_right of_rest, of_right)
]

-- A number that is a difference of multiples of two others: each common divisor of them divides it.
abbrev pub IsDifference : ℕ → ℕ → ℕ → Type 0
IsDifference d n m = (x : ℕ) × (y : ℕ) × ((x * n ≡ d + y * m) ⊎ (x * m ≡ d + y * n))

IsDifference-step :
    (d left quotient right rest : ℕ)
    → quotient * right + rest ≡ left
    → IsDifference d right rest
    → IsDifference d left right
IsDifference-step d left quotient right rest sum (x, y, inl e) =
    (x + y * quotient, y, inr (rw (← sum) (omega (arith, e))))
IsDifference-step d left quotient right rest sum (x, y, inr e) =
    (x, x * quotient + y, inl (rw (← sum) (omega (arith, e))))

gcd_loop-IsDifference :
    (fuel left right : ℕ) → right < fuel → IsDifference (gcd_loop fuel left right) left right
gcd_loop-IsDifference zero left right h = absurd (omega arith)
gcd_loop-IsDifference (suc fuel) left right h = elim (Bool-cases (right == 0)) [
  | inl end ↦ rw (gcd_stop fuel left right end) (1, 0, inl (omega arith))
  | inr goes ↦
      let positive : 0 < right = ground arith in
      let smaller : left % right < fuel = omega (arith, mod-lt left positive) in
      rw (gcd_next fuel left right goes) (
        IsDifference-step (gcd_loop fuel right (left % right)) left (left / right) right
          (left % right) (div-add-mod' left right)
          (gcd_loop-IsDifference fuel right (left % right) smaller))
]

-- One is a difference of multiples of the two terms.
abbrev pub IsReduced : UpgradeProbability → Type 0
IsReduced p = IsDifference 1 p.numerator p.denominator

divides_one : (d u v : ℕ) → u * d ≡ 1 + v * d → d ≡ 1
divides_one zero u v e = absurd (omega arith)
divides_one (suc d) u v e = elim (Bool-cases (leb u v)) [
  | inl within ↦
      let grown = mul-le-mul_right (suc d) (leb→le u v within) in absurd (omega (arith, e, grown))
  | inr over ↦
      let rest : u ≡ v + suc (u - v - 1) = ground arith in
      let whole : (v + suc (u - v - 1)) * suc d ≡ 1 + v * suc d =
        subst (λ k. k * suc d ≡ 1 + v * suc d) rest e in
      omega (arith, whole)
]

divides_difference :
    (d x y a b top bottom : ℕ) → x * top ≡ 1 + y * bottom → top ≡ a * d → bottom ≡ b * d → d ≡ 1
divides_difference d x y a b top bottom e f g =
    let placed : x * (a * d) ≡ 1 + y * (b * d) =
      subst (λ k. x * (a * d) ≡ 1 + y * k) g (subst (λ k. x * k ≡ 1 + y * bottom) f e) in
    divides_one d (x * a) (y * b) (omega (arith, placed))

-- Only one divides both terms of what is reduced.
IsReduced-Divides :
    (p : UpgradeProbability) (d : ℕ)
    → IsReduced p
    → Divides d p.numerator
    → Divides d p.denominator
    → d ≡ 1
IsReduced-Divides p d (x, y, inl e) (a, f) (b, g) =
    divides_difference d x y a b p.numerator p.denominator e f g
IsReduced-Divides p d (x, y, inr e) (a, f) (b, g) =
    divides_difference d x y b a p.denominator p.numerator e g f

cancelled_term : (a b g x y : ℕ) → 0 < g → x * (a * g) ≡ g + y * (b * g) → x * a ≡ 1 + y * b
cancelled_term a b g x y positive e =
    eq_of_mul-eq-mul_right g positive (x * a) (1 + y * b) (omega (arith, e))

-- A common factor of the terms and their difference goes.
cancelled : (a b g : ℕ) → 0 < g → IsDifference g (a * g) (b * g) → IsDifference 1 a b
cancelled a b g positive (x, y, inl e) = (x, y, inl (cancelled_term a b g x y positive e))
cancelled a b g positive (x, y, inr e) = (x, y, inr (cancelled_term b a g x y positive e))

-- A chance of `n` in `m`.
pub record IsRatio (n m : ℕ) (p : UpgradeProbability) : Type 0 where
  pub ratio : p.numerator * m ≡ n * p.denominator
  pub at_most_one : p.numerator ≤ p.denominator
  pub positive : 0 < p.denominator
  pub lowest : IsReduced p

has_part : (b g m : ℕ) → m ≡ b * g → 0 < m → 0 < b
has_part zero g m e h = absurd (omega arith)
has_part (suc b) g m e h = omega arith

reduced :
    (n m g : ℕ)
    → 0 < m
    → n ≤ m
    → Divides g n
    → Divides g m
    → IsDifference g n m
    → IsRatio n m (record { numerator = n / g; denominator = m / g })
reduced n m zero positive within (a, e) (b, f) difference = absurd (omega arith)
reduced n m (suc g) positive within (a, e) (b, f) difference =
    let top : n / suc g ≡ a = rw (e) (mul-div_cancel a (omega arith)) in
    let bottom : m / suc g ≡ b = rw (f) (mul-div_cancel b (omega arith)) in
    record {
      ratio = rw (top, bottom, e, f) (omega arith);
      at_most_one = (le-div_iff_mul-le (omega arith)).1 (omega (arith, div-mul-le_self n (suc g)));
      positive = rw (bottom) (has_part b (suc g) m f positive);
      lowest =
          rw (top, bottom)
            (cancelled a b (suc g) (omega arith) (
              subst (λ k. IsDifference (suc g) k (b * suc g)) e
                (subst (λ k. IsDifference (suc g) n k) f difference)));
    }

pub probability-IsRatio : (n m : ℕ) → 0 < m → n ≤ m → IsRatio n m (probability n m)
unfolding probability gcd
probability-IsRatio n m positive within = elim (Bool-cases (n == 0)) [
  | inl nothing ↦ rw (nothing) (record {
    ratio = ground arith;
    at_most_one = omega arith;
    positive = omega arith;
    lowest = (1, 0, inr (omega arith));
  })
  | inr some_chance ↦
      let (of_n, of_m) = gcd_loop-Divides (suc m) n m (omega arith) in
      rw (some_chance) (
        reduced n m (gcd_loop (suc m) n m) positive within of_n of_m
          (gcd_loop-IsDifference (suc m) n m (omega arith)))
]
