-- ===== src/Economy/Interest/Exact.antt =====
-- The largest-remainder allocation hands out exactly the day's interest.
use graphite_bot.Common.{
  ℕ, zero, suc, ◌+◌, ◌-◌, ◌*◌, ◌/◌, ◌%◌, ◌≤◌, ◌<◌, ◌≡◌, refl, ap, sym, subst, ◌∙◌, List, [], ◌∷◌,
  map, ok, arith, All, length, Bool-cases, inl, inr,
}
use graphite_bot.Common.Int.{pos, pos_part, ◌≤ℤ◌, ◌/ℤ◌, ◌%ℤ◌, pos_of_nonneg, to_i64_pos}
use native.Mathlib.Decide.{dec_le}
use graphite_bot.Common.Checked.{i64_limit, i128_limit, mul_i128_pos, add_i64_pos, sub_i64_pos}
use graphite_bot.Economy.Interest.Tables.{arithmetic_overflow, InterestLot}
use graphite_bot.Economy.Interest.Rate.{checked_add}
use graphite_bot.Economy.Interest.Allocation.{
  Fraction, Shares, floor_shares, precedes, insert_fraction, sort_fractions, increment,
  give_leftover, allocate,
}

-- The sum of a list, and the principal of the lots in memory.
abbrev pub total : List ℕ → ℕ
total [] = 0
total (n ∷ ns) = n + total ns

abbrev pub principal_total : List InterestLot → ℕ
principal_total [] = 0
principal_total (lot ∷ lots) = pos_part lot.principal + principal_total lots

abbrev pub HasPrincipal : InterestLot → Type 0
HasPrincipal lot = pos 0 ≤ℤ lot.principal

abbrev Below : ℕ → Fraction → Type 0
Below n f = f.index < n

-- One share: the floor and what it leaves.
share_parts : (i p d : ℕ) → 0 < d → (i * p / d * d + i * p % d ≡ i * p) × (i * p % d < d)
share_parts i p d h = grind arith

product_bound : (i p : ℕ) → i < i64_limit → p < i64_limit → i * p < i128_limit
product_bound i p h k = grind arith

mul_le : (a b d : ℕ) → a ≤ b → a * d ≤ b * d
mul_le a b d h = grind arith

quotient_bound : (s a i d : ℕ) → 0 < d → (a + s) * d ≤ i * d → a + s ≤ i
quotient_bound s a i d h k = elim (dec_le (a + s) i) [
  | yes le ↦ le
  | no more ↦
      let above : suc i * d ≤ (a + s) * d = mul_le (suc i) (a + s) d (omega arith) in
      absurd (omega arith)
]

-- One round of the first loop.
floor_step :
    (i d index a p : ℕ) (lot : InterestLot) (lots : List InterestLot) (rest : Shares)
    → lot.principal ≡ pos p
    → i < i64_limit
    → p < i64_limit
    → i * p / d < i64_limit
    → a + i * p / d < i64_limit
    → floor_shares (pos i) (pos d) (suc index) (pos (a + i * p / d)) lots ≡ ok rest
    → floor_shares (pos i) (pos d) index (pos a) (lot ∷ lots)
      ≡ ok (record {
        allocations = pos (i * p / d) ∷ rest.allocations;
        fractional = record { index = index; part = pos (i * p % d) } ∷ rest.fractional;
        allocated = rest.allocated;
      })
unfolding floor_shares checked_add ◌/ℤ◌ ◌%ℤ◌
floor_step i d index a p lot lots rest principal_eq hi hp hs ha e = rw (
  principal_eq,
  mul_i128_pos arithmetic_overflow i p (product_bound i p hi hp),
  to_i64_pos (i * p / d) hs,
  add_i64_pos arithmetic_overflow a (i * p / d) ha,
  e,
)

-- What the first loop leaves: shares that are the floors, and the sum `rest` of the parts.
record Floored (i d index a : ℕ) (lots : List InterestLot) : Type 0 where
  shares : Shares
  computed : floor_shares (pos i) (pos d) index (pos a) lots ≡ ok shares
  floors : List ℕ
  allocations : shares.allocations ≡ map pos floors
  floors_length : length floors ≡ length lots
  parts_length : length shares.fractional ≡ length lots
  indices : All (Below (index + length lots)) shares.fractional
  rest : ℕ
  allocated : shares.allocated ≡ pos (a + total floors)
  balance : (a + total floors) * d + rest ≡ a * d + i * principal_total lots
  rest_le : rest + length lots ≤ length lots * d

widen :
    (index n : ℕ) (fs : List Fraction)
    → All (Below (suc index + n)) fs
    → All (Below (index + suc n)) fs
widen index n [] a = tt
widen index n (f ∷ fs) a = (omega arith, widen index n fs a.1)

floor_shares-Floored :
    (i d index a : ℕ) (lots : List InterestLot)
    → 0 < d
    → i < i64_limit
    → d < i64_limit
    → All HasPrincipal lots
    → principal_total lots ≤ d
    → a * d + i * principal_total lots ≤ i * d
    → Floored i d index a lots
unfolding floor_shares
floor_shares-Floored i d index a [] h l m f t b = record {
  shares = record { allocations = []; fractional = []; allocated = pos a };
  computed = refl;
  floors = [];
  allocations = refl;
  floors_length = refl;
  parts_length = refl;
  indices = tt;
  rest = 0;
  allocated = ap pos (omega arith);
  balance = omega arith;
  rest_le = omega arith;
}
floor_shares-Floored i d index a (lot ∷ lots) h l m f t b =
    let p = pos_part lot.principal in
    let principal_eq = pos_of_nonneg lot.principal f.0 in
    let s = i * p / d in
    let parts = share_parts i p d h in
    let step : (a + s) * d + i * principal_total lots ≤ i * d = omega arith in
    let s_le = quotient_bound s a i d h (omega arith) in
    let ih = floor_shares-Floored i d (suc index) (a + s) lots h l m f.1 (omega arith) step in
    record {
      shares = record {
        allocations = pos s ∷ ih.shares.allocations;
        fractional = record { index = index; part = pos (i * p % d) } ∷ ih.shares.fractional;
        allocated = ih.shares.allocated;
      };
      computed =
          floor_step i d index a p lot lots ih.shares principal_eq l (omega arith) (omega arith)
            (omega arith) ih.computed;
      floors = s ∷ ih.floors;
      allocations = ap (λ l. pos s ∷ l) ih.allocations;
      floors_length = ap suc ih.floors_length;
      parts_length = ap suc ih.parts_length;
      indices = (omega arith, widen index (length lots) ih.shares.fractional ih.indices);
      rest = i * p % d + ih.rest;
      allocated = ih.allocated ∙ ap pos (omega arith);
      balance = omega (arith, ih.balance);
      rest_le = omega (arith, ih.rest_le);
    }

-- Sorting keeps the fractions, up to their order.
All-Below-insert_fraction :
    (n : ℕ) (f : Fraction) (gs : List Fraction)
    → f.index < n
    → All (Below n) gs
    → All (Below n) (insert_fraction f gs)
unfolding insert_fraction
All-Below-insert_fraction n f [] h a = (h, tt)
All-Below-insert_fraction n f (g ∷ gs) h a = elim (Bool-cases (precedes f g)) [
  | inl e ↦ rw e (h, a)
  | inr e ↦ rw e (a.0, All-Below-insert_fraction n f gs h a.1)
]

All-Below-sort_fractions :
    (n : ℕ) (fs : List Fraction) → All (Below n) fs → All (Below n) (sort_fractions fs)
unfolding sort_fractions
All-Below-sort_fractions n [] a = tt
All-Below-sort_fractions n (f ∷ fs) a =
    All-Below-insert_fraction n f (sort_fractions fs) a.0 (All-Below-sort_fractions n fs a.1)

length-insert_fraction :
    (f : Fraction) (gs : List Fraction) → length (insert_fraction f gs) ≡ suc (length gs)
unfolding insert_fraction
length-insert_fraction f [] = refl
length-insert_fraction f (g ∷ gs) = ground (arith, length-insert_fraction f gs)

length-sort_fractions : (fs : List Fraction) → length (sort_fractions fs) ≡ length fs
unfolding sort_fractions
length-sort_fractions [] = refl
length-sort_fractions (f ∷ fs) =
    length-insert_fraction f (sort_fractions fs) ∙ ap suc (length-sort_fractions fs)

-- One unit more for one lot.
increment_lem :
    (index : ℕ) (ns : List ℕ)
    → index < length ns
    → total ns + 1 < i64_limit
    → (out : List ℕ) × (increment index (map pos ns) ≡ ok (map pos out))
      × (length out ≡ length ns)
      × (total out ≡ total ns + 1)
unfolding increment checked_add
increment_lem index [] h b = absurd (omega arith)
increment_lem zero (n ∷ ns) h b =
    ((n + 1) ∷ ns, rw (add_i64_pos arithmetic_overflow n 1 (omega arith)), refl, omega arith)
increment_lem (suc index) (n ∷ ns) h b =
    let ih = increment_lem index ns (omega arith) (omega arith) in
    (n ∷ ih.0, rw ih.1, ap suc ih.2, omega (arith, ih.3))

give_leftover_lem :
    (leftover : ℕ) (fs : List Fraction) (ns : List ℕ)
    → leftover ≤ length fs
    → All (Below (length ns)) fs
    → total ns + leftover < i64_limit
    → (out : List ℕ) × (give_leftover leftover fs (map pos ns) ≡ ok (map pos out))
      × (length out ≡ length ns)
      × (total out ≡ total ns + leftover)
unfolding give_leftover
give_leftover_lem zero fs ns h a b = (ns, refl, refl, omega arith)
give_leftover_lem (suc leftover) [] ns h a b = absurd (omega arith)
give_leftover_lem (suc leftover) (f ∷ fs) ns h a b =
    let one = increment_lem f.index ns a.0 (omega arith) in
    let below = subst (λ n. All (Below n) fs) (sym one.2) a.1 in
    let ih = give_leftover_lem leftover fs one.0 (omega arith) below (omega (arith, one.3)) in
    (ih.0, rw one.1 ih.1, ih.2 ∙ one.2, omega (arith, ih.3, one.3))

sub_mul : (i t d : ℕ) → t ≤ i → (i - t) * d + t * d ≡ i * d
sub_mul i t d h = grind arith

leftover_le :
    (i t d n rest : ℕ) → 0 < d → t * d + rest ≡ i * d → rest + n ≤ n * d → (t ≤ i) × (i - t ≤ n)
leftover_le i t d n rest h e r =
    let le : t ≤ i = omega (arith, quotient_bound 0 t i d h (omega arith)) in
    (le, omega (arith, quotient_bound 0 (i - t) n d h (omega (arith, sub_mul i t d le))))

-- The allocation, by what its first loop gave and what its last loop gives.
allocate_steps :
    (i d t : ℕ) (lots : List InterestLot) (shares : Shares) (floors out : List ℕ)
    → floor_shares (pos i) (pos d) 0 (pos 0) lots ≡ ok shares
    → shares.allocated ≡ pos t
    → shares.allocations ≡ map pos floors
    → t ≤ i
    → i < i64_limit
    → i - t ≤ length shares.fractional
    → give_leftover (i - t) (sort_fractions shares.fractional) (map pos floors) ≡ ok (map pos out)
    → allocate (pos i) (pos d) lots ≡ ok (map pos out)
unfolding allocate
allocate_steps i d t lots shares floors out first allocated allocations le small enough last =
    rw (first, allocated, allocations, sub_i64_pos arithmetic_overflow i t le small) (ground arith)

-- When lots of no negative principal hold the Bank balance, it is positive, and balance and
-- interest lie in the width, the largest-remainder allocation of the interest succeeds, with one
-- amount for each lot, and the amounts add up to the interest.
pub allocate-Exact :
    (interest bank_before : ℕ) (lots : List InterestLot)
    → 0 < bank_before
    → interest < i64_limit
    → bank_before < i64_limit
    → All HasPrincipal lots
    → principal_total lots ≡ bank_before
    → (amounts : List ℕ) × (allocate (pos interest) (pos bank_before) lots ≡ ok (map pos amounts))
      × (length amounts ≡ length lots)
      × (total amounts ≡ interest)
allocate-Exact i d lots h l m f e =
    let s = floor_shares-Floored i d 0 0 lots h l m f (omega arith) (rw e (omega arith)) in
    let t = total s.floors in
    let scaled : i * principal_total lots ≡ i * d = ap (λ (n : ℕ). i * n) e in
    let le = leftover_le i t d (length lots) s.rest h (omega (arith, s.balance)) s.rest_le in
    let fractions = sort_fractions s.shares.fractional in
    let count = length-sort_fractions s.shares.fractional ∙ s.parts_length in
    let below : All (Below (length s.floors)) fractions =
      subst (λ n. All (Below n) fractions) (omega (arith, s.floors_length))
        (All-Below-sort_fractions (0 + length lots) s.shares.fractional s.indices) in
    let last = give_leftover_lem (i - t) fractions s.floors (omega arith) below (omega arith) in
    (
      last.0,
      allocate_steps i d t lots s.shares s.floors last.0 s.computed
          (s.allocated ∙ ap pos (omega arith)) s.allocations le.0 l
          (omega (arith, le.1, s.parts_length)) last.1,
      last.2 ∙ s.floors_length,
      omega (arith, last.3, le.0),
    )
