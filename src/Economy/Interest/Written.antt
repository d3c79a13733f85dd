-- ===== src/Economy/Interest/Written.antt =====
-- Writing the amounts to the lots raises the player's total by their sum, and touches nothing else.
use graphite_bot.Common.{
  ℕ, zero, suc, ◌+◌, ◌<◌, ◌≡◌, ◌≢◌, refl, sym, ◌∙◌, subst, some, List, [], ◌∷◌, map, ok, arith, All,
  length,
}
use graphite_bot.Common.Int.{ℤ, pos, pos_part, pos_of_nonneg}
use graphite_bot.Common.Checked.{i64_limit, add_i64_pos}
use graphite_bot.Common.Values.{Uuid}
use graphite_bot.Economy.Tables.{LotRow}
use graphite_bot.Economy.Bank.LotLaws.{Distinct, Funded, lot_total}
use graphite_bot.Economy.Interest.Tables.{InterestLot, arithmetic_overflow}
use graphite_bot.Economy.Interest.Rate.{checked_add}
use graphite_bot.Economy.Interest.Allocation.{set_principal, write_allocations, raise_lot}
use graphite_bot.Economy.Interest.Exact.{total, principal_total, HasPrincipal}
use graphite_bot.Economy.Interest.LotWrites.{
  holding, set_principal-Distinct, set_principal-Funded, holding-set_principal, holding-set_self,
  lot_total-set_principal, set_principal_total,
}

-- The lot in memory is that of the table, and the player's.
abbrev pub Holds : Uuid → List LotRow → InterestLot → Type 0
Holds player rows lot = holding lot.id rows ≡ some (player, lot.principal)

abbrev pub Apart : Uuid → InterestLot → Type 0
Apart id lot = lot.id ≢ id

-- No id stands twice in memory.
abbrev pub Separate : List InterestLot → Type 0
Separate [] = Unit
Separate (lot ∷ lots) = All (Apart lot.id) lots × Separate lots

pub record Written (player : Uuid) (lots : List InterestLot) (ns : List ℕ) (rows : List LotRow)
    (lots' : List InterestLot) (rows' : List LotRow) : Type 0 where
  pub distinct : Distinct rows'
  pub funded : All Funded rows'
  pub own : lot_total player rows' ≡ lot_total player rows + total ns
  pub others : (other : Uuid) → player ≢ other → lot_total other rows' ≡ lot_total other rows
  pub memory : principal_total lots' ≡ principal_total lots + total ns
  pub principals : All HasPrincipal lots'
  pub held : All (Holds player rows') lots'
  pub apart : (id : Uuid) → All (Apart id) lots → All (Apart id) lots'
  pub separate : Separate lots'
  pub untouched : (id : Uuid) → All (Apart id) lots → holding id rows' ≡ holding id rows

All-Holds-set_principal :
    (player id : Uuid) (principal : ℤ) (rows : List LotRow) {next : List LotRow}
    (lots : List InterestLot)
    → set_principal id principal rows ≡ some next
    → All (Apart id) lots
    → All (Holds player rows) lots
    → All (Holds player next) lots
All-Holds-set_principal player id principal rows [] e a h = tt
All-Holds-set_principal player id principal rows (lot ∷ lots) e a h = (
  holding-set_principal id principal lot.id rows (λ same. a.0 (sym same)) e ∙ h.0,
  All-Holds-set_principal player id principal rows lots e a.1 h.1,
)

no_amounts :
    (player : Uuid) (rows : List LotRow)
    → Distinct rows
    → All Funded rows
    → Written player [] [] rows [] rows
no_amounts player rows d f = record {
  distinct = d;
  funded = f;
  own = omega arith;
  others = λ other ne. refl;
  memory = refl;
  principals = tt;
  held = tt;
  apart = λ id a. tt;
  separate = tt;
  untouched = λ id a. refl;
}

-- A lot that gets nothing stays.
skip_lot :
    (player : Uuid) (lot : InterestLot) (lots lots' : List InterestLot) (ns : List ℕ)
    (rows rows' : List LotRow)
    → HasPrincipal lot
    → Holds player rows lot
    → All (Apart lot.id) lots
    → Written player lots ns rows lots' rows'
    → Written player (lot ∷ lots) (zero ∷ ns) rows (lot ∷ lots') rows'
skip_lot player lot lots lots' ns rows rows' p h a w = record {
  distinct = w.distinct;
  funded = w.funded;
  own = omega (arith, w.own);
  others = w.others;
  memory = omega (arith, w.memory);
  principals = (p, w.principals);
  held = (w.untouched lot.id a ∙ h, w.held);
  apart = λ id b. (b.0, w.apart id b.1);
  separate = (w.apart lot.id a, w.separate);
  untouched = λ id b. w.untouched id b.1;
}

-- A lot that is raised, and the rest after it.
raise_lot_lem :
    (player : Uuid) (lot : InterestLot) (p n : ℕ) (lots lots' : List InterestLot) (ns : List ℕ)
    (rows next rows' : List LotRow)
    → lot.principal ≡ pos p
    → Holds player rows lot
    → All (Apart lot.id) lots
    → set_principal lot.id (pos (p + n)) rows ≡ some next
    → Written player lots ns next lots' rows'
    → Written player (lot ∷ lots) (n ∷ ns) rows (raise_lot lot (pos (p + n)) ∷ lots') rows'
raise_lot_lem player lot p n lots lots' ns rows next rows' pe h a e w =
    let h' : holding lot.id rows ≡ some (player, pos p) =
      subst (λ q. holding lot.id rows ≡ some (player, q)) pe h in
    record {
      distinct = w.distinct;
      funded = w.funded;
      own = ground (
        arith,
        w.own,
        lot_total-set_principal lot.id (pos (p + n)) player player (pos p) rows h' e,
      );
      others = λ other ne. ground (
        arith,
        w.others other ne,
        lot_total-set_principal lot.id (pos (p + n)) player other (pos p) rows h' e,
      );
      memory = ground (arith, w.memory);
      principals = (omega arith, w.principals);
      held = (
        w.untouched lot.id a ∙ holding-set_self lot.id (pos (p + n)) player (pos p) rows h' e,
        w.held,
      );
      apart = λ id b. (b.0, w.apart id b.1);
      separate = (w.apart lot.id a, w.separate);
      untouched =
          λ id b. w.untouched id b.1 ∙ holding-set_principal lot.id (pos (p + n)) id rows b.0 e;
    }

raise_run :
    (lot : InterestLot) (p n : ℕ) (lots : List InterestLot) (amounts : List ℤ)
    (rows next : List LotRow) (lots' : List InterestLot) (rows' : List LotRow)
    → lot.principal ≡ pos p
    → p + suc n < i64_limit
    → set_principal lot.id (pos (p + suc n)) rows ≡ some next
    → write_allocations lots amounts next ≡ ok (lots', rows')
    → write_allocations (lot ∷ lots) (pos (suc n) ∷ amounts) rows
      ≡ ok (raise_lot lot (pos (p + suc n)) ∷ lots', rows')
unfolding write_allocations checked_add
raise_run lot p n lots amounts rows next lots' rows' pe b set rest =
    rw (pe, add_i64_pos arithmetic_overflow p (suc n) b, set, rest) (ground arith)

-- Amounts that keep the total below the limit are all written.
pub write_allocations-Written :
    (player : Uuid) (lots : List InterestLot) (ns : List ℕ) (rows : List LotRow)
    → length ns ≡ length lots
    → Distinct rows
    → All Funded rows
    → All HasPrincipal lots
    → All (Holds player rows) lots
    → Separate lots
    → principal_total lots + total ns < i64_limit
    → (lots' : List InterestLot) × (rows' : List LotRow) × (write_allocations lots (map pos ns) rows
        ≡ ok (lots', rows'))
      × Written player lots ns rows lots' rows'
unfolding write_allocations checked_add
write_allocations-Written player [] [] rows l d f p h s b =
    ([], rows, refl, no_amounts player rows d f)
write_allocations-Written player [] (n ∷ ns) rows l d f p h s b = absurd (omega arith)
write_allocations-Written player (lot ∷ lots) [] rows l d f p h s b = absurd (omega arith)
write_allocations-Written player (lot ∷ lots) (zero ∷ ns) rows l d f p h s b =
    let ih =
      write_allocations-Written player lots ns rows (omega arith) d f p.1 h.1 s.1 (omega arith) in
    (lot ∷ ih.0, ih.1, rw ih.2 refl, skip_lot player lot lots ih.0 ns rows ih.1 p.0 h.0 s.0 ih.3)
write_allocations-Written player (lot ∷ lots) (suc n ∷ ns) rows l d f p h s b =
    let q = pos_part lot.principal + suc n in
    let set = set_principal_total lot.id (pos q) (player, lot.principal) rows h.0 in
    let next = set.0 in
    let d' = set_principal-Distinct lot.id (pos q) rows d set.1 in
    let f' = set_principal-Funded lot.id (pos q) rows f (omega arith) set.1 in
    let h' = All-Holds-set_principal player lot.id (pos q) rows lots set.1 s.0 h.1 in
    let ih =
      write_allocations-Written player lots ns next (omega arith) d' f' p.1 h' s.1 (omega arith) in
    let pe = pos_of_nonneg lot.principal p.0 in
    (
      raise_lot lot (pos q) ∷ ih.0,
      ih.1,
      raise_run lot (pos_part lot.principal) n lots (map pos ns) rows next ih.0 ih.1 pe
          (omega arith) set.1 ih.2,
      raise_lot_lem player lot (pos_part lot.principal) (suc n) lots ih.0 ns rows next ih.1 pe h.0
          s.0 set.1 ih.3,
    )
