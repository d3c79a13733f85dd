-- ===== src/Economy/Interest/Days.antt =====
-- The loop over the days: at each day the lots in memory are those of the table, and the player's
-- balance is what they hold.
use graphite_bot.Common.{
  ℕ, zero, suc, ◌+◌, ◌≤◌, ◌<◌, ◌≡◌, ◌≢◌, sym, ap, ◌∙◌, subst, List, ok, arith, if◌then◌else◌,
  Option-cases, Result-cases, inl, inr, Result, ltb,
}
use native.Mathlib.Decide.{dec_lt}
use graphite_bot.Common.Int.{ℤ, pos, ◌≤ℤ◌, ◌+ℤ◌}
use graphite_bot.Common.Checked.{i64_limit}
use graphite_bot.Common.Values.{Uuid, Digest}
use graphite_bot.Economy.Tables.{LotRow}
use graphite_bot.Economy.Bank.LotLaws.{ok_injective, lot_total}
use graphite_bot.Economy.Interest.Tables.{
  InterestPlayer, InterestLot, InterestDb, InterestDraws, Calendar, Date, BankInterestError,
}
use graphite_bot.Economy.Interest.Rate.{checked_add}
use graphite_bot.Economy.Interest.Allocation.{allocate_interest_to_lots}
use graphite_bot.Economy.Interest.Accrual.{
  Progress, insert_interest_operation, credit_day, accrue_day, accrue_days,
}
use graphite_bot.Economy.Interest.Raised.{
  Mirrored, Raised, InRange, day_interest, allocate_interest_to_lots-Raised,
}

-- A point of the loop that began with the tables `start`.
pub record OnDay (start : InterestDb) (id : Uuid) (p : Progress) : Type 0 where
  pub id_eq : p.player.player_id ≡ id
  pub in_range : InRange (lot_total id p.db.lots) p.player
  pub mirrored : Mirrored id p.lots p.db.lots
  pub players : p.db.players ≡ start.players
  pub credited : ℕ
  pub credited_eq : p.total_interest ≡ pos credited
  pub own : lot_total id p.db.lots ≡ lot_total id start.lots + credited
  pub others : (other : Uuid) → id ≢ other → lot_total other p.db.lots ≡ lot_total other start.lots

abbrev banked : InterestPlayer → ℤ → InterestPlayer
banked player bank = record player { bank = bank }

abbrev moved_on : InterestPlayer → ℤ → Date → InterestPlayer
moved_on player remainder day = record player { remainder_q32 = remainder; last_accrual_day = day }

-- What a day with interest leaves.
record CreditedTo (p q : Progress) (bank total : ℕ) (lots' : List InterestLot) (rows' : List LotRow)
    : Type 0 where
  player : q.player ≡ banked p.player (pos bank)
  lots : q.lots ≡ lots'
  total_interest : q.total_interest ≡ pos total
  rows : q.db.lots ≡ rows'
  players : q.db.players ≡ p.db.players
  bank_lt : bank < i64_limit

no_interest_without_bank :
    (lots : List InterestLot) (c : ℕ) (rows : List LotRow) (out : List InterestLot × List LotRow)
    → 0 < c
    → allocate_interest_to_lots lots (pos c) (pos 0) rows ≢ ok out
unfolding allocate_interest_to_lots
no_interest_without_bank lots c rows out h = ground arith

module _ (interest_request_hash : Uuid → Date → ℤ → ℤ → ℤ → Digest)
    (draws : Date → InterestDraws) where
  credit_day-CreditedTo :
      (p : Progress) (day : Date) (after : ℤ) (bank c t : ℕ) (lots' : List InterestLot)
      (rows' : List LotRow) {q : Progress}
      → p.player.bank ≡ pos bank
      → p.total_interest ≡ pos t
      → allocate_interest_to_lots p.lots (pos c) (pos bank) p.db.lots ≡ ok (lots', rows')
      → credit_day interest_request_hash draws day (pos c) after p ≡ ok q
      → CreditedTo p q (bank + c) (t + c) lots' rows'
  unfolding credit_day insert_interest_operation checked_add ◌+ℤ◌
  credit_day-CreditedTo p day after bank c t lots' rows' be te ae h = ground arith

  credit_day_overflow :
      (p : Progress) (day : Date) (after : ℤ) (bank c : ℕ) {q : Progress}
      → p.player.bank ≡ pos bank
      → i64_limit ≤ bank + c
      → credit_day interest_request_hash draws day (pos c) after p ≢ ok q
  unfolding credit_day checked_add ◌+ℤ◌
  credit_day_overflow p day after bank c be over h =
      elim (Result-cases (allocate_interest_to_lots p.lots (pos c) p.player.bank p.db.lots)) [
        | inl (out, e) ↦ ground arith
        | inr (er, e) ↦ ground arith
      ]

  credit_day_empty :
      (p : Progress) (day : Date) (after : ℤ) (c : ℕ) {q : Progress}
      → 0 < c
      → p.player.bank ≡ pos 0
      → credit_day interest_request_hash draws day (pos c) after p ≢ ok q
  unfolding credit_day
  credit_day_empty p day after c h be e =
      elim (Result-cases (allocate_interest_to_lots p.lots (pos c) p.player.bank p.db.lots)) [
        | inl (out, some_out) ↦
            no_interest_without_bank p.lots c p.db.lots out h (rw (← be) some_out)
        | inr (er, refused) ↦ ground arith
      ]

  CreditedTo-Raised :
      {id : Uuid} {c : ℕ} {p q : Progress} {bank total : ℕ} {lots' : List InterestLot}
      {rows' : List LotRow}
      → CreditedTo p q bank total lots' rows'
      → Raised id c p.db.lots lots' rows'
      → Raised id c p.db.lots q.lots q.db.lots
  CreditedTo-Raised {id} {c} {p} {q} {bank} {total} {lots'} {rows'} ct raised =
      subst (λ l. Raised id c p.db.lots l q.db.lots) (sym ct.lots)
        (subst (λ r. Raised id c p.db.lots lots' r) (sym ct.rows) raised)

  -- The day with interest, once its credit is known.
  OnDay-credit :
      (start : InterestDb) (id : Uuid) (p : Progress) (day : Date) (c next : ℕ) {q : Progress}
      → OnDay start id p
      → 0 < c
      → next < 4_294_967_296_000_000
      → credit_day interest_request_hash draws day (pos c) (pos next) p ≡ ok q
      → OnDay start id (record q { player = moved_on q.player (pos next) day })
  OnDay-credit start id p day c next {q} o h k e = elim (dec_lt (bank + c) i64_limit) [
    | no over ↦
        absurd (credit_day_overflow p day (pos next) bank c o.in_range.bank_eq (omega arith) e)
    | yes within ↦ elim (dec_lt 0 bank) [
      | no empty ↦
          absurd
            (credit_day_empty p day (pos next) c h (o.in_range.bank_eq ∙ ap pos (omega arith)) e)
      | yes positive ↦
          let run =
            allocate_interest_to_lots-Raised id c p.lots p.db.lots h positive within o.mirrored in
          let ct =
            credit_day-CreditedTo p day (pos next) bank c o.credited run.0 run.1 o.in_range.bank_eq
              o.credited_eq run.2 e in
          let r = CreditedTo-Raised ct run.3 in
          record {
            id_eq = ap (λ (pl : InterestPlayer). pl.player_id) ct.player ∙ o.id_eq;
            in_range = record {
              bank_eq = ap (λ (pl : InterestPlayer). pl.bank) ct.player ∙ ap pos (sym r.own);
              bank_lt = omega (arith, r.own);
              rebirth =
                  subst (λ (pl : InterestPlayer). pos 0 ≤ℤ pl.rebirth_count) (sym ct.player)
                    o.in_range.rebirth;
              remainder = omega arith;
              remainder_lt = omega arith;
            };
            mirrored = r.mirrored;
            players = ct.players ∙ o.players;
            credited = o.credited + c;
            credited_eq = ct.total_interest;
            own = omega (arith, r.own, o.own);
            others = λ other ne. r.others other ne ∙ o.others other ne;
          }
    ]
  ]
    where
      bank : ℕ
      bank = lot_total id p.db.lots

  -- The day without interest.
  OnDay-quiet :
      (start : InterestDb) (id : Uuid) (p : Progress) (day : Date) (next : ℕ)
      → OnDay start id p
      → next < 4_294_967_296_000_000
      → OnDay start id (record p { player = moved_on p.player (pos next) day })
  OnDay-quiet start id p day next o k = record {
    id_eq = o.id_eq;
    in_range = record {
      bank_eq = o.in_range.bank_eq;
      bank_lt = o.in_range.bank_lt;
      rebirth = o.in_range.rebirth;
      remainder = omega arith;
      remainder_lt = omega arith;
    };
    mirrored = o.mirrored;
    players = o.players;
    credited = o.credited;
    credited_eq = o.credited_eq;
    own = o.own;
    others = o.others;
  }

  -- A day whose interest is computed, by whether there is any.
  OnDay-settle :
      (start : InterestDb) (id : Uuid) (p : Progress) (day : Date) (c next : ℕ) {q : Progress}
      → OnDay start id p
      → next < 4_294_967_296_000_000
      → (if ltb 0 c then credit_day interest_request_hash draws day (pos c) (pos next) p else ok p)
        ≡ ok q
      → OnDay start id (record q { player = moved_on q.player (pos next) day })
  OnDay-settle start id p day zero next {q} o k e =
      subst
        (λ (s : Progress). OnDay start id (record s { player = moved_on s.player (pos next) day }))
        (ok_injective e) (OnDay-quiet start id p day next o k)
  OnDay-settle start id p day (suc c) next {q} o k e =
      let credit : credit_day interest_request_hash draws day (pos (suc c)) (pos next) p ≡ ok q =
        ground arith in
      OnDay-credit start id p day (suc c) next o (omega arith) k credit

  module _ (calendar : Calendar) where
    accrue_day-OnDay :
        (start : InterestDb) (id : Uuid) (p : Progress) {q : Progress}
        → OnDay start id p
        → accrue_day interest_request_hash draws calendar p ≡ ok q
        → OnDay start id q
    unfolding accrue_day
    accrue_day-OnDay start id p {q} o e =
        elim (Option-cases (calendar.succ_opt p.player.last_accrual_day)) [
          | inl last ↦ absurd (ground arith)
          | inr (day, succ_eq) ↦
              let today = day_interest p.player o.in_range in
              let settled =
                if ltb 0 today.0
                then credit_day interest_request_hash draws day (pos today.0) (pos today.1) p
                else ok p in
              elim (Result-cases settled) [
                | inr (er, refused) ↦ absurd (ground (arith, today.2))
                | inl (next, done) ↦
                    let same : ◌≡◌ {A = Result BankInterestError Progress}
                        (ok (record next { player = moved_on next.player (pos today.1) day }))
                        (ok q) =
                      ground (arith, today.2) in
                    subst (OnDay start id) (ok_injective same)
                      (OnDay-settle start id p day today.0 today.1 o today.3 done)
              ]
        ]

    pub accrue_days-OnDay :
        (rounds : ℕ) (start : InterestDb) (id : Uuid) (p : Progress) {q : Progress}
        → OnDay start id p
        → accrue_days interest_request_hash draws calendar rounds p ≡ ok q
        → OnDay start id q
    unfolding accrue_days
    accrue_days-OnDay zero start id p o e = subst (OnDay start id) (ok_injective e) o
    accrue_days-OnDay (suc rounds) start id p {q} o e =
        elim (Result-cases (accrue_day interest_request_hash draws calendar p)) [
          | inr (er, refused) ↦ absurd (ground arith)
          | inl (next, day) ↦
              let rest : accrue_days interest_request_hash draws calendar rounds next ≡ ok q =
                ground arith in
              accrue_days-OnDay rounds start id next (accrue_day-OnDay start id p o day) rest
        ]
