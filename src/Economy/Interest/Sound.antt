-- ===== src/Economy/Interest/Sound.antt =====
-- The balances of the players' rows against their lots, under the writes of the interest service.
use graphite_bot.Common.{
  ℕ, ◌<◌, ◌≡◌, ◌≢◌, sym, ap, subst, List, [], ◌∷◌, arith, All, ◌==◌, ==_iff, Bool-cases, inl, inr,
}
use graphite_bot.Common.Int.{ℤ, pos, ◌≤ℤ◌, ◌<ℤ◌}
use graphite_bot.Common.Checked.{i64_limit}
use graphite_bot.Common.Values.{Uuid}
use graphite_bot.Economy.Tables.{LotRow}
use graphite_bot.Economy.Bank.LotLaws.{Distinct, Funded, lot_total}
use graphite_bot.Economy.Interest.Tables.{InterestPlayer, InterestDb, Date}
use graphite_bot.Economy.Interest.Rate.{interest_denominator_q32}
use graphite_bot.Economy.Interest.Raised.{InRange}
use graphite_bot.Economy.Interest.Accrual.{set_bank, set_state}

-- A player's row is in range, and its balance is what its lots hold.
abbrev pub Balanced : List LotRow → InterestPlayer → Type 0
Balanced lots player = InRange (lot_total player.player_id lots) player

pub record IsSound (db : InterestDb) : Type 0 where
  pub distinct : Distinct db.lots
  pub funded : All Funded db.lots
  pub balanced : All (Balanced db.lots) db.players

InRange-state :
    (bank : ℕ) (player : InterestPlayer) (remainder : ℤ) (day : Date)
    → pos 0 ≤ℤ remainder
    → remainder <ℤ interest_denominator_q32
    → InRange bank player
    → InRange bank (record player { remainder_q32 = remainder; last_accrual_day = day })
InRange-state bank player remainder day h k r = record {
  bank_eq = r.bank_eq;
  bank_lt = r.bank_lt;
  rebirth = r.rebirth;
  remainder = h;
  remainder_lt = k;
}

pub Balanced-set_state :
    (lots : List LotRow) (id : Uuid) (remainder : ℤ) (day : Date) (rows : List InterestPlayer)
    → pos 0 ≤ℤ remainder
    → remainder <ℤ interest_denominator_q32
    → All (Balanced lots) rows
    → All (Balanced lots) (set_state id remainder day rows)
unfolding set_state
Balanced-set_state lots id remainder day [] h k a = tt
Balanced-set_state lots id remainder day (row ∷ rows) h k a =
    let rest = Balanced-set_state lots id remainder day rows h k a.1 in
    elim (Bool-cases (row.player_id == id)) [
      | inl e ↦ rw e (InRange-state (lot_total row.player_id lots) row remainder day h k a.0, rest)
      | inr e ↦ rw e (a.0, rest)
    ]

-- The lots of one player changed, and its rows have the new balance.
pub Balanced-set_bank :
    (old new : List LotRow) (id : Uuid) (rows : List InterestPlayer)
    → lot_total id new < i64_limit
    → ((other : Uuid) → id ≢ other → lot_total other new ≡ lot_total other old)
    → All (Balanced old) rows
    → All (Balanced new) (set_bank id (pos (lot_total id new)) rows)
unfolding set_bank
Balanced-set_bank old new id [] b others a = tt
Balanced-set_bank old new id (row ∷ rows) b others a =
    let rest = Balanced-set_bank old new id rows b others a.1 in
    elim (Bool-cases (row.player_id == id)) [
      | inl e ↦
          let same : row.player_id ≡ id = (==_iff row.player_id id).0 e in
          rw e (
            record {
              bank_eq = ap (λ (u : Uuid). pos (lot_total u new)) (sym same);
              bank_lt = rw same b;
              rebirth = a.0.rebirth;
              remainder = a.0.remainder;
              remainder_lt = a.0.remainder_lt;
            },
            rest,
          )
      | inr e ↦
          let apart : id ≢ row.player_id = ground arith in
          rw e (subst (λ (n : ℕ). InRange n row) (sym (others row.player_id apart)) a.0, rest)
    ]

pub Balanced-same :
    (old new : List LotRow) (rows : List InterestPlayer)
    → ((other : Uuid) → lot_total other new ≡ lot_total other old)
    → All (Balanced old) rows
    → All (Balanced new) rows
Balanced-same old new [] same a = tt
Balanced-same old new (row ∷ rows) same a = (
  subst (λ (n : ℕ). InRange n row) (sym (same row.player_id)) a.0,
  Balanced-same old new rows same a.1,
)
