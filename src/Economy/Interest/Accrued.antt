-- ===== src/Economy/Interest/Accrued.antt =====
-- The accrual of one locked player, on every way in which it can succeed.
use graphite_bot.Common.{
  ltb, ◌-◌, min, ℕ, ◌+◌, ◌≡◌, ◌≢◌, refl, sym, ap, ◌∙◌, subst, List, ok, arith, All, if◌then◌else◌,
  Bool-cases, Option-cases, Result-cases, inl, inr,
}
use native.Mathlib.Decide.{ℕ_discrete}
use graphite_bot.Common.Int.{ℤ, pos, ltb_ℤ}
use graphite_bot.Common.Values.{Uuid, Digest, is_hard_frozen}
use graphite_bot.Economy.Tables.{LotRow}
use graphite_bot.Economy.Bank.LotLaws.{Distinct, Funded, lot_total}
use graphite_bot.Economy.Interest.Tables.{
  InterestPlayer, InterestDb, InterestDraws, BankInterestSummary, Calendar, Date,
}
use graphite_bot.Economy.Interest.Days.{OnDay, accrue_days-OnDay}
use graphite_bot.Economy.Interest.Loaded.{load_interest_lots-Mirrored}
use graphite_bot.Economy.Interest.Accrual.{
  Progress, load_interest_lots, reconcile_lots, set_bank, set_state, update_interest_state,
  accrue_days, skip_days, credit_days, accrue_locked_player,
}
use graphite_bot.Economy.Interest.Sound.{
  Balanced, IsSound, Balanced-set_state, Balanced-set_bank, Balanced-same,
}

-- What an accrual of one player leaves: interest for that player, and for nobody else.
pub record Accrued (id : Uuid) (db : InterestDb) (summary : BankInterestSummary) (db' : InterestDb)
    : Type 0 where
  pub sound : IsSound db'
  pub credited : ℕ
  pub credited_eq : summary.interest_credited ≡ pos credited
  pub own : lot_total id db'.lots ≡ lot_total id db.lots + credited
  pub others : (other : Uuid) → id ≢ other → lot_total other db'.lots ≡ lot_total other db.lots

unchanged_lots :
    (id : Uuid) (db : InterestDb) (summary : BankInterestSummary) (db' : InterestDb)
    → db'.lots ≡ db.lots
    → summary.interest_credited ≡ pos 0
    → IsSound db'
    → Accrued id db summary db'
unchanged_lots id db summary db' e z s = record {
  sound = s;
  credited = 0;
  credited_eq = z;
  own = rw e (omega arith);
  others = λ other ne. ap (λ (l : List LotRow). lot_total other l) e;
}

module _ (interest_request_hash : Uuid → Date → ℤ → ℤ → ℤ → Digest) (draws : Date → InterestDraws)
    (calendar : Calendar) where
  abbrev first_day : InterestPlayer → InterestDb → Progress
  first_day player db = record {
    player = player;
    lots = load_interest_lots player.player_id db.lots;
    total_interest = pos 0;
    db = db;
  }

  first_day-OnDay :
      (player : InterestPlayer) (db : InterestDb)
      → IsSound db
      → Balanced db.lots player
      → OnDay db player.player_id (first_day player db)
  first_day-OnDay player db s r = record {
    id_eq = refl;
    in_range = r;
    mirrored = load_interest_lots-Mirrored player.player_id db.lots s.distinct s.funded;
    players = refl;
    credited = 0;
    credited_eq = refl;
    own = omega arith;
    others = λ other ne. refl;
  }

  -- The tables after the last day.
  record Paid (id : Uuid) (p : Progress) (summary : BankInterestSummary) (db' : InterestDb)
      : Type 0 where
    lots : db'.lots ≡ p.db.lots
    credited : summary.interest_credited ≡ p.total_interest
    players :
        db'.players
        ≡ set_state id p.player.remainder_q32 p.player.last_accrual_day (
            if ltb_ℤ (pos 0) p.total_interest
            then set_bank id p.player.bank p.db.players
            else p.db.players)

  credit_days-Paid :
      (player : InterestPlayer) (days : ℕ) (db : InterestDb) (p : Progress)
      {summary : BankInterestSummary} {db' : InterestDb}
      → reconcile_lots player.bank (load_interest_lots player.player_id db.lots) ≡ ok tt
      → accrue_days interest_request_hash draws calendar days (first_day player db) ≡ ok p
      → credit_days interest_request_hash draws calendar player days db ≡ ok (summary, db')
      → Paid player.player_id p summary db'
  unfolding credit_days update_interest_state
  credit_days-Paid player days db p {summary} {db'} reconciled e h = record {
    lots = ground arith;
    credited = ground arith;
    players = ground arith;
  }

  paid_rows :
      (id : Uuid) (db : InterestDb) (p : Progress)
      → IsSound db
      → OnDay db id p
      → All (Balanced p.db.lots) (
          if ltb_ℤ (pos 0) p.total_interest
          then set_bank id p.player.bank p.db.players
          else p.db.players)
  paid_rows id db p s o = elim (Bool-cases (ltb_ℤ (pos 0) p.total_interest)) [
    | inl e ↦
        rw (e, o.in_range.bank_eq, o.players)
          (Balanced-set_bank db.lots p.db.lots id db.players o.in_range.bank_lt o.others s.balanced)
    | inr e ↦
        let nothing : o.credited ≡ 0 = ground (arith, o.credited_eq) in
        let same = λ (other : Uuid).
          let agree : lot_total other p.db.lots ≡ lot_total other db.lots =
            elim (ℕ_discrete id other) [
              | yes mine ↦
                  subst (λ (u : Uuid). lot_total u p.db.lots ≡ lot_total u db.lots) mine
                    (omega (arith, o.own))
              | no apart ↦ o.others other apart
            ] in
          agree in
        rw (e, o.players) (Balanced-same db.lots p.db.lots db.players same s.balanced)
  ]

  Paid-Accrued :
      (id : Uuid) (db : InterestDb) (p : Progress) {summary : BankInterestSummary}
      {db' : InterestDb}
      → IsSound db
      → OnDay db id p
      → Paid id p summary db'
      → Accrued id db summary db'
  Paid-Accrued id db p {summary} {db'} s o paid = record {
    sound = record {
      distinct = subst Distinct (sym paid.lots) o.mirrored.distinct;
      funded = subst (All Funded) (sym paid.lots) o.mirrored.funded;
      balanced =
          subst (λ (l : List LotRow). All (Balanced l) db'.players) (sym paid.lots)
            (subst (All (Balanced p.db.lots)) (sym paid.players) (
              Balanced-set_state p.db.lots id p.player.remainder_q32 p.player.last_accrual_day _
                o.in_range.remainder o.in_range.remainder_lt (paid_rows id db p s o)));
    };
    credited = o.credited;
    credited_eq = paid.credited ∙ o.credited_eq;
    own = ap (lot_total id) paid.lots ∙ o.own;
    others = λ other ne. ap (lot_total other) paid.lots ∙ o.others other ne;
  }

  credit_days-Accrued :
      (player : InterestPlayer) (days : ℕ) (db : InterestDb) {summary : BankInterestSummary}
      {db' : InterestDb}
      → IsSound db
      → Balanced db.lots player
      → credit_days interest_request_hash draws calendar player days db ≡ ok (summary, db')
      → Accrued player.player_id db summary db'
  credit_days-Accrued player days db {summary} {db'} s b h =
      let loaded = load_interest_lots player.player_id db.lots in
      elim (Result-cases (reconcile_lots player.bank loaded)) [
        | inr (er, refused) ↦ absurd (unfold credit_days in ground arith)
        | inl (done, reconciled) ↦
            elim (Result-cases
              (accrue_days interest_request_hash draws calendar days (first_day player db))) [
                | inr (er, refused) ↦ absurd (unfold credit_days in ground arith)
                | inl (p, ran) ↦
                    let o =
                      accrue_days-OnDay interest_request_hash draws calendar days db
                        player.player_id (first_day player db) (first_day-OnDay player db s b)
                        ran in
                    Paid-Accrued player.player_id db p s o
                      (credit_days-Paid player days db p reconciled ran h)
              ]
      ]

  skip_days-Accrued :
      (player : InterestPlayer) (days : ℕ) (db : InterestDb) {summary : BankInterestSummary}
      {db' : InterestDb}
      → IsSound db
      → Balanced db.lots player
      → skip_days interest_request_hash draws calendar player days db ≡ ok (summary, db')
      → Accrued player.player_id db summary db'
  skip_days-Accrued player days db {summary} {db'} s b h =
      elim (Option-cases (calendar.checked_add_days player.last_accrual_day days)) [
        | inl last ↦ absurd (unfold skip_days in ground arith)
        | inr (day, added) ↦
            let rows : db'.players
                ≡ set_state player.player_id player.remainder_q32 day db.players =
              unfold skip_days in unfold update_interest_state in ground arith in
            let lots : db'.lots ≡ db.lots =
              unfold skip_days in unfold update_interest_state in ground arith in
            let none_credited : summary.interest_credited ≡ pos 0 =
              unfold skip_days in unfold update_interest_state in ground arith in
            unchanged_lots player.player_id db summary db' lots none_credited record {
              distinct = subst Distinct (sym lots) s.distinct;
              funded = subst (All Funded) (sym lots) s.funded;
              balanced =
                  subst (λ (l : List LotRow). All (Balanced l) db'.players) (sym lots)
                    (subst (All (Balanced db.lots)) (sym rows) (
                      Balanced-set_state db.lots player.player_id player.remainder_q32 day
                        db.players b.remainder b.remainder_lt s.balanced));
            }
      ]

  -- Every way in which the accrual of a locked player can succeed.
  pub accrue_locked_player-Accrued :
      (player : InterestPlayer) (today : Date) (db : InterestDb) {summary : BankInterestSummary}
      {db' : InterestDb}
      → IsSound db
      → Balanced db.lots player
      → accrue_locked_player interest_request_hash draws calendar player today db
        ≡ ok (summary, db')
      → Accrued player.player_id db summary db'
  unfolding accrue_locked_player
  accrue_locked_player-Accrued player today db {summary} {db'} s b h =
      let days = min (today - player.last_accrual_day) 366 in
      elim (Bool-cases (ltb player.last_accrual_day today)) [
        | inl due ↦ elim (Bool-cases (is_hard_frozen player.status)) [
          | inl frozen ↦
              let ran : skip_days interest_request_hash draws calendar player days db
                  ≡ ok (summary, db') =
                ground arith in
              skip_days-Accrued player days db s b ran
          | inr awake ↦
              let ran : credit_days interest_request_hash draws calendar player days db
                  ≡ ok (summary, db') =
                ground arith in
              credit_days-Accrued player days db s b ran
        ]
        | inr early ↦
            let same : db ≡ db' = ground arith in
            let none_credited : summary.interest_credited ≡ pos 0 = ground arith in
            unchanged_lots player.player_id db summary db'
              (ap (λ (d : InterestDb). d.lots) (sym same)) none_credited (subst IsSound same s)
      ]
