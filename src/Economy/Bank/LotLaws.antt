-- ===== src/Economy/Bank/LotLaws.antt =====
-- Debiting lots: who owns them, and what their principals add up to.
use graphite_bot.Common.{
  ℕ, ◌+◌, ◌≡◌, ◌≢◌, refl, true, ◌∙◌, subst, Option, none, some, List, [], ◌∷◌, Result, ok, arith,
  All, if◌then◌else◌, ◌==◌, Option-cases, inl, inr,
}
use graphite_bot.Common.Int.{ℤ, pos, pos_part, ◌≤ℤ◌, ◌-ℤ◌, leb_ℤ}
use graphite_bot.Common.Values.{Uuid}
use graphite_bot.Economy.Tables.{LotRow}
use graphite_bot.Economy.Bank.Lots.{LotDebit, debit_lot, apply_lot_debits}

-- The player whose lot has this id.
unfoldable pub owner : Uuid → List LotRow → Option Uuid
owner id [] = none
owner id (lot ∷ lots) = if lot.id == id then some lot.player_id else owner id lots

-- A lot id is a primary key.
abbrev pub Distinct : List LotRow → Type 0
Distinct [] = Unit
Distinct (lot ∷ lots) = (owner lot.id lots ≡ none) × Distinct lots

abbrev pub Funded : LotRow → Type 0
Funded lot = pos 0 ≤ℤ lot.principal_remaining

-- The principal of one player's lots.
unfoldable pub lot_total : Uuid → List LotRow → ℕ
lot_total player [] = 0
lot_total player (lot ∷ lots) =
    (if lot.player_id == player then pos_part lot.principal_remaining else 0)
    + lot_total player lots

pub owner-debit_lot :
    (id : Uuid) (debit : LotDebit) (lots : List LotRow) {out : List LotRow}
    → debit_lot debit lots ≡ some out
    → owner id out ≡ owner id lots
unfolding debit_lot owner
owner-debit_lot id debit [] h = cc
owner-debit_lot id debit (lot ∷ lots) h = elim (Option-cases (debit_lot debit lots)) [
  | inl e ↦ ground arith
  | inr (rest, e) ↦ ground (arith, owner-debit_lot id debit lots e)
]

debit_lot-none :
    (debit : LotDebit) (lots : List LotRow)
    → owner debit.id lots ≡ none
    → debit_lot debit lots ≡ none
unfolding debit_lot owner
debit_lot-none debit [] h = refl
debit_lot-none debit (lot ∷ lots) h = ground (arith, debit_lot-none debit lots)

pub debit_lot-Distinct :
    (debit : LotDebit) (lots : List LotRow) {out : List LotRow}
    → Distinct lots
    → debit_lot debit lots ≡ some out
    → Distinct out
unfolding debit_lot
debit_lot-Distinct debit [] d h = cc
debit_lot-Distinct debit (lot ∷ lots) d h = elim (Option-cases (debit_lot debit lots)) [
  | inl e ↦ ground arith
  | inr (rest, e) ↦
      ground (arith, owner-debit_lot lot.id debit lots e, debit_lot-Distinct debit lots d.1 e)
]

sub_funded :
    (a b : ℤ)
    → pos 0 ≤ℤ b
    → leb_ℤ b a ≡ true
    → (pos 0 ≤ℤ a -ℤ b) × (pos_part (a -ℤ b) + pos_part b ≡ pos_part a)
unfolding ◌-ℤ◌
sub_funded a b h e = ground arith

pub debit_lot-Funded :
    (debit : LotDebit) (lots : List LotRow) {out : List LotRow}
    → All Funded lots
    → pos 0 ≤ℤ debit.amount
    → debit_lot debit lots ≡ some out
    → All Funded out
unfolding debit_lot
debit_lot-Funded debit [] f p h = cc
debit_lot-Funded debit (lot ∷ lots) f p h = elim (Option-cases (debit_lot debit lots)) [
  | inl e ↦ ground (arith, sub_funded lot.principal_remaining debit.amount p)
  | inr (rest, e) ↦ ground (
    arith,
    sub_funded lot.principal_remaining debit.amount p,
    debit_lot-Funded debit lots f.1 p e,
  )
]

-- A debit takes its amount from the owner of its lot, and from nobody else.
pub lot_total-debit_lot :
    (player owned : Uuid) (debit : LotDebit) (lots : List LotRow) {out : List LotRow}
    → Distinct lots
    → All Funded lots
    → pos 0 ≤ℤ debit.amount
    → owner debit.id lots ≡ some owned
    → debit_lot debit lots ≡ some out
    → lot_total player out + (if owned == player then pos_part debit.amount else 0)
      ≡ lot_total player lots
unfolding debit_lot owner lot_total
lot_total-debit_lot player owned debit [] d f p o h = cc
lot_total-debit_lot player owned debit (lot ∷ lots) d f p o h =
    elim (Option-cases (debit_lot debit lots)) [
      | inl e ↦ ground (arith, sub_funded lot.principal_remaining debit.amount p)
      | inr (rest, e) ↦ ground (
        arith,
        sub_funded lot.principal_remaining debit.amount p,
        debit_lot-none debit lots,
        λ (o' : owner debit.id lots ≡ some owned).
            lot_total-debit_lot player owned debit lots d.1 f.1 p o' e,
      )
    ]

abbrev pub debit_units : List LotDebit → ℕ
debit_units [] = 0
debit_units (debit ∷ debits) = pos_part debit.amount + debit_units debits

-- Each debit is positive and names a lot of the player.
abbrev pub Owned : Uuid → List LotRow → LotDebit → Type 0
Owned player lots debit = (pos 1 ≤ℤ debit.amount) × (owner debit.id lots ≡ some player)

All-Owned-debit_lot :
    (player : Uuid) (first : LotDebit) (lots : List LotRow) {out : List LotRow}
    (debits : List LotDebit)
    → debit_lot first lots ≡ some out
    → All (Owned player lots) debits
    → All (Owned player out) debits
All-Owned-debit_lot player first lots [] h a = tt
All-Owned-debit_lot player first lots (debit ∷ debits) h a = (
  (a.0.0, owner-debit_lot debit.id first lots h ∙ a.0.1),
  All-Owned-debit_lot player first lots debits h a.1,
)

-- What a list of debits leaves behind.
pub record Debited (player : Uuid) (debits : List LotDebit) (lots out : List LotRow) : Type 0 where
  pub distinct : Distinct out
  pub funded : All Funded out
  pub own : lot_total player out + debit_units debits ≡ lot_total player lots
  pub others : (other : Uuid) → player ≢ other → lot_total other out ≡ lot_total other lots

first_round :
    (player : Uuid) (debit : LotDebit) (lots : List LotRow) {next : List LotRow}
    → Distinct lots
    → All Funded lots
    → Owned player lots debit
    → debit_lot debit lots ≡ some next
    → Debited player (debit ∷ []) lots next
first_round player debit lots d f o h = record {
  distinct = debit_lot-Distinct debit lots d h;
  funded = debit_lot-Funded debit lots f (omega arith) h;
  own = ground (arith, lot_total-debit_lot player player debit lots d f (omega arith) o.1 h);
  others = λ other ne.
      ground (arith, lot_total-debit_lot other player debit lots d f (omega arith) o.1 h);
}

no_debits :
    (player : Uuid) (lots : List LotRow)
    → Distinct lots
    → All Funded lots
    → Debited player [] lots lots
no_debits player lots d f = record {
  distinct = d;
  funded = f;
  own = omega arith;
  others = λ other ne. refl;
}

more_debits :
    (player : Uuid) (debit : LotDebit) (debits : List LotDebit) (lots next out : List LotRow)
    → Debited player (debit ∷ []) lots next
    → Debited player debits next out
    → Debited player (debit ∷ debits) lots out
more_debits player debit debits lots next out first rest = record {
  distinct = rest.distinct;
  funded = rest.funded;
  own = omega (arith, first.own, rest.own);
  others = λ other ne. rest.others other ne ∙ first.others other ne;
}

pub ok_injective : {E A : Type 0} {a b : A} → ◌≡◌ {A = Result E A} (ok a) (ok b) → a ≡ b
ok_injective h = cc

-- Debits of a player's lots that go through take their sum from that player's lots, leave every
-- other player's principal alone, and keep ids distinct and principals not negative.
pub apply_lot_debits-Debited :
    (player : Uuid) (debits : List LotDebit) (lots : List LotRow) {out : List LotRow}
    → Distinct lots
    → All Funded lots
    → All (Owned player lots) debits
    → apply_lot_debits debits lots ≡ ok out
    → Debited player debits lots out
unfolding apply_lot_debits
apply_lot_debits-Debited player [] lots {out} d f o h =
    subst (Debited player [] lots) (ok_injective h) (no_debits player lots d f)
apply_lot_debits-Debited player (debit ∷ debits) lots {out} d f o h =
    elim (Option-cases (debit_lot debit lots)) [
      | inl e ↦ absurd (ground arith)
      | inr (next, e) ↦
          let first = first_round player debit lots d f o.0 e in
          let h' : apply_lot_debits debits next ≡ ok out = ground arith in
          more_debits player debit debits lots next out first (
            apply_lot_debits-Debited player debits next first.distinct first.funded
              (All-Owned-debit_lot player debit lots debits e o.1) h')
    ]
