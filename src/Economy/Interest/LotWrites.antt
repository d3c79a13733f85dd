-- ===== src/Economy/Interest/LotWrites.antt =====
-- Setting one lot's principal: what becomes of the owners and of the players' totals.
use graphite_bot.Common.{
  ◌+◌, ◌≡◌, ◌≢◌, Option, none, some, List, [], ◌∷◌, arith, All, if◌then◌else◌, ◌==◌, Option-cases,
  inl, inr,
}
use graphite_bot.Common.Int.{ℤ, pos, pos_part, ◌≤ℤ◌}
use graphite_bot.Common.Values.{Uuid}
use graphite_bot.Economy.Tables.{LotRow}
use graphite_bot.Economy.Bank.LotLaws.{owner, Distinct, Funded, lot_total}
use graphite_bot.Economy.Interest.Allocation.{set_principal}

-- Owner and principal of the lot with this id.
unfoldable pub holding : Uuid → List LotRow → Option (Uuid × ℤ)
holding id [] = none
holding id (row ∷ rows) =
    if row.id == id then some (row.player_id, row.principal_remaining) else holding id rows

module _ (id : Uuid) (principal : ℤ) where
  owner-set_principal :
      (other : Uuid) (rows : List LotRow) {out : List LotRow}
      → set_principal id principal rows ≡ some out
      → owner other out ≡ owner other rows
  unfolding set_principal owner
  owner-set_principal other [] h = cc
  owner-set_principal other (row ∷ rows) h = elim (Option-cases (set_principal id principal rows)) [
    | inl e ↦ ground arith
    | inr (rest, e) ↦ ground (arith, owner-set_principal other rows e)
  ]

  pub set_principal-Distinct :
      (rows : List LotRow) {out : List LotRow}
      → Distinct rows
      → set_principal id principal rows ≡ some out
      → Distinct out
  unfolding set_principal
  set_principal-Distinct [] d h = cc
  set_principal-Distinct (row ∷ rows) d h = elim (Option-cases (set_principal id principal rows)) [
    | inl e ↦ ground arith
    | inr (rest, e) ↦
        ground (arith, owner-set_principal row.id rows e, set_principal-Distinct rows d.1 e)
  ]

  pub set_principal-Funded :
      (rows : List LotRow) {out : List LotRow}
      → All Funded rows
      → pos 0 ≤ℤ principal
      → set_principal id principal rows ≡ some out
      → All Funded out
  unfolding set_principal
  set_principal-Funded [] f p h = cc
  set_principal-Funded (row ∷ rows) f p h = elim (Option-cases (set_principal id principal rows)) [
    | inl e ↦ ground arith
    | inr (rest, e) ↦ ground (arith, set_principal-Funded rows f.1 p e)
  ]

  pub holding-set_principal :
      (other : Uuid) (rows : List LotRow) {out : List LotRow}
      → id ≢ other
      → set_principal id principal rows ≡ some out
      → holding other out ≡ holding other rows
  unfolding set_principal holding
  holding-set_principal other [] ne h = cc
  holding-set_principal other (row ∷ rows) ne h =
      elim (Option-cases (set_principal id principal rows)) [
        | inl e ↦ ground arith
        | inr (rest, e) ↦ ground (arith, holding-set_principal other rows ne e)
      ]

  pub holding-set_self :
      (player : Uuid) (old : ℤ) (rows : List LotRow) {out : List LotRow}
      → holding id rows ≡ some (player, old)
      → set_principal id principal rows ≡ some out
      → holding id out ≡ some (player, principal)
  unfolding set_principal holding
  holding-set_self player old [] o h = cc
  holding-set_self player old (row ∷ rows) o h =
      elim (Option-cases (set_principal id principal rows)) [
        | inl e ↦ ground arith
        | inr (rest, e) ↦ ground (
          arith,
          λ (o' : holding id rows ≡ some (player, old)). holding-set_self player old rows o' e,
        )
      ]

  -- The owner's total trades the old principal for the new one; nobody else's changes.
  pub lot_total-set_principal :
      (player other : Uuid) (old : ℤ) (rows : List LotRow) {out : List LotRow}
      → holding id rows ≡ some (player, old)
      → set_principal id principal rows ≡ some out
      → lot_total other out + (if player == other then pos_part old else 0)
        ≡ lot_total other rows + (if player == other then pos_part principal else 0)
  unfolding set_principal holding lot_total
  lot_total-set_principal player other old [] o h = cc
  lot_total-set_principal player other old (row ∷ rows) o h =
      elim (Option-cases (set_principal id principal rows)) [
        | inl e ↦ ground arith
        | inr (rest, e) ↦ ground (
          arith,
          λ (o' : holding id rows ≡ some (player, old)).
              lot_total-set_principal player other old rows o' e,
        )
      ]

  set_principal-ne_none :
      (owned : Uuid × ℤ) (rows : List LotRow)
      → holding id rows ≡ some owned
      → set_principal id principal rows ≢ none
  unfolding set_principal holding
  set_principal-ne_none owned [] o = cc
  set_principal-ne_none owned (row ∷ rows) o =
      elim (Option-cases (set_principal id principal rows)) [
        | inl e ↦ ground (arith, set_principal-ne_none owned rows)
        | inr (rest, e) ↦ ground arith
      ]

  -- A lot that is there can be set.
  pub set_principal_total :
      (owned : Uuid × ℤ) (rows : List LotRow)
      → holding id rows ≡ some owned
      → (out : List LotRow) × (set_principal id principal rows ≡ some out)
  set_principal_total owned rows o = elim (Option-cases (set_principal id principal rows)) [
    | inl e ↦ absurd (set_principal-ne_none owned rows o e)
    | inr found ↦ found
  ]
