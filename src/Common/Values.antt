-- ===== src/Common/Values.antt =====
-- Columns and identifiers that several crates share: the CHECK lists of migrations/0001_foundation.sql
-- as enumerations, and identifiers, texts and digests as numbers that are only compared.
use Prim.Native.Nat.{ℕ}
use mathlib.Core.Bool.{Bool, true, false}

-- A UUID, a text column that is only compared, and a 32-byte digest.
abbrev pub Uuid : Type 0
Uuid = ℕ

abbrev pub Text : Type 0
Text = ℕ

abbrev pub Digest : Type 0
Digest = ℕ

-- A `timestamptz`: an instant by its place in time.
abbrev pub Timestamp : Type 0
Timestamp = ℕ

-- `players.status`.
pub data PlayerStatus : Type 0 where
  active soft_frozen hard_frozen deleted : PlayerStatus

-- `operations.state`.
pub data OperationState : Type 0 where
  pending committed cancelled failed reversed : OperationState

-- `ledger_postings.account_kind`.
pub data AccountKind : Type 0 where
  wallet_account bank_account liability_account escrow_account system_account : AccountKind

abbrev pub is_active : PlayerStatus → Bool
is_active active = true
is_active _ = false

abbrev pub is_deleted : PlayerStatus → Bool
is_deleted deleted = true
is_deleted _ = false

abbrev pub is_hard_frozen : PlayerStatus → Bool
is_hard_frozen hard_frozen = true
is_hard_frozen _ = false

abbrev pub is_pending : OperationState → Bool
is_pending pending = true
is_pending _ = false

abbrev pub is_committed : OperationState → Bool
is_committed committed = true
is_committed _ = false
