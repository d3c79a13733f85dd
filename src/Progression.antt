-- ===== src/Progression.antt =====
-- crates/graphite-progression: the Account curve and its level rewards, Activity EXP, Rebirth, and
-- the settlements that move them.
pub mod Errors
pub mod Account
pub mod Activity
pub mod Rebirth
pub mod Tables
pub mod Rows
pub mod Operations
pub mod Replay
pub mod Service
pub mod Owning
pub mod Settlement
pub mod ActivityXp
mod Tests
