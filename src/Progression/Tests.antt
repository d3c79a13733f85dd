-- ===== src/Progression/Tests.antt =====
-- The progression at concrete inputs, and witnesses of its theorems.
mod Data
mod Curves
mod Grants
mod Rebirths
mod Settlements
