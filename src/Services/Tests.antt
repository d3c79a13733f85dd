-- ===== src/Services/Tests.antt =====
-- Concrete runs of crates/graphite-services, and its theorems at inputs that meet their hypotheses.
mod Smelting
mod Repair
mod Upgrade
