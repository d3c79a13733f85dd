-- ===== src/Services.antt =====
-- Rules of crates/graphite-services.
pub mod Smelting
pub mod Equipment
pub mod Repair
pub mod Upgrade
mod Tests
