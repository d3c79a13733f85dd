-- ===== src/Core.antt =====
-- crates/graphite-core, as far as money goes.
pub mod Money
mod Tests
