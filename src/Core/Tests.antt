-- ===== src/Core/Tests.antt =====
-- The theorems about crates/graphite-core at concrete amounts.
mod Money
