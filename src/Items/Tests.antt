-- ===== src/Items/Tests.antt =====
-- The Item Bag on small tables.
mod Data
mod Deliveries
mod Consumptions
mod Sequences
