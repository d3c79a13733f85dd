-- ===== src/Items.antt =====
-- crates/graphite-items: the stacks of the Item Bag, delivered and consumed inside an owning
-- operation, and the slots of the bag.
pub mod Errors
pub mod Tables
pub mod Slots
pub mod Bag
pub mod Delivery
pub mod Consumption
pub mod Steps
mod Tests
