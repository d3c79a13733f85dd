-- ===== src/Economy.antt =====
-- The crate crates/graphite-economy: Bank, withdrawal fees, interest and Wallet spending.
pub mod Errors
pub mod Tables
pub mod Fees
pub mod Bank
pub mod Interest
pub mod Wallet
mod Tests
