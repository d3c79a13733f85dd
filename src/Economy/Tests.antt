-- ===== src/Economy/Tests.antt =====
-- Concrete runs of crates/graphite-economy, and its theorems at inputs that meet their hypotheses.
mod Bank
mod Fees
mod Interest
mod Wallet
