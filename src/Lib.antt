-- ===== src/Lib.antt =====
-- Graphite Bot: the money of a Discord game, as crates/graphite-economy keeps it in PostgreSQL,
-- with the EXP and the stacks of items that go with it.
--
-- The repository is a Rust workspace: crates/graphite-core (ids, Money, RNG roots), graphite-store
-- (the connection pool), graphite-content and graphite-items (catalogue and inventory),
-- graphite-progression (EXP), graphite-services (fishing, mining, enchanting, smelting, repair),
-- graphite-economy (Bank, fees, interest, Wallet spending) and apps/graphite-bot (Discord commands).
-- This library models graphite-economy and graphite-progression whole, the Money of graphite-core,
-- the stacks of the Item Bag of graphite-items, and the smelting, repair and upgrade rules
-- of graphite-services.
--
-- How a call is modelled. The tables that a function reads or writes are a record of lists of rows;
-- a function returns a result and the new tables. A transaction that fails leaves the tables as
-- they were, and a row lock is the atomicity of a call. Rust's i64 and i128 are integers of which
-- each checked operation returns `none` out of its width (Common/Int); the errors are each file's
-- own enumeration without the database's failures (Common/Outcome has `?` as `>>=`). UUIDs, texts
-- and digests are numbers that are only compared; the BLAKE3 request hashes, chrono's seconds and
-- days, drawn ids and `now()` are parameters.
--
-- Files and what they model:
-- - Common: integers, lists, results, the columns that the tables share.
-- - Core/Money: crates/graphite-core/src/money.rs and, over it,
--   crates/graphite-services/src/percentage_fee.rs.
-- - Economy/Tables, Economy/Errors: rows of migrations/*.sql that bank.rs names, and `BankError`.
-- - Economy/Fees: crates/graphite-economy/src/fees.rs, all of it (`withdrawal_fee`, `age_fee_ppm`,
--   `balance_surcharge_ppm`, `rolling_marginal_numerator`, `ceil_ppm`).
-- - Economy/Bank: crates/graphite-economy/src/bank.rs, `deposit` and `withdraw`. Operations has
--   `resolve_operation` and `commit_operation`; Lots the FIFO debits; Updates the row updates, the
--   ledger and the outbox. The read-only snapshot is left out. A withdrawal takes its fee from
--   Economy/Fees.
-- - Economy/Interest: crates/graphite-economy/src/interest.rs. Rate has `calculate_daily_interest`,
--   Allocation `allocate_interest_to_lots`, Accrual `accrue_locked_player`; the service's calls
--   stand in Economy/Interest. It credits the lots that the Bank debits.
-- - Economy/Wallet: crates/graphite-economy/src/wallet.rs, which other services call inside their
--   own transaction.
-- - Progression/Account, Progression/Activity, Progression/Rebirth: the curves and the rebirth
--   effects of crates/graphite-progression/src/progression.rs, and `project_account_xp_grant`.
-- - Progression/Service, Progression/Operations: `ProgressionService` of the same file. A Rebirth
--   (Service/Rebirths) calls the accrual of Economy/Interest, in a transaction of its own, between
--   its check and its update; `players.rebirth_count` stands in the rows of both.
-- - Progression/Settlement: crates/graphite-progression/src/progression/account_settlement.rs, and
--   Progression/ActivityXp: crates/graphite-progression/src/activity.rs. Both work inside an operation
--   of another service; Progression/Tables and Progression/Rows have the rows that all share.
-- - Items/Delivery: crates/graphite-items/src/transactional_stack.rs, `apply_stack_delivery_mutation`,
--   and Items/Consumption: transactional_stack_consumption.rs, `apply_stack_consumption_mutation`.
--   Both work inside an operation of another service. Items/Bag has their statements on the stacks,
--   Items/Slots the capacity and the slots in use of crates/graphite-items/src/lib.rs, and
--   Items/Steps puts the two one after another as a step relation.
-- - Services/Smelting: crates/graphite-services/src/smelting.rs, all of it.
-- - Services/Equipment, Services/Repair: the tables of crates/graphite-services/src/equipment_policy.rs
--   that Repair reads, and crates/graphite-services/src/repair.rs.
-- - Services/Upgrade: crates/graphite-services/src/upgrade_outcome.rs, all of it.
-- - Core/Tests, Economy/Tests, Items/Tests, Progression/Tests,
--   Services/Tests: concrete runs, and each theorem at an input.
--
-- Fuel. `q32_pow` halves its exponent in each round, so its loop (Common/FixedPoint) is given the
-- exponent and one round more. The two loops of `activity_progress` have 65 rounds each: a bound
-- doubles at most 64 times inside `u64`, and halving the distance between two such bounds takes as
-- many. The loop of `gcd` (Services/Upgrade) is given its second number and one round more, since
-- that number falls in each round. No other loop has fuel: the loops over rows are recursions on
-- lists, and the loop over the days, at most 366, recurs on their number.
--
-- Bounds. Balances lie in the signed 64-bit range, and the sum of a withdrawal and the prior day's
-- withdrawals below 2^110, so that the fee's products stay inside 128 bits.
--
-- Not modelled: database failures and retries, JSON encoding, the Discord front end, content
-- catalogues, and the other services of crates/graphite-services; the manifest lists each part.
pub mod Common
pub mod Core
pub mod Economy
pub mod Items
pub mod Progression
pub mod Services
