-- ===== src/Store.antt =====
-- backend/src/db/store.ts: the in-memory tables and their operations.
pub mod Records
pub mod Paging
pub mod Collateral
pub mod Loans
pub mod Transactions
pub mod Summary
pub mod Pages
pub mod Matching
pub mod SoftDelete
pub mod Calls
pub mod Keyed
pub mod Refinement
