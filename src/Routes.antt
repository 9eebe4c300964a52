-- ===== src/Routes.antt =====
-- Routes of backend/src/index.ts that read and write the store without calling the contract.
pub mod Collateral
pub mod Appraise
pub mod Loans
pub mod Transactions
pub mod Privacy
pub mod V1
pub mod Webhooks
pub mod Admin
