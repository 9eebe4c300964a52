-- ===== src/Loans.antt =====
-- The loan routes: backend/src/index.ts, backend/src/routes/v1.ts, backend/src/services/loanService.ts.
pub mod Create
pub mod Repay
pub mod Interest
pub mod State
pub mod Liquidate
