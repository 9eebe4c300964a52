-- ===== src/Examples.antt =====
-- The theorems at concrete inputs.
pub mod Data
pub mod Tables
pub mod Lending
pub mod Services
pub mod Access
pub mod Web
pub mod Jobs
pub mod Contracts
pub mod Browser
pub mod Edges
