-- ===== src/Auth.antt =====
-- backend/src/middleware/auth.ts: challenges, login, refresh tokens and the JWT gate. Node's crypto
-- and the Stellar signature check are the record `Crypto`.
pub mod ApiKey
pub mod Tokens
pub mod Gate
pub mod Sessions
pub mod Keys
pub mod Access
