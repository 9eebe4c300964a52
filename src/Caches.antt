-- ===== src/Caches.antt =====
-- The server's caches, each a Map from a key to an entry with the time it was written. Bodies are of
-- any type.
pub mod Idempotency
pub mod Dedup
pub mod Responses
pub mod Appraisals
