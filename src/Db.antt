-- ===== src/Db.antt =====
-- The database helpers (db/), one child for each part.
pub mod Errors
pub mod Like
pub mod Querier
pub mod Tx
