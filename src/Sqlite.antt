-- ===== src/Sqlite.antt =====
-- Package sqlite: write transactions with retries, and the connection manager.
pub mod Transaction
pub mod Manager
