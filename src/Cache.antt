-- ===== src/Cache.antt =====
-- Package cache: the options and statistics of every store, and the stores.
pub mod Options
pub mod MemoryStore
pub mod Generic
pub mod DatabaseStore
pub mod GormCache
