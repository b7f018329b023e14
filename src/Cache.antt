-- ===== src/Cache.antt =====
-- src/startup_cache.c: the products of start-up translation, kept in a file for the next start.
pub mod Format
pub mod File
