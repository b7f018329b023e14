-- ===== src/Boot.antt =====
-- The start of the main program in src/machgate.c.
pub mod Rewrite
