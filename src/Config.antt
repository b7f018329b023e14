-- ===== src/Config.antt =====
-- src/config.c: the INI-style configuration file.
pub mod Text
pub mod Load
pub mod Bounds
pub mod Sections
