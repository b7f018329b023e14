-- ===== src/Resolver.antt =====
-- src/resolver.c: the fixups of the program, its symbols, and the registry of the slots that were bound.
pub mod Rebase
pub mod Bind
pub mod Slots
pub mod Chain
