-- ===== src/Tests.antt =====
-- Runs of the definitions at concrete inputs, and the theorems applied to concrete inputs.
mod Islands
mod Mappings
mod Configs
mod Gateway
mod Patches
mod Caches
mod Boots
mod Unwind
mod Headers
mod Stacks
mod Trampolines
mod Fixups
mod Chains
