-- ===== src/Lmc.antt =====
-- LmcEngine (runtime/src/engines/lmc_engine.cpp and its header): a shadow copy of each block that is written, under a
-- tag that is the epoch.
pub mod Defs
pub mod Hook
pub mod Checkpoint
pub mod Recover
pub mod Safety
pub mod Committing
pub mod Recovering
