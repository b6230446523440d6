-- ===== src/Image.antt =====
-- CheckpointImage (runtime/src/checkpoint.cpp, runtime/include/internal/checkpoint.h): the states of
-- the segments in two copies, of which the epoch names the current one.
pub mod Defs
pub mod Crash
pub mod Update
pub mod Commit
pub mod Committed
pub mod Atomic
pub mod Calls
pub mod Binding
pub mod Layout
pub mod Open
pub mod Stale
pub mod Recovery
pub mod RecoveryRound
pub mod Recovered
