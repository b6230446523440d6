-- ===== src/Undo.antt =====
-- UndoLogEngine (runtime/src/engines/undolog_engine.cpp, and its header): the state, the hook, the
-- checkpoint and the recovery.
pub mod Defs
pub mod Hook
pub mod Recover
pub mod Log
pub mod Restore
pub mod Safety
pub mod Keeps
pub mod HookResult
pub mod HookRange
pub mod Checkpoint
pub mod Flush
pub mod Clear
pub mod CheckpointResult
pub mod CheckpointCrash
pub mod Program
pub mod Open
pub mod RecoverCrash
pub mod Registry
