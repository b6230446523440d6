-- ===== src/Nvm.antt =====
-- NvmInstEngine (runtime/src/engines/nvm_inst_engine.cpp), the engine that instrumented programs use: a
-- main and a back segment for the same data, and a state that says which of them a restart takes.
pub mod Defs
pub mod BackSegment
pub mod Allocation
pub mod Finding
pub mod WriteBack
pub mod Hook
pub mod Protection
pub mod Copying
pub mod Covering
pub mod CrashSafety
pub mod Binding
pub mod Invariant
pub mod Lazy
pub mod Filling
pub mod Hooked
pub mod HookCrash
pub mod Program
pub mod Telling
pub mod Buffers
pub mod Running
pub mod Stores
pub mod Session
pub mod Checkpoint
pub mod Layout
pub mod Whole
pub mod Cleaning
pub mod Cleaner
pub mod Open
pub mod Exposed
