-- ===== src/Hybrid.antt =====
-- HybridInstEngine (runtime/src/engines/hybrid_inst_engine.cpp and its header): the program works in DRAM, and the
-- epochs write the dirty blocks to the main and to the back segments in turn.
pub mod Defs
pub mod BackSegment
pub mod Apply
pub mod Hook
pub mod Checkpoint
pub mod Marks
pub mod Overwriting
pub mod Layout
pub mod Turning
