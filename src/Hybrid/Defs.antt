-- ===== src/Hybrid/Defs.antt =====
-- The state of HybridInstEngine (runtime/include/internal/engines/hybrid_inst_engine.h), for the build with
-- USE_SYNCHRONOUS_CHECKPOINT, which the source file defines.
use libcrpm.Base.{ℕ, ◌+◌, ◌%◌, Bool, true, false, if◌then◌else◌, update, Outcome, ok, spins}
use libcrpm.BitSet
use libcrpm.BitSet.{BitSet}
use libcrpm.Buckets.{BlockLists, FlushMode}
use libcrpm.Image.Defs.{Image}
use libcrpm.Image.Defs

-- WB_STARTING, WB_RUNNING, WB_EXITING, WB_IDLE.
pub data WriteBackState : Type 0 where
  wb_starting wb_running wb_exiting wb_idle : WriteBackState

-- `B` is the content of a block; `working_memory` is in DRAM. The bit sets are those of epoch 0 and 1.
pub record HybridInstEngine (B : Type 0) : Type 0 where
  pub has_snapshot : Bool
  pub image : Image B
  pub working_memory : ℕ → B
  pub nr_blocks : ℕ
  pub nr_segments : ℕ
  pub capacity : ℕ
  pub segment_dirty : ℕ → BitSet
  pub block_dirty : ℕ → BitSet
  pub next_thread_id : ℕ
  pub write_back_state : WriteBackState
  pub write_back_thread_lock : Bool
  pub checkpoint_in_progress : Bool
  pub checkpoint_traffic : ℕ
  pub flush_blocks : BlockLists
  pub flush_mode : FlushMode
  pub prev_flush_mode : FlushMode
  pub address_first : ℕ
  pub next_back_segment : ℕ
  pub back_memory_lock : Bool
  pub epoch : ℕ

module _ {B : Type 0} where
  unfoldable pub advance_next_back_segment : HybridInstEngine B → HybridInstEngine B
  advance_next_back_segment e = record e {
    next_back_segment = (e.next_back_segment + 1) % e.image.nr_back_segments;
  }

  unfoldable pub acquire_back_lock : HybridInstEngine B → Outcome (HybridInstEngine B)
  acquire_back_lock e =
      if e.back_memory_lock then spins else ok (record e { back_memory_lock = true })

  unfoldable pub release_back_lock : HybridInstEngine B → HybridInstEngine B
  release_back_lock e = record e { back_memory_lock = false }

  unfoldable pub acquire_write_back_lock : HybridInstEngine B → Outcome (HybridInstEngine B)
  acquire_write_back_lock e =
      if e.write_back_thread_lock then spins else ok (record e { write_back_thread_lock = true })

  -- `segment_dirty[epoch].set(segment_id)`.
  unfoldable pub set_segment_dirty : HybridInstEngine B → ℕ → HybridInstEngine B
  set_segment_dirty e segment_id = record e {
    segment_dirty =
        update e.segment_dirty e.epoch (BitSet.set (e.segment_dirty e.epoch) segment_id);
  }

  unfoldable pub store_fence : HybridInstEngine B → HybridInstEngine B
  store_fence e = record e { image = Defs.store_fence e.image }
