-- ===== src/Nvm/Defs.antt =====
-- The state of an NvmInstEngine, its locks, and its small operations.
use libcrpm.Base.{ℕ, ◌+◌, ◌*◌, ◌%◌, Bool, true, false, if◌then◌else◌, update, Outcome, ok, spins}
use libcrpm.Constants.{blocks_per_segment, segment_lock_count}
use libcrpm.BitSet
use libcrpm.BitSet.{BitSet}
use libcrpm.Buckets.{BlockLists, FlushMode}
use libcrpm.Image.Defs.{Image}
use libcrpm.Image.Defs

-- WB_STARTED, WB_RUNNING, WB_IDLE.
pub data CleanerState : Type 0 where
  wb_started wb_running wb_idle : CleanerState

-- `B` is the content of a block. The memories of the image are read block by block: block `k` of segment `i`
-- is the cell `i * kBlocksPerSegment + k`.
pub record NvmInstEngine (B : Type 0) : Type 0 where
  pub has_snapshot : Bool
  pub image : Image B
  pub nr_blocks : ℕ
  pub nr_segments : ℕ
  pub nr_back_segments : ℕ
  pub capacity : ℕ
  pub skip_copy_on_write : Bool
  pub segment_dirty : BitSet
  pub block_dirty : BitSet
  pub next_thread_id : ℕ
  pub segment_locks : ℕ → Bool
  pub cleaner_state : CleanerState
  pub checkpoint_in_progress : Bool
  pub checkpoint_traffic : ℕ
  pub flush_blocks : BlockLists
  pub flush_mode : FlushMode
  pub address_first : ℕ
  pub next_back_id : ℕ
  pub back_memory_lock : Bool

-- `segment_id & (kSegmentLocks - 1)`.
unfoldable pub lock_of : ℕ → ℕ
lock_of segment_id = segment_id % segment_lock_count

-- The cell of block `k` of a segment.
abbrev pub cell : ℕ → ℕ → ℕ
cell segment_id k = segment_id * blocks_per_segment + k

module _ {B : Type 0} where
  unfoldable pub acquire_lock : NvmInstEngine B → ℕ → Outcome (NvmInstEngine B)
  acquire_lock e l =
      if e.segment_locks l
      then spins
      else ok (record e { segment_locks = update e.segment_locks l true })

  unfoldable pub release_lock : NvmInstEngine B → ℕ → NvmInstEngine B
  release_lock e l = record e { segment_locks = update e.segment_locks l false }

  unfoldable pub acquire_back_lock : NvmInstEngine B → Outcome (NvmInstEngine B)
  acquire_back_lock e =
      if e.back_memory_lock then spins else ok (record e { back_memory_lock = true })

  unfoldable pub release_back_lock : NvmInstEngine B → NvmInstEngine B
  release_back_lock e = record e { back_memory_lock = false }

  unfoldable pub advance_next_back_segment : NvmInstEngine B → NvmInstEngine B
  advance_next_back_segment e = record e {
    next_back_id = (e.next_back_id + 1) % e.image.nr_back_segments;
  }

  unfoldable pub set_segment_dirty : NvmInstEngine B → ℕ → NvmInstEngine B
  set_segment_dirty e segment_id = record e {
    segment_dirty = BitSet.set e.segment_dirty segment_id;
  }

  -- `StoreFence()`.
  unfoldable pub store_fence : NvmInstEngine B → NvmInstEngine B
  store_fence e = record e { image = Defs.store_fence e.image }
