-- ===== src/Nvm/WriteBack.antt =====
-- NvmInstEngine::lazy_write_back, the build without USE_IDENTICAL_DATA: the back segment gets what the main
-- segment held at the last checkpoint, and becomes the one that a restart takes.
use libcrpm.Base.{
  ℕ, zero, suc, ◌+◌, ◌-◌, ◌*◌, ◌/◌, Bool, true, false, not, ◌&&◌, List, [], ◌∷◌, ◌++◌, ◌==◌,
  if◌then◌else◌, length, min, Outcome, ok, ◌>>=◌,
}
use libcrpm.Constants.{null_segment_index, blocks_per_segment, block_size}
use libcrpm.Pm.Region
use libcrpm.Pm.Run.{run}
use libcrpm.BitSet
use libcrpm.BitSet.Words.{scan_words}
use libcrpm.Image.Defs.{
  Image, ss_initial, ss_main, ss_back, bi_epoch, get_segment_state, atomic_instructions,
}
use libcrpm.Image.Defs
use libcrpm.Nvm.Defs.{NvmInstEngine, lock_of, acquire_lock, release_lock, set_segment_dirty}
use libcrpm.Nvm.BackSegment.{Found, find_back_segment}

abbrev pub address_list_capacity : ℕ
address_list_capacity = 256

-- `n` blocks from `block_id` on.
unfoldable pub range : ℕ → ℕ → List ℕ
range zero block_id = []
range (suc n) block_id = block_id ∷ range n (block_id + 1)

-- The blocks go to `address_list`, and are copied whenever it is full and at the end: the order of the copies.
unfoldable pub copy_order : List ℕ → List ℕ → List ℕ
copy_order [] address_list = address_list
copy_order (b ∷ bs) address_list =
    let address_list' = address_list ++ (b ∷ []) in
    let is_full = length address_list' == address_list_capacity in
    (if is_full then address_list' else []) ++ copy_order bs (if is_full then [] else address_list')

module _ {B : Type 0} where
  -- `NonTemporalCopy256(addr + delta, addr, kBlockSize)`, from the main to the back segment.
  unfoldable pub copy_block : ℕ → ℕ → ℕ → Image B → Image B
  copy_block back_id segment_id b m = record m {
    back_memory =
        Region.nt_store m.back_memory
          (b + back_id * blocks_per_segment - segment_id * blocks_per_segment)
          (m.main_memory.view b);
  }

  abbrev pub copy_blocks : ℕ → ℕ → List ℕ → List (Image B → Image B)
  copy_blocks back_id segment_id [] = []
  copy_blocks back_id segment_id (b ∷ bs) =
      copy_block back_id segment_id b ∷ copy_blocks back_id segment_id bs

  -- The blocks that are dirty, in the order in which they are copied.
  abbrev pub dirty_blocks : NvmInstEngine B → ℕ → List ℕ
  dirty_blocks e segment_id =
      let start_block_id = segment_id * blocks_per_segment in
      let stop_block_id = min e.nr_blocks (start_block_id + blocks_per_segment) in
      copy_order (scan_words (blocks_per_segment / 64) e.block_dirty start_block_id stop_block_id)
        []

  -- A back segment that was just bound gets all the blocks, unless the segment was never part of a checkpoint.
  unfoldable pub blocks_to_copy : NvmInstEngine B → ℕ → ℕ → Bool → List ℕ
  blocks_to_copy e segment_id attribute created =
      let all_blocks =
        if attribute == ss_initial
        then []
        else range blocks_per_segment (segment_id * blocks_per_segment) in
      if created then all_blocks else dirty_blocks e segment_id

  -- The copies, `StoreFence()`, and `set_segment_state_atomic`.
  abbrev pub write_back_instructions : ℕ → ℕ → ℕ → List ℕ → List (Image B → Image B)
  write_back_instructions bi back_id segment_id bs =
      copy_blocks back_id segment_id bs
      ++ (Defs.store_fence ∷ atomic_instructions bi segment_id ss_back)

  -- What the call does once it has a back segment.
  unfoldable pub write_back : NvmInstEngine B → ℕ → ℕ → ℕ → Bool → Bool → NvmInstEngine B
  write_back e segment_id back_segment_id attribute created on_demand =
      let start_block_id = segment_id * blocks_per_segment in
      let stop_block_id = min e.nr_blocks (start_block_id + blocks_per_segment) in
      let bs = blocks_to_copy e segment_id attribute created in
      let address_count = if created then 0 else length bs in
      let written = record e {
        image =
            run (write_back_instructions (bi_epoch e.image) back_segment_id segment_id bs) e.image;
        block_dirty = BitSet.clear_region e.block_dirty start_block_id stop_block_id;
        checkpoint_traffic = e.checkpoint_traffic + address_count * block_size;
      } in
      release_lock (if on_demand then set_segment_dirty written segment_id else written)
        (lock_of segment_id)

  -- What the call does once it holds the lock of the segment; the second part is what it returns.
  unfoldable pub lazy_locked : NvmInstEngine B → ℕ → Bool → Outcome (NvmInstEngine B × Bool)
  lazy_locked e segment_id on_demand =
      let attribute = get_segment_state e.image segment_id in
      let back_segment_id = e.image.main_to_back segment_id in
      let nothing = release_lock e (lock_of segment_id) in
      let marked = release_lock (set_segment_dirty e segment_id) (lock_of segment_id) in
      let found = λ (f : Found B).
        ok (write_back f.engine segment_id f.back_id attribute f.created on_demand, true) in
      if not (attribute == ss_main) && not (back_segment_id == null_segment_index)
      then ok (if on_demand then marked else nothing, false)
      else (if back_segment_id == null_segment_index
          then (if on_demand then find_back_segment e segment_id >>= found else ok (nothing, false))
          else ok (write_back e segment_id back_segment_id attribute false on_demand, true))

  unfoldable pub lazy_write_back : NvmInstEngine B → ℕ → Bool → Outcome (NvmInstEngine B × Bool)
  lazy_write_back e segment_id on_demand = do
    locked ← acquire_lock e (lock_of segment_id)
    lazy_locked locked segment_id on_demand
