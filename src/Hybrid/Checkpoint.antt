-- ===== src/Hybrid/Checkpoint.antt =====
-- HybridInstEngine::checkpoint, with the commit of the states, the marks of the last epoch, and
-- prepare_working_memory. The barriers make of the threads' phases a sequence.
use libcrpm.Base.{
  ℕ, zero, suc, ◌+◌, ◌-◌, ◌*◌, ◌/◌, bit_or, Bool, true, false, List, [], ◌∷◌, ◌==◌, leb,
  if◌then◌else◌, length, update, min, Outcome, ok, ◌>>=◌,
}
use libcrpm.Constants.{blocks_per_segment, max_threads, max_flush_blocks, attribute_has_snapshot}
use libcrpm.Pm.Word
use libcrpm.BitSet
use libcrpm.BitSet.{BitSet}
use libcrpm.BitSet.Words.{scan_words}
use libcrpm.Buckets.{
  BlockLists, Flags, FlushMode, no_action, use_flush_blocks, wbinvd, mode_of, threads,
  empty_buckets,
}
use libcrpm.Image.Defs.{
  Image, ss_initial, ss_main, ss_back, get_segment_state, begin_segment_state_update,
  commit_segment_state_update,
}
use libcrpm.Image.Defs
use libcrpm.Nvm.WriteBack.{range}
use libcrpm.Nvm.Checkpoint.{set_states}
use libcrpm.Hybrid.Defs.{HybridInstEngine, wb_starting, acquire_write_back_lock}
use libcrpm.Hybrid.Apply.{
  each, apply_dram_to_back_parallel, apply_dram_to_main_parallel, apply_nvm_to_nvm_parallel,
}
use libcrpm.Hybrid.Hook.{Program, address_buffer_clear_all}

-- `determine_flush_mode`: the loop over the sizes of the buckets, with `total_blocks`.
unfoldable pub scan_sizes : ℕ → ℕ → BlockLists → ℕ → Flags → Flags
scan_sizes zero i fb total f = f
scan_sizes (suc n) i fb total f = scan_sizes n (i + 1) fb (total + length (fb i)) (record {
  all_empty = if length (fb i) == 0 then f.all_empty else false;
  has_full = if leb max_flush_blocks (total + length (fb i)) then true else f.has_full;
})

unfoldable pub determine_flush_mode : BlockLists → FlushMode
determine_flush_mode fb =
    mode_of (scan_sizes max_threads 0 fb 0 (record { all_empty = true; has_full = false }))

-- `bitset |= bitset_last`, word by word.
unfoldable pub union : BitSet → BitSet → BitSet
union s t = record s { buf = λ w. bit_or (s.buf w) (t.buf w) }

abbrev pub was_wbinvd : FlushMode → Bool
was_wbinvd wbinvd = true
was_wbinvd no_action = false
was_wbinvd use_flush_blocks = false

module _ {B : Type 0} where
  -- The segments that are dirty in this epoch or the last.
  unfoldable pub layout_segments : HybridInstEngine B → List ℕ
  layout_segments e =
      scan_words (e.nr_segments / 64 + 1)
        (union (e.segment_dirty e.epoch) (e.segment_dirty (1 - e.epoch))) 0 e.nr_segments

  unfoldable pub commit_layout_state : ℕ → HybridInstEngine B → Outcome (HybridInstEngine B)
  commit_layout_state state e = do
    set ← set_states (layout_segments e) state (begin_segment_state_update e.image)
    ok (record e { image = commit_segment_state_update set })

  -- The marks of the last epoch of a segment.
  unfoldable pub clear_last : HybridInstEngine B → ℕ → HybridInstEngine B
  clear_last e segment_id =
      let last = 1 - e.epoch in
      let start_block_id = segment_id * blocks_per_segment in
      let stop_block_id = min e.nr_blocks (start_block_id + blocks_per_segment) in
      let cleared = record e {
        block_dirty =
            update e.block_dirty last
              (BitSet.clear_region (e.block_dirty last) start_block_id stop_block_id);
        segment_dirty =
            update e.segment_dirty last (BitSet.clear (e.segment_dirty last) segment_id);
      } in
      if BitSet.test (e.segment_dirty last) segment_id then cleared else e

  unfoldable pub clear_last_each : List ℕ → HybridInstEngine B → HybridInstEngine B
  clear_last_each [] e = e
  clear_last_each (i ∷ is) e = clear_last_each is (clear_last e i)

  unfoldable pub clear_dirty_bits_last_epoch : HybridInstEngine B → HybridInstEngine B
  clear_dirty_bits_last_epoch e = clear_last_each (range e.nr_segments 0) e

  -- `image->set_attributes(kAttributeHasSnapshot)` if there was no snapshot.
  unfoldable pub set_snapshot : HybridInstEngine B → HybridInstEngine B
  set_snapshot e =
      let m = e.image in
      let stored = record m { attributes = Word.nt_store m.attributes attribute_has_snapshot } in
      if e.has_snapshot
      then e
      else record e { image = Defs.store_fence stored; has_snapshot = true }

  -- What the leader sets at the end, but for `write_back_state`.
  unfoldable pub end_checkpoint : HybridInstEngine B → HybridInstEngine B
  end_checkpoint e = record e {
    next_thread_id = 0;
    flush_blocks = empty_buckets e.flush_blocks (threads max_threads 0);
    checkpoint_in_progress = false;
    epoch = 1 - e.epoch;
    write_back_thread_lock = false;
  }

  -- The copy that this epoch writes, and the other one.
  unfoldable pub apply_first : FlushMode → ℕ → HybridInstEngine B → ℕ → Outcome (HybridInstEngine B)
  apply_first mode nr_threads e tid =
      if e.epoch == 0
      then apply_dram_to_main_parallel mode nr_threads e tid
      else apply_dram_to_back_parallel mode nr_threads e tid

  unfoldable pub apply_second :
      FlushMode → ℕ → HybridInstEngine B → ℕ → Outcome (HybridInstEngine B)
  apply_second mode nr_threads e tid =
      if e.epoch == 0
      then apply_dram_to_back_parallel mode nr_threads e tid
      else apply_dram_to_main_parallel mode nr_threads e tid

  -- What a thread does before the commit.
  unfoldable pub first_phase : FlushMode → ℕ → HybridInstEngine B → ℕ → Outcome (HybridInstEngine B)
  first_phase mode nr_threads e tid =
      apply_first mode nr_threads
        (if was_wbinvd e.prev_flush_mode then apply_nvm_to_nvm_parallel nr_threads e tid else e) tid

  abbrev pub epoch_state : HybridInstEngine B → ℕ
  epoch_state e = if e.epoch == 0 then ss_main else ss_back

  unfoldable pub commit_phase : FlushMode → ℕ → HybridInstEngine B → Outcome (HybridInstEngine B)
  commit_phase wbinvd nr_threads e = do
    committed ← commit_layout_state (epoch_state e) e
    let started = record (set_snapshot (clear_dirty_bits_last_epoch committed)) {
      write_back_state = wb_starting;
    }
    ok (end_checkpoint started)
  commit_phase mode nr_threads e = do
    committed ← commit_layout_state (epoch_state e) e
    applied ← each (apply_second mode nr_threads) (threads nr_threads 0) committed
    ok (end_checkpoint (set_snapshot (clear_dirty_bits_last_epoch applied)))

  unfoldable pub checkpoint_by : FlushMode → HybridInstEngine B → ℕ → Outcome (HybridInstEngine B)
  checkpoint_by mode e nr_threads = do
    begun ← acquire_write_back_lock (record e { checkpoint_in_progress = true })
    applied ← each (first_phase mode nr_threads) (threads nr_threads 0) begun
    commit_phase mode nr_threads applied

  unfoldable pub checkpoint_in : FlushMode → HybridInstEngine B → ℕ → Outcome (HybridInstEngine B)
  checkpoint_in no_action e nr_threads = ok (record e { next_thread_id = 0 })
  checkpoint_in use_flush_blocks e nr_threads = checkpoint_by use_flush_blocks e nr_threads
  checkpoint_in wbinvd e nr_threads = checkpoint_by wbinvd e nr_threads

  -- The leader first tells the engine of the addresses that wait in the buffers.
  unfoldable pub checkpoint : Program B → ℕ → Outcome (Program B)
  checkpoint p nr_threads = do
    told ← address_buffer_clear_all p 0
    let e = told.engine
    let mode = determine_flush_mode e.flush_blocks
    done ←
        checkpoint_in mode (record e { flush_mode = mode; prev_flush_mode = e.flush_mode })
          nr_threads
    ok (record told { engine = done })

  -- A restart copies each segment that was part of a checkpoint to DRAM.
  unfoldable pub load_segments : ℕ → ℕ → HybridInstEngine B → HybridInstEngine B
  load_segments zero segment_id e = e
  load_segments (suc n) segment_id e = load_segments n (segment_id + 1) (
      if get_segment_state e.image segment_id == ss_initial then e else record e {
        working_memory = λ b.
            if b / blocks_per_segment == segment_id
            then e.image.main_memory.view b
            else e.working_memory b;
      })

  unfoldable pub prepare_working_memory : HybridInstEngine B → HybridInstEngine B
  prepare_working_memory e = load_segments e.nr_segments 0 e
