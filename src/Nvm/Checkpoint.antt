-- ===== src/Nvm/Checkpoint.antt =====
-- NvmInstEngine::checkpoint, the build without USE_IDENTICAL_DATA. The barriers and the latch make of the threads'
-- phases a sequence: what the leader decides, the flush of each thread, the commit, the write-back of each
-- thread, what the leader clears.
use libcrpm.Base.{
  ℕ, zero, suc, ◌+◌, ◌*◌, ◌/◌, Bool, true, false, not, ◌&&◌, List, [], ◌∷◌, ◌++◌, ◌==◌, leb,
  if◌then◌else◌, length, Outcome, ok, ◌>>=◌,
}
use libcrpm.Constants.{
  blocks_per_segment, block_size, segment_size, max_threads, max_flush_blocks,
  attribute_has_snapshot,
}
use libcrpm.Pm.Region
use libcrpm.Pm.Word
use libcrpm.Pm.Run.{run}
use libcrpm.BitSet
use libcrpm.BitSet.{BitSet}
use libcrpm.BitSet.Words.{scan_words}
use libcrpm.Buckets.{
  BlockLists, Flags, FlushMode, no_action, use_flush_blocks, wbinvd, mode_of, threads, strided,
  empty_buckets, flush_buckets,
}
use libcrpm.Image.Defs.{
  Image, ss_main, ss_back, begin_segment_state_update, set_segment_state,
  commit_segment_state_update,
}
use libcrpm.Image.Defs
use libcrpm.Nvm.Defs.{NvmInstEngine, CleanerState, wb_started, wb_running, wb_idle, store_fence}
use libcrpm.Nvm.BackSegment.{Found, find_back_block}
use libcrpm.Nvm.WriteBack.{range, copy_blocks}
use libcrpm.Nvm.Program.{Program, address_buffer_clear_all}

-- `determine_flush_mode`: the loop over the sizes of the buckets.
unfoldable pub scan_sizes : ℕ → ℕ → BlockLists → Flags → Flags
scan_sizes zero i fb f = f
scan_sizes (suc n) i fb f = scan_sizes n (i + 1) fb (record {
  all_empty = if length (fb i) == 0 then f.all_empty else false;
  has_full = if leb max_flush_blocks (length (fb i)) then true else f.has_full;
})

unfoldable pub determine_flush_mode : BlockLists → FlushMode
determine_flush_mode fb =
    mode_of (scan_sizes max_threads 0 fb (record { all_empty = true; has_full = false }))

-- `block_id >> (kSegmentShift - kBlockShift)` for each block of a bucket.
unfoldable pub segments_of : List ℕ → List ℕ
segments_of [] = []
segments_of (b ∷ bs) = (b / blocks_per_segment) ∷ segments_of bs

unfoldable pub bucket_segments : BlockLists → List ℕ → List ℕ
bucket_segments fb [] = []
bucket_segments fb (i ∷ is) = segments_of (fb i) ++ bucket_segments fb is

-- `clear_all` of the word of each index.
unfoldable pub clear_each : BitSet → List ℕ → BitSet
clear_each s [] = s
clear_each s (i ∷ is) = clear_each (BitSet.clear_all s i) is

unfoldable pub bucket_blocks : BlockLists → List ℕ → List ℕ
bucket_blocks fb [] = []
bucket_blocks fb (i ∷ is) = fb i ++ bucket_blocks fb is

abbrev pub is_busy : CleanerState → Bool
is_busy wb_idle = false
is_busy wb_started = true
is_busy wb_running = true

abbrev pub served : ℕ → ℕ → List ℕ
served tid nr_threads = strided max_threads tid nr_threads max_threads

module _ {B : Type 0} where
  -- `WriteBackAndInvalidate()`.
  unfoldable pub write_back_cache : Image B → Image B
  write_back_cache m = record m {
    attributes = Word.flush m.attributes;
    committed_epoch = Word.flush m.committed_epoch;
    segment_state = λ bi seg. Word.flush (m.segment_state bi seg);
    back_to_main = λ b. Word.flush (m.back_to_main b);
    main_memory = Region.write_back_all m.main_memory;
    back_memory = Region.write_back_all m.back_memory;
  }

  unfoldable pub flush_parallel : FlushMode → ℕ → NvmInstEngine B → ℕ → NvmInstEngine B
  flush_parallel wbinvd nr_threads e tid =
      store_fence (if tid == 0 then record e { image = write_back_cache e.image } else e)
  flush_parallel _ nr_threads e tid =
      let memory = flush_buckets e.image.main_memory e.flush_blocks (served tid nr_threads) in
      store_fence (record e { image = record e.image { main_memory = memory } })

  -- `set_segment_state` of each of the segments.
  unfoldable pub set_states : List ℕ → ℕ → Image B → Outcome (Image B)
  set_states [] state m = ok m
  set_states (seg ∷ segs) state m = set_segment_state m seg state >>= set_states segs state

  -- The segments that `commit_layout_state` visits.
  unfoldable pub layout_segments : FlushMode → NvmInstEngine B → List ℕ
  layout_segments wbinvd e = scan_words (e.nr_segments / 64 + 1) e.segment_dirty 0 e.nr_segments
  layout_segments _ e = bucket_segments e.flush_blocks (threads max_threads 0)

  unfoldable pub commit_layout_state : FlushMode → ℕ → NvmInstEngine B → Outcome (NvmInstEngine B)
  commit_layout_state mode state e = do
    set ← set_states (layout_segments mode e) state (begin_segment_state_update e.image)
    ok (record e { image = commit_segment_state_update set })

  -- One block of a bucket, with a back segment that was there or is created.
  unfoldable pub write_back_found : ℕ → Found B → NvmInstEngine B
  write_back_found block_id f =
      let seg = block_id / blocks_per_segment in
      let back = f.back_id / blocks_per_segment in
      let blocks =
        if f.created then range blocks_per_segment (seg * blocks_per_segment) else block_id ∷ [] in
      record f.engine {
        image = run (copy_blocks back seg blocks) f.engine.image;
        checkpoint_traffic =
            f.engine.checkpoint_traffic + (if f.created then segment_size else block_size);
      }

  unfoldable pub write_back_blocks : List ℕ → NvmInstEngine B → Outcome (NvmInstEngine B)
  write_back_blocks [] e = ok e
  write_back_blocks (b ∷ bs) e = do
    f ← find_back_block e b
    write_back_blocks bs (write_back_found b f)

  -- The branch for buckets; the checkpoint calls it in no other mode.
  unfoldable pub write_back_parallel : ℕ → NvmInstEngine B → ℕ → Outcome (NvmInstEngine B)
  write_back_parallel nr_threads e tid = do
    copied ← write_back_blocks (bucket_blocks e.flush_blocks (served tid nr_threads)) e
    ok (store_fence copied)

  unfoldable pub clear_dirty_bits : NvmInstEngine B → NvmInstEngine B
  clear_dirty_bits e = record e {
    block_dirty = clear_each e.block_dirty (bucket_blocks e.flush_blocks (threads max_threads 0));
    segment_dirty =
        clear_each e.segment_dirty (bucket_segments e.flush_blocks (threads max_threads 0));
  }

  -- `image->set_attributes(kAttributeHasSnapshot)` if there was no snapshot.
  unfoldable pub set_snapshot : NvmInstEngine B → NvmInstEngine B
  set_snapshot e =
      let m = e.image in
      let stored = record m { attributes = Word.nt_store m.attributes attribute_has_snapshot } in
      if e.has_snapshot
      then e
      else record e { image = Defs.store_fence stored; has_snapshot = true }

  abbrev pub by_threads :
      (NvmInstEngine B → ℕ → NvmInstEngine B) → List ℕ → NvmInstEngine B → NvmInstEngine B
  by_threads phase [] e = e
  by_threads phase (t ∷ ts) e = by_threads phase ts (phase e t)

  abbrev pub by_threads_or_exit :
      (NvmInstEngine B → ℕ → Outcome (NvmInstEngine B))
      → List ℕ
      → NvmInstEngine B
      → Outcome (NvmInstEngine B)
  by_threads_or_exit phase [] e = ok e
  by_threads_or_exit phase (t ∷ ts) e = phase e t >>= by_threads_or_exit phase ts

  -- What the leader sets when it has found something to do.
  unfoldable pub begin_checkpoint : FlushMode → NvmInstEngine B → NvmInstEngine B
  begin_checkpoint wbinvd e = record e {
    flush_mode = wbinvd;
    checkpoint_in_progress = true;
    skip_copy_on_write = false;
  }
  begin_checkpoint mode e = record e {
    flush_mode = mode;
    checkpoint_in_progress = true;
    skip_copy_on_write = not (is_busy e.cleaner_state) && (e.nr_segments == e.nr_back_segments);
  }

  unfoldable pub end_checkpoint : NvmInstEngine B → NvmInstEngine B
  end_checkpoint e = record e {
    next_thread_id = 0;
    flush_blocks = empty_buckets e.flush_blocks (threads max_threads 0);
    checkpoint_in_progress = false;
  }

  unfoldable pub flushed_by : FlushMode → ℕ → NvmInstEngine B → NvmInstEngine B
  flushed_by mode nr_threads e =
      by_threads (flush_parallel mode nr_threads) (threads nr_threads 0) e

  -- With the buckets, the blocks are written back at once.
  unfoldable pub checkpoint_by_buckets : NvmInstEngine B → ℕ → Outcome (NvmInstEngine B)
  checkpoint_by_buckets e nr_threads = do
    let flushed = flushed_by use_flush_blocks nr_threads (begin_checkpoint use_flush_blocks e)
    in_main ← commit_layout_state use_flush_blocks ss_main flushed
    copied ← by_threads_or_exit (write_back_parallel nr_threads) (threads nr_threads 0) in_main
    in_back ← commit_layout_state use_flush_blocks ss_back copied
    ok (end_checkpoint (clear_dirty_bits (set_snapshot in_back)))

  -- With the whole cache, the cleaner writes the segments back later.
  unfoldable pub checkpoint_by_wbinvd : NvmInstEngine B → ℕ → Outcome (NvmInstEngine B)
  checkpoint_by_wbinvd e nr_threads = do
    let flushed = flushed_by wbinvd nr_threads (begin_checkpoint wbinvd e)
    in_main ← commit_layout_state wbinvd ss_main flushed
    let cleared = record in_main {
      segment_dirty = BitSet.clear_region in_main.segment_dirty 0 in_main.nr_segments;
    }
    ok (end_checkpoint (record (set_snapshot cleared) { cleaner_state = wb_started }))

  unfoldable pub checkpoint_in : FlushMode → NvmInstEngine B → ℕ → Outcome (NvmInstEngine B)
  checkpoint_in no_action e nr_threads =
      ok (record e { flush_mode = no_action; next_thread_id = 0 })
  checkpoint_in use_flush_blocks e nr_threads = checkpoint_by_buckets e nr_threads
  checkpoint_in wbinvd e nr_threads = checkpoint_by_wbinvd e nr_threads

  -- The leader first tells the engine of the addresses that wait in the buffers.
  unfoldable pub checkpoint : Program B → ℕ → Outcome (Program B)
  checkpoint p nr_threads = do
    told ← address_buffer_clear_all p 0
    let e = told.engine
    done ← checkpoint_in (determine_flush_mode e.flush_blocks) e nr_threads
    ok (record told { engine = done })
