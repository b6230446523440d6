-- ===== src/Hybrid/Apply.antt =====
-- HybridInstEngine::apply_dram_to_back_parallel, apply_dram_to_main_parallel and apply_nvm_to_nvm_parallel: what each
-- thread of a checkpoint writes from DRAM to the back and to the main segments.
use libcrpm.Base.{
  ℕ, ◌+◌, ◌-◌, ◌*◌, ◌/◌, ◌%◌, ◌^◌, bit_and, not, ◌&&◌, List, [], ◌∷◌, ◌==◌, if◌then◌else◌, min,
  Outcome, ok, ◌>>=◌,
}
use libcrpm.Constants.{null_segment_index, blocks_per_segment, block_size, max_threads}
use libcrpm.Pm.Region
use libcrpm.BitSet
use libcrpm.BitSet.{BitSet}
use libcrpm.BitSet.Words.{scan_words}
use libcrpm.Buckets.{FlushMode, wbinvd, threads, strided}
use libcrpm.Image.Defs.{ss_initial, ss_main, ss_back, get_segment_state, set_segment_state_atomic}
use libcrpm.Nvm.WriteBack.{range}
use libcrpm.Nvm.Checkpoint.{bucket_blocks, served}
use libcrpm.Hybrid.Defs.{HybridInstEngine, store_fence}
use libcrpm.Hybrid.BackSegment.{Found, find_back_segment, find_back_block}

-- `bitset & ~bitset_cur`, word by word.
abbrev pub without : BitSet → BitSet → BitSet
without s t = record s { buf = λ w. bit_and (s.buf w) (2 ^ 64 - 1 - t.buf w) }

abbrev pub all_blocks : ℕ → List ℕ
all_blocks main_id = range blocks_per_segment (main_id * blocks_per_segment)

module _ {B : Type 0} where
  -- The dirty blocks of a segment, in the order in which they are copied.
  abbrev pub dirty_blocks : HybridInstEngine B → BitSet → ℕ → List ℕ
  dirty_blocks e dirty main_id =
      let start_block_id = main_id * blocks_per_segment in
      let stop_block_id = min e.nr_blocks (start_block_id + blocks_per_segment) in
      scan_words (blocks_per_segment / 64) dirty start_block_id stop_block_id

  -- The copies past the cache, block by block. A copy that leaves out a line which does not differ leaves what a
  -- copy of it would.
  unfoldable pub dram_to_back : ℕ → List ℕ → HybridInstEngine B → HybridInstEngine B
  dram_to_back back_id [] e = e
  dram_to_back back_id (b ∷ bs) e = dram_to_back back_id bs (record e {
    image = record e.image {
      back_memory =
          Region.nt_store e.image.back_memory
            (back_id * blocks_per_segment + b % blocks_per_segment) (e.working_memory b);
    };
    checkpoint_traffic = e.checkpoint_traffic + block_size;
  })

  unfoldable pub dram_to_main : List ℕ → HybridInstEngine B → HybridInstEngine B
  dram_to_main [] e = e
  dram_to_main (b ∷ bs) e = dram_to_main bs (record e {
    image = record e.image {
      main_memory = Region.nt_store e.image.main_memory b (e.working_memory b);
    };
    checkpoint_traffic = e.checkpoint_traffic + block_size;
  })

  -- `NonTemporalCopy256(main_base, back_base, kSegmentSize)`, whose first argument is the destination.
  unfoldable pub back_to_main : ℕ → List ℕ → HybridInstEngine B → HybridInstEngine B
  back_to_main back_id [] e = e
  back_to_main back_id (b ∷ bs) e = back_to_main back_id bs (record e {
    image = record e.image {
      main_memory =
          Region.nt_store e.image.main_memory b
            (e.image.back_memory.view (back_id * blocks_per_segment + b % blocks_per_segment));
    };
    checkpoint_traffic = e.checkpoint_traffic + block_size;
  })

  -- The whole segment for a back segment that was just bound, unless it was never part of a checkpoint.
  abbrev pub back_blocks : Found B → ℕ → List ℕ → List ℕ
  back_blocks f main_id bs =
      if f.created && not (get_segment_state f.engine.image main_id == ss_initial)
      then all_blocks main_id
      else bs

  unfoldable pub segment_to_back : HybridInstEngine B → ℕ → Outcome (HybridInstEngine B)
  segment_to_back e main_id =
      let applied = find_back_segment e main_id >>= λ f. ok (
        dram_to_back f.back_id
          (back_blocks f main_id
            (dirty_blocks f.engine (f.engine.block_dirty f.engine.epoch) main_id))
          f.engine) in
      if BitSet.test (e.segment_dirty e.epoch) main_id then applied else ok e

  unfoldable pub block_to_back : HybridInstEngine B → ℕ → Outcome (HybridInstEngine B)
  block_to_back e block_id = do
    f ← find_back_block e block_id
    let bs = back_blocks f (block_id / blocks_per_segment) (block_id ∷ [])
    ok (dram_to_back (f.back_id / blocks_per_segment) bs f.engine)

  -- The step for each of the segments or blocks.
  abbrev pub each :
      (HybridInstEngine B → ℕ → Outcome (HybridInstEngine B))
      → List ℕ
      → HybridInstEngine B
      → Outcome (HybridInstEngine B)
  each step [] e = ok e
  each step (i ∷ is) e = step e i >>= each step is

  -- `main_id = tid; while (main_id < nr_segments) { …; main_id += nr_threads; }`.
  abbrev pub own_segments : HybridInstEngine B → ℕ → ℕ → List ℕ
  own_segments e tid nr_threads = strided e.nr_segments tid nr_threads e.nr_segments

  -- With the buckets, thread 0 does it all.
  unfoldable pub apply_dram_to_back_parallel :
      FlushMode → ℕ → HybridInstEngine B → ℕ → Outcome (HybridInstEngine B)
  apply_dram_to_back_parallel wbinvd nr_threads e tid = do
    applied ← each segment_to_back (own_segments e tid nr_threads) e
    ok (store_fence applied)
  apply_dram_to_back_parallel _ nr_threads e tid = do
    let blocks = bucket_blocks e.flush_blocks (threads max_threads 0)
    applied ← each block_to_back (if tid == 0 then blocks else []) e
    ok (store_fence applied)

  -- What is done once the segment has a back segment.
  unfoldable pub prepared : ℕ → Found B → HybridInstEngine B
  prepared main_id f =
      let copied = back_to_main f.back_id (all_blocks main_id) f.engine in
      if f.created
      then record copied { image = set_segment_state_atomic copied.image main_id ss_back }
      else f.engine

  -- What is done before a segment whose checkpoint is in the main segment is written.
  unfoldable pub prepare_main : HybridInstEngine B → ℕ → Outcome (HybridInstEngine B)
  prepare_main e main_id =
      let found = find_back_segment e main_id >>= λ f. ok (prepared main_id f) in
      if get_segment_state e.image main_id == ss_main then found else ok e

  unfoldable pub segment_to_main : HybridInstEngine B → ℕ → Outcome (HybridInstEngine B)
  segment_to_main e main_id =
      let applied = prepare_main e main_id >>= λ p.
      ok (dram_to_main (dirty_blocks p (p.block_dirty p.epoch) main_id) p) in
      if BitSet.test (e.segment_dirty e.epoch) main_id then applied else ok e

  unfoldable pub block_to_main : HybridInstEngine B → ℕ → Outcome (HybridInstEngine B)
  block_to_main e block_id = do
    p ← prepare_main e (block_id / blocks_per_segment)
    ok (dram_to_main (block_id ∷ []) p)

  unfoldable pub apply_dram_to_main_parallel :
      FlushMode → ℕ → HybridInstEngine B → ℕ → Outcome (HybridInstEngine B)
  apply_dram_to_main_parallel wbinvd nr_threads e tid = do
    applied ← each segment_to_main (own_segments e tid nr_threads) e
    ok (store_fence applied)
  apply_dram_to_main_parallel _ nr_threads e tid = do
    applied ← each block_to_main (bucket_blocks e.flush_blocks (served tid nr_threads)) e
    ok (store_fence applied)

  -- The blocks of the last epoch that are not dirty in this one go where this epoch writes.
  unfoldable pub nvm_to_nvm : HybridInstEngine B → ℕ → HybridInstEngine B
  nvm_to_nvm e main_id =
      let last = 1 - e.epoch in
      let back_id = e.image.main_to_back main_id in
      let bs = dirty_blocks e (without (e.block_dirty last) (e.block_dirty e.epoch)) main_id in
      let applied = if e.epoch == 0 then dram_to_main bs e else dram_to_back back_id bs e in
      if BitSet.test (e.segment_dirty last) main_id && not (back_id == null_segment_index)
      then applied
      else e

  unfoldable pub nvm_to_nvm_each : List ℕ → HybridInstEngine B → HybridInstEngine B
  nvm_to_nvm_each [] e = e
  nvm_to_nvm_each (i ∷ is) e = nvm_to_nvm_each is (nvm_to_nvm e i)

  unfoldable pub apply_nvm_to_nvm_parallel : ℕ → HybridInstEngine B → ℕ → HybridInstEngine B
  apply_nvm_to_nvm_parallel nr_threads e tid = nvm_to_nvm_each (own_segments e tid nr_threads) e
