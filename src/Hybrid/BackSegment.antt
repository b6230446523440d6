-- ===== src/Hybrid/BackSegment.antt =====
-- HybridInstEngine::allocate_back_segment, find_back_segment and find_back_block.
use libcrpm.Base.{
  ℕ, zero, suc, ◌+◌, ◌*◌, ◌/◌, ◌%◌, Bool, true, false, ◌==◌, if◌then◌else◌, Outcome, ok, exited,
  ◌>>=◌,
}
use libcrpm.Constants.{null_segment_index, blocks_per_segment}
use libcrpm.BitSet
use libcrpm.Image.Binding.{bind_back_segment}
use libcrpm.Hybrid.Defs.{
  HybridInstEngine, acquire_back_lock, release_back_lock, advance_next_back_segment,
}

-- The engine after the call, the back segment (or back block), and the flag `created`.
pub record Found (B : Type 0) : Type 0 where
  pub engine : HybridInstEngine B
  pub back_id : ℕ
  pub created : Bool

module _ {B : Type 0} where
  -- `image->bind_back_segment(segment_id, next_back_segment); advance_next_back_segment();`.
  unfoldable pub bind_next : HybridInstEngine B → ℕ → HybridInstEngine B
  bind_next e segment_id =
      advance_next_back_segment
        (record e { image = bind_back_segment e.image segment_id e.next_back_segment })

  -- One round of the loop, and whether it has bound a back segment.
  unfoldable pub allocate_round : HybridInstEngine B → ℕ → HybridInstEngine B × Bool
  allocate_round e segment_id =
      let main_segment = (e.image.back_to_main e.next_back_segment).value in
      let bound : HybridInstEngine B × Bool = (release_back_lock (bind_next e segment_id), true) in
      let passed_over : HybridInstEngine B × Bool = (advance_next_back_segment e, false) in
      if main_segment == null_segment_index
      then bound
      else (if BitSet.test (e.segment_dirty e.epoch) main_segment then passed_over else bound)

  -- `while (loop_count < kNumBackSegments)`, by the rounds that are left.
  unfoldable pub allocate_loop : ℕ → HybridInstEngine B → ℕ → HybridInstEngine B
  allocate_loop zero e segment_id = e
  allocate_loop (suc n) e segment_id =
      let round = allocate_round e segment_id in
      let rest = allocate_loop n round.0 segment_id in if round.1 then round.0 else rest

  unfoldable pub allocate_back_segment : HybridInstEngine B → ℕ → Outcome (HybridInstEngine B)
  allocate_back_segment e segment_id = do
    locked ← acquire_back_lock e
    ok (allocate_loop e.image.nr_back_segments locked segment_id)

  -- What the call does once the allocation has returned.
  unfoldable pub found_after : HybridInstEngine B → ℕ → Outcome (Found B)
  found_after e segment_id =
      let back_seg_id = e.image.main_to_back segment_id in
      if back_seg_id == null_segment_index
      then exited
      else ok (record { engine = e; back_id = back_seg_id; created = true })

  unfoldable pub find_back_segment : HybridInstEngine B → ℕ → Outcome (Found B)
  find_back_segment e segment_id =
      let back_seg_id = e.image.main_to_back segment_id in
      if back_seg_id == null_segment_index
      then (do allocated ← allocate_back_segment e segment_id; found_after allocated segment_id)
      else ok (record { engine = e; back_id = back_seg_id; created = false })

  unfoldable pub find_back_block : HybridInstEngine B → ℕ → Outcome (Found B)
  find_back_block e block_id = do
    f ← find_back_segment e (block_id / blocks_per_segment)
    ok (record f { back_id = f.back_id * blocks_per_segment + block_id % blocks_per_segment })
