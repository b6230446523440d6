-- ===== src/Nvm/BackSegment.antt =====
-- NvmInstEngine::allocate_back_segment, find_back_segment and find_back_block: the back segment of a main
-- segment, taken from another main segment when none is free.
use libcrpm.Base.{
  ℕ, zero, suc, ◌+◌, ◌*◌, ◌/◌, ◌%◌, Bool, true, false, ◌==◌, if◌then◌else◌, update, Outcome, ok,
  exited, ◌>>=◌,
}
use libcrpm.Constants.{null_segment_index, blocks_per_segment}
use libcrpm.BitSet
use libcrpm.Image.Binding.{bind_back_segment}
use libcrpm.Nvm.Defs.{
  NvmInstEngine, lock_of, release_lock, acquire_back_lock, release_back_lock,
  advance_next_back_segment,
}

-- The engine after the call, the back segment (or back block), and the flag `created`.
pub record Found (B : Type 0) : Type 0 where
  pub engine : NvmInstEngine B
  pub back_id : ℕ
  pub created : Bool

-- What a round of the loop leaves, and whether it has taken a back segment.
pub record Round (B : Type 0) : Type 0 where
  pub engine : NvmInstEngine B
  pub taken : Bool

module _ {B : Type 0} where
  -- The main segment that has the back segment which comes next.
  abbrev pub old_main_id : NvmInstEngine B → ℕ
  old_main_id e = (e.image.back_to_main e.next_back_id).value

  -- `image->bind_back_segment(main_id, next_back_id); advance_next_back_segment();`.
  unfoldable pub bind_next : NvmInstEngine B → ℕ → NvmInstEngine B
  bind_next e main_id =
      advance_next_back_segment
        (record e { image = bind_back_segment e.image main_id e.next_back_id })

  -- TryAcquireLock has found the lock free.
  unfoldable pub take_lock : NvmInstEngine B → ℕ → NvmInstEngine B
  take_lock e l = record e { segment_locks = update e.segment_locks l true }

  unfoldable pub taken_now : NvmInstEngine B → ℕ → Round B
  taken_now e main_id = record { engine = release_back_lock (bind_next e main_id); taken = true }

  unfoldable pub taken_under : NvmInstEngine B → ℕ → ℕ → Round B
  taken_under locked main_id l = record {
    engine = release_back_lock (release_lock (bind_next locked main_id) l);
    taken = true;
  }

  unfoldable pub passed_over : NvmInstEngine B → Round B
  passed_over e = record { engine = advance_next_back_segment e; taken = false }

  -- One round of the loop.
  unfoldable pub allocate_round : NvmInstEngine B → ℕ → Round B
  allocate_round e main_id =
      let old = old_main_id e in
      let locked = take_lock e (lock_of old) in
      let during_checkpoint =
        if BitSet.test e.segment_dirty old then passed_over e else taken_now e main_id in
      let between_checkpoints =
        if e.segment_locks (lock_of old)
        then passed_over e
        else (if BitSet.test e.segment_dirty old
            then passed_over (release_lock locked (lock_of old))
            else taken_under locked main_id (lock_of old)) in
      if old == null_segment_index
      then taken_now e main_id
      else (if e.checkpoint_in_progress then during_checkpoint else between_checkpoints)

  -- `while (loop_count < kNumBackSegments)`, by the rounds that are left. When they run out the lock of the
  -- back memory stays taken.
  unfoldable pub allocate_loop : ℕ → NvmInstEngine B → ℕ → NvmInstEngine B
  allocate_loop zero e main_id = e
  allocate_loop (suc n) e main_id =
      let round = allocate_round e main_id in
      let rest = allocate_loop n round.engine main_id in if round.taken then round.engine else rest

  unfoldable pub allocate_back_segment : NvmInstEngine B → ℕ → Outcome (NvmInstEngine B)
  allocate_back_segment e main_id = do
    locked ← acquire_back_lock e
    ok (allocate_loop e.image.nr_back_segments locked main_id)

  -- What the call does once the allocation has returned.
  unfoldable pub found_after : NvmInstEngine B → ℕ → Outcome (Found B)
  found_after e segment_id =
      let back_seg_id = e.image.main_to_back segment_id in
      if back_seg_id == null_segment_index
      then exited
      else ok (record { engine = e; back_id = back_seg_id; created = true })

  unfoldable pub find_back_segment : NvmInstEngine B → ℕ → Outcome (Found B)
  find_back_segment e segment_id =
      let back_seg_id = e.image.main_to_back segment_id in
      if back_seg_id == null_segment_index
      then (do allocated ← allocate_back_segment e segment_id; found_after allocated segment_id)
      else ok (record { engine = e; back_id = back_seg_id; created = false })

  -- The block of the back segment for a block of a main segment.
  unfoldable pub find_back_block : NvmInstEngine B → ℕ → Outcome (Found B)
  find_back_block e block_id = do
    f ← find_back_segment e (block_id / blocks_per_segment)
    ok (record f { back_id = f.back_id * blocks_per_segment + block_id % blocks_per_segment })
