-- ===== src/Undo/Hook.antt =====
-- UndoLogEngine::hook_routine: the content that a block had at the last checkpoint goes to the log
-- before the program writes to the block.
use libcrpm.Base.{
  ℕ, zero, suc, ◌+◌, ◌-◌, ◌*◌, ◌/◌, ◌%◌, true, false, List, [], ◌∷◌, ltb, leb, ◌==◌, if◌then◌else◌,
  update, Outcome, ok, exited, spins, ◌>>=◌,
}
use libcrpm.Constants.{block_size, segment_lock_count}
use libcrpm.Pm.Region
use libcrpm.Pm.Word
use libcrpm.Pm.Run.{run}
use libcrpm.BitSet
use libcrpm.Buckets
use libcrpm.Undo.Defs.{
  UndoLogEngine, LogEntry, store_fence, log_entry_magic, log_entry_size, log_size,
}

abbrev pub entry_of : ℕ → LogEntry
entry_of block_id = record {
  magic = log_entry_magic;
  offset = block_id * block_size;
  size = block_size;
}

-- `block_id & (kSegmentLocks - 1)`.
unfoldable pub lock_of : ℕ → ℕ
lock_of block_id = block_id % segment_lock_count

module _ {B : Type 0} where
  -- The entry's fields, `Flush(entry)`, the copy of the block into the payload, `StoreFence()`.
  abbrev pub entry_instructions : ℕ → ℕ → List (UndoLogEngine B → UndoLogEngine B)
  entry_instructions last block_id =
      (λ e. record e { entries = Region.store e.entries last (entry_of block_id) })
      ∷ (λ e. record e { entries = Region.flush e.entries last })
      ∷ (λ e. record e {
        payloads =
            Region.nt_store e.payloads last (e.heap.view ((entry_of block_id).offset / block_size));
      })
      ∷ store_fence
      ∷ []

  -- The compare-and-swap of `header->log_head` that succeeds, its `Flush` and `StoreFence()`.
  abbrev pub publish_instructions : ℕ → List (UndoLogEngine B → UndoLogEngine B)
  publish_instructions last =
      (λ e. record e { header_log_head = Word.store e.header_log_head (last + log_size) })
      ∷ (λ e. record e { header_log_head = Word.flush e.header_log_head })
      ∷ store_fence
      ∷ []

  -- The loop around the compare-and-swap. With one thread nothing else moves the word.
  unfoldable pub publish : UndoLogEngine B → ℕ → Outcome (UndoLogEngine B)
  publish e last =
      if ltb e.header_log_head.value (last + log_size)
      then (if e.header_log_head.value == last
          then ok (run (publish_instructions last) e)
          else spins)
      else ok e

  -- `log_head.fetch_add(log_size)` comes before the test of the capacity.
  unfoldable pub log_block : UndoLogEngine B → ℕ → Outcome (UndoLogEngine B)
  log_block e block_id =
      let last = e.log_head in
      let reserved = record e { log_head = last + log_size } in
      if leb e.log_capacity (last + log_size)
      then exited
      else publish (run (entry_instructions last block_id) reserved) last

  -- AcquireLock spins while the flag is set.
  unfoldable pub acquire_lock : UndoLogEngine B → ℕ → Outcome (UndoLogEngine B)
  acquire_lock e l =
      if e.segment_locks l
      then spins
      else ok (record e { segment_locks = update e.segment_locks l true })

  unfoldable pub release_lock : UndoLogEngine B → ℕ → UndoLogEngine B
  release_lock e l = record e { segment_locks = update e.segment_locks l false }

  unfoldable pub count_traffic : UndoLogEngine B → UndoLogEngine B
  count_traffic e = record e {
    checkpoint_traffic = e.checkpoint_traffic + (log_entry_size + block_size + 8);
  }

  unfoldable pub set_dirty : UndoLogEngine B → ℕ → UndoLogEngine B
  set_dirty e block_id = record e { block_dirty = BitSet.set e.block_dirty block_id }

  -- A bucket that is full drops the block: the checkpoint then writes back the whole cache.
  unfoldable pub push_bucket : UndoLogEngine B → ℕ → ℕ → UndoLogEngine B
  push_bucket e tid block_id = record e { flush_blocks = Buckets.push e.flush_blocks tid block_id }

  -- What the call does once it holds the lock of the block.
  unfoldable pub hook_locked : UndoLogEngine B → ℕ → ℕ → Outcome (UndoLogEngine B)
  hook_locked e tid block_id =
      if BitSet.test e.block_dirty block_id then ok (release_lock e (lock_of block_id)) else do
        logged ← log_block e block_id
        let marked = set_dirty (count_traffic logged) block_id
        ok (push_bucket (release_lock marked (lock_of block_id)) tid block_id)

  -- `hook_routine(addr)` past the computation of `block_id`, for the thread `tid`.
  unfoldable pub hook_block : UndoLogEngine B → ℕ → ℕ → Outcome (UndoLogEngine B)
  hook_block e tid block_id =
      if BitSet.test e.block_dirty block_id
      then ok e
      else do locked ← acquire_lock e (lock_of block_id); hook_locked locked tid block_id

  unfoldable pub hook_routine : UndoLogEngine B → ℕ → ℕ → Outcome (UndoLogEngine B)
  hook_routine e tid addr = hook_block e tid ((addr - e.address_first) / block_size)

  -- `for (ptr = delta & ~kBlockMask; ptr < delta + len; ptr += kBlockSize)`.
  unfoldable pub hook_loop : ℕ → UndoLogEngine B → ℕ → ℕ → ℕ → Outcome (UndoLogEngine B)
  hook_loop zero e tid ptr end = spins
  hook_loop (suc fuel) e tid ptr end =
      let rest = λ (e' : UndoLogEngine B). hook_loop fuel e' tid (ptr + block_size) end in
      if ltb ptr end then hook_routine e tid (e.address_first + ptr) >>= rest else ok e

  -- `hook_routine(addr, len)`; a range of `len` bytes meets at most `len / kBlockSize + 2` blocks.
  unfoldable pub hook_range : UndoLogEngine B → ℕ → ℕ → ℕ → Outcome (UndoLogEngine B)
  hook_range e tid addr len =
      let delta = addr - e.address_first in
      hook_loop (suc (len / block_size + 2)) e tid (delta - delta % block_size) (delta + len)
