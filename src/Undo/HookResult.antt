-- ===== src/Undo/HookResult.antt =====
-- What UndoLogEngine::hook_routine does, on each branch, and at each point where it may crash.
use libcrpm.Base.{
  ℕ, ◌+◌, ◌<◌, ◌≤◌, ◌≡◌, refl, sym, ◌∙◌, ap, true, false, arith, Returns, Outcome, ok, exited, leb,
  ◌==◌, lt→ltb, ==_refl, Bool-cases, ◌||◌, ◌⊎◌, inl, inr, update,
}
use libcrpm.Constants.{block_size}
use libcrpm.Pm.Region
use libcrpm.Pm.Word
use libcrpm.Pm.Run.{run}
use libcrpm.BitSet
use libcrpm.Buckets
use libcrpm.BitSet.Laws.{test-set}
use libcrpm.Undo.Defs.{UndoLogEngine, log_size, log_entry_size, store_fence}
use libcrpm.Undo.Hook.{
  entry_instructions, publish_instructions, publish, log_block, hook_block, hook_locked,
  acquire_lock, release_lock, lock_of, count_traffic, set_dirty, push_bucket,
}
use libcrpm.Undo.Recover.{Medium, Leaves, recover, reopen}
use libcrpm.Undo.Restore.{IsRestored, recover-IsRestored}
use libcrpm.Undo.Safety.{
  IsLogging, IsSafe, IsLogging-IsSafe, logged_IsLogging, run-Published, Published,
}

module _ {B : Type 0} (snap : ℕ → B) where
  -- A block that is marked already is left alone.
  hook_block-marked :
      (e : UndoLogEngine B) (tid b : ℕ)
      → BitSet.test e.block_dirty b ≡ true
      → hook_block e tid b ≡ ok e
  unfolding hook_block
  hook_block-marked e tid b h = rw h

  hook_block-full :
      (e : UndoLogEngine B) (tid b : ℕ) (l : IsLogging snap e)
      → BitSet.test e.block_dirty b ≡ false
      → e.log_capacity ≤ e.log_head + log_size
      → hook_block e tid b ≡ exited
  unfolding hook_block acquire_lock hook_locked log_block
  hook_block-full e tid b l fresh full = ground (arith, l.unlocked (lock_of b))

  publish_lem :
      (e : UndoLogEngine B) (last : ℕ)
      → e.header_log_head.value ≡ last
      → publish e last ≡ ok (run (publish_instructions last) e)
  unfolding publish
  publish_lem e last h = rw h (rw (lt→ltb last (last + log_size) (omega arith), ==_refl last))

  -- The persistent part of the call, from the engine with the log space reserved and the lock held.
  abbrev pub reserved : UndoLogEngine B → ℕ → UndoLogEngine B
  reserved e b = record e {
    log_head = e.log_head + log_size;
    segment_locks = update e.segment_locks (lock_of b) true;
  }

  abbrev pub written : UndoLogEngine B → ℕ → UndoLogEngine B
  written e b = run (entry_instructions e.log_head b) (reserved e b)

  abbrev pub marked : UndoLogEngine B → ℕ → UndoLogEngine B
  marked e b =
      release_lock
        (set_dirty (count_traffic (run (publish_instructions e.log_head) (written e b))) b)
        (lock_of b)

  -- The engine after a call that logs the block.
  abbrev pub hooked : UndoLogEngine B → ℕ → ℕ → UndoLogEngine B
  hooked e tid b = push_bucket (marked e b) tid b

  written_head :
      (e : UndoLogEngine B) (b : ℕ) → (written e b).header_log_head.value ≡ e.header_log_head.value
  unfolding store_fence Word.fence
  written_head e b = refl

  hook_block-room :
      (e : UndoLogEngine B) (tid b : ℕ) (l : IsLogging snap e)
      → BitSet.test e.block_dirty b ≡ false
      → e.log_head + log_size < e.log_capacity
      → hook_block e tid b ≡ ok (hooked e tid b)
  unfolding hook_block acquire_lock hook_locked log_block
  hook_block-room e tid b l fresh room =
      let same : (written e b).header_log_head.value ≡ e.log_head =
        written_head e b ∙ l.head ∙ sym l.reserved in
      ground (arith, l.unlocked (lock_of b), publish_lem (written e b) e.log_head same)

  push_bucket-IsLogging :
      (e : UndoLogEngine B) (tid b : ℕ) → IsLogging snap e → IsLogging snap (push_bucket e tid b)
  unfolding push_bucket
  push_bucket-IsLogging e tid b l = record {
    ids = l.ids;
    head = l.head;
    head_sure = l.head_sure;
    reserved = l.reserved;
    logged = l.logged;
    kept = l.kept;
    marked = l.marked;
    unlocked = l.unlocked;
  }

  marked-IsLogging :
      (e : UndoLogEngine B) (b : ℕ) (l : IsLogging snap e)
      → BitSet.test e.block_dirty b ≡ false
      → IsLogging snap (marked e b)
  unfolding release_lock set_dirty count_traffic store_fence Word.fence Word.store Word.flush
  marked-IsLogging e b l fresh =
      logged_IsLogging snap e l b fresh (e.log_head + log_size)
        (update e.segment_locks (lock_of b) true) (marked e b)
        (record { entries = k.entries; payloads = k.payloads; heap = k.heap })
        (ap (λ t. t + log_size) l.reserved) refl (ap (λ t. t + log_size) l.reserved) refl
        (λ i. ground (arith, l.unlocked i))
    where
      k :
          Published snap e l b fresh
            (e.log_head + log_size)
            (update e.segment_locks (lock_of b) true)
            (run (publish_instructions e.log_head) (written e b))
      k =
          run-Published snap e l b fresh (e.log_head + log_size)
            (update e.segment_locks (lock_of b) true)

  -- What `hook_block` gives back: the block is marked, no data is changed, at most one record is
  -- added to the log, and a block that was not marked goes into the bucket of the thread.
  pub record IsHooked (tid b : ℕ) (e f : UndoLogEngine B) : Type 0 where
    pub logging : IsLogging snap f
    pub marks : (c : ℕ) → BitSet.test f.block_dirty c ≡ (b == c || BitSet.test e.block_dirty c)
    pub buckets :
        (f.flush_blocks ≡ Buckets.push e.flush_blocks tid b)
        ⊎ ((f.flush_blocks ≡ e.flush_blocks) × (BitSet.test e.block_dirty b ≡ true))
    pub same_data : (c : ℕ) → f.heap.view c ≡ e.heap.view c
    pub same_size : f.nr_blocks ≡ e.nr_blocks
    pub same_capacity : f.log_capacity ≡ e.log_capacity
    pub same_first : f.address_first ≡ e.address_first
    pub one_record : f.log_head ≤ e.log_head + log_size

  pub hooked-IsHooked :
      (e : UndoLogEngine B) (tid b : ℕ) (l : IsLogging snap e)
      → BitSet.test e.block_dirty b ≡ false
      → IsHooked tid b e (hooked e tid b)
  hooked-IsHooked e tid b l fresh = record {
    logging = push_bucket-IsLogging (marked e b) tid b (marked-IsLogging e b l fresh);
    marks =
        unfold push_bucket release_lock set_dirty count_traffic store_fence in
        λ c. test-set e.block_dirty b c;
    buckets = unfold push_bucket release_lock set_dirty count_traffic store_fence in inl refl;
    same_data =
        unfold push_bucket release_lock set_dirty count_traffic store_fence Region.fence in
        λ c. refl;
    same_size = unfold push_bucket release_lock set_dirty count_traffic store_fence in refl;
    same_capacity = unfold push_bucket release_lock set_dirty count_traffic store_fence in refl;
    same_first = unfold push_bucket release_lock set_dirty count_traffic store_fence in refl;
    one_record = unfold push_bucket release_lock set_dirty count_traffic store_fence in omega arith;
  }

  pub hook_block-IsHooked :
      (e : UndoLogEngine B) (tid b : ℕ)
      → IsLogging snap e
      → e.log_head + log_size < e.log_capacity
      → Returns (IsHooked tid b e) (hook_block e tid b)
  hook_block-IsHooked e tid b l room = elim (Bool-cases (BitSet.test e.block_dirty b)) [
    | inl old ↦ rw (hook_block-marked e tid b old) (record {
      logging = l;
      marks = λ c. ground arith;
      buckets = inr (refl, old);
      same_data = λ c. refl;
      same_size = refl;
      same_capacity = refl;
      same_first = refl;
      one_record = omega arith;
    })
    | inr fresh ↦ rw (hook_block-room e tid b l fresh room) (hooked-IsHooked e tid b l fresh)
  ]

  -- After a crash in this state the recovery returns, with the data of the last checkpoint.
  abbrev pub IsRecoverable : UndoLogEngine B → Type 0
  IsRecoverable e = (m : Medium B) → Leaves e m → Returns (IsRestored snap) (recover (reopen m))

  pub IsSafe-IsRecoverable : (e : UndoLogEngine B) → IsSafe snap e → IsRecoverable e
  IsSafe-IsRecoverable e safe m left =
      recover-IsRestored snap e m left (safe m.log_head left.log_head)

  -- Between two calls of the hook, after any stores of the program to blocks that are marked, a
  -- crash loses nothing of the last checkpoint.
  pub IsLogging-IsRecoverable : (e : UndoLogEngine B) → IsLogging snap e → IsRecoverable e
  IsLogging-IsRecoverable e l = IsSafe-IsRecoverable e (IsLogging-IsSafe snap e l)

  -- The ways in which a call may end.
  pub data Hooking (tid b : ℕ) (e : UndoLogEngine B) (r : Outcome (UndoLogEngine B)) : Type 0 where
    had : BitSet.test e.block_dirty b ≡ true → r ≡ ok e → Hooking tid b e r
    no_room :
        BitSet.test e.block_dirty b ≡ false
        → e.log_capacity ≤ e.log_head + log_size
        → r ≡ exited
        → Hooking tid b e r
    logs :
        (f : UndoLogEngine B)
        → BitSet.test e.block_dirty b ≡ false
        → e.log_head + log_size < e.log_capacity
        → IsHooked tid b e f
        → f.log_head ≡ e.log_head + log_size
        → f.flush_blocks ≡ Buckets.push e.flush_blocks tid b
        → f.checkpoint_traffic ≡ e.checkpoint_traffic + (log_entry_size + block_size + 8)
        → r ≡ ok f
        → Hooking tid b e r

  hooked_rest :
      (e : UndoLogEngine B) (tid b : ℕ)
      → ((hooked e tid b).log_head ≡ e.log_head + log_size)
        × ((hooked e tid b).flush_blocks ≡ Buckets.push e.flush_blocks tid b)
        × ((hooked e tid b).checkpoint_traffic
            ≡ e.checkpoint_traffic + (log_entry_size + block_size + 8))
  unfolding push_bucket release_lock set_dirty count_traffic store_fence
  hooked_rest e tid b = (refl, refl, refl)

  -- Between two calls, the hook ends in one of three ways: the block is marked and it returns the
  -- engine as it was; or it is not and the log has no room for one more record, and it ends the
  -- process; or there is room, and it returns in a state between two calls for the same snapshot,
  -- with the block marked and no other mark changed, the same data, a log that is one record
  -- longer, the block pushed to the bucket of the thread and the record counted in the traffic.
  pub hook_block-Hooking :
      (e : UndoLogEngine B) (tid b : ℕ) → IsLogging snap e → Hooking tid b e (hook_block e tid b)
  hook_block-Hooking e tid b l = elim (Bool-cases (BitSet.test e.block_dirty b)) [
    | inl old ↦ had old (hook_block-marked e tid b old)
    | inr fresh ↦ elim (Bool-cases (leb e.log_capacity (e.log_head + log_size))) [
      | inl full ↦
          let none : e.log_capacity ≤ e.log_head + log_size = ground (arith, full) in
          no_room fresh none (hook_block-full e tid b l fresh none)
      | inr some ↦
          let room : e.log_head + log_size < e.log_capacity = ground (arith, some) in
          let rest = hooked_rest e tid b in
          logs (hooked e tid b) fresh room (hooked-IsHooked e tid b l fresh) rest.0 rest.1 rest.2
            (hook_block-room e tid b l fresh room)
    ]
  ]
