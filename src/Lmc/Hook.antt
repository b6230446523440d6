-- ===== src/Lmc/Hook.antt =====
-- LmcEngine::hook_routine: the shadow copy of a block before it is written.
use libcrpm.Base.{
  ℕ, zero, suc, ◌+◌, ◌-◌, ◌/◌, ◌%◌, true, false, List, [], ◌∷◌, ◌==◌, ltb, if◌then◌else◌, update,
  Outcome, ok, spins, ◌>>=◌,
}
use libcrpm.Constants.{block_size, segment_lock_count}
use libcrpm.Pm.WordArray.{store_at, flush_at}
use libcrpm.Pm.Region
use libcrpm.Pm.Run.{run}
use libcrpm.Buckets
use libcrpm.Lmc.Defs.{LmcEngine, store_fence}

module _ {B : Type 0} where
  unfoldable pub acquire_lock : LmcEngine B → ℕ → Outcome (LmcEngine B)
  acquire_lock e l =
      if e.segment_locks l
      then spins
      else ok (record e { segment_locks = update e.segment_locks l true })

  -- The copy to the shadow state, and the tag.
  abbrev pub shadow_instructions : ℕ → ℕ → List (LmcEngine B → LmcEngine B)
  shadow_instructions epoch block_id =
      (λ e. record e { shadow = Region.nt_store e.shadow block_id (e.working.view block_id) })
      ∷ store_fence
      ∷ (λ e. record e { tagmap = store_at e.tagmap block_id epoch })
      ∷ (λ e. record e { tagmap = flush_at e.tagmap block_id })
      ∷ store_fence
      ∷ []

  -- What is done for a block that has no tag of the epoch, up to the release of the lock and the bucket.
  unfoldable pub copied : LmcEngine B → ℕ → ℕ → ℕ → LmcEngine B
  copied e tid block_id l =
      let c = run (shadow_instructions e.current_epoch.value block_id) e in
      record c {
        checkpoint_traffic = e.checkpoint_traffic + block_size;
        segment_locks = update e.segment_locks l false;
        flush_blocks = Buckets.push e.flush_blocks tid block_id;
      }

  unfoldable pub hook_block : LmcEngine B → ℕ → ℕ → Outcome (LmcEngine B)
  hook_block e tid block_id = do
    let l = block_id % segment_lock_count
    locked ← acquire_lock e l
    let released = record locked { segment_locks = update locked.segment_locks l false }
    ok (
        if (locked.tagmap block_id).value == locked.current_epoch.value
        then released
        else copied locked tid block_id l)

  unfoldable pub hook_routine : LmcEngine B → ℕ → ℕ → Outcome (LmcEngine B)
  hook_routine e tid addr = hook_block e tid ((addr - e.address_first) / block_size)

  -- `for (ptr = delta & ~kBlockMask; ptr < delta + len; ptr += kBlockSize)`, by the rounds that are left.
  unfoldable pub hook_loop : ℕ → LmcEngine B → ℕ → ℕ → ℕ → Outcome (LmcEngine B)
  hook_loop zero e tid ptr end = ok e
  hook_loop (suc n) e tid ptr end =
      (if ltb ptr end then hook_routine e tid (e.address_first + ptr) else ok e) >>= λ hooked.
      hook_loop n hooked tid (ptr + block_size) end

  -- A range of `len` bytes meets at most `len / kBlockSize + 2` blocks.
  unfoldable pub hook_range : LmcEngine B → ℕ → ℕ → ℕ → Outcome (LmcEngine B)
  hook_range e tid addr len =
      let delta = addr - e.address_first in
      hook_loop (len / block_size + 2) e tid (delta - delta % block_size) (delta + len)
