-- ===== src/Lmc/Checkpoint.antt =====
-- LmcEngine::checkpoint. The barriers make of the threads' phases a sequence.
use libcrpm.Base.{ℕ, true, List, [], ◌∷◌, ◌==◌, if◌then◌else◌}
use libcrpm.Constants.{max_threads}
use libcrpm.Pm.Word
use libcrpm.Pm.Region
use libcrpm.Buckets.{
  FlushMode, no_action, wbinvd, scan, mode_of, threads, strided, empty_buckets, flush_buckets,
}
use libcrpm.Lmc.Defs.{LmcEngine, store_fence, advance_current_epoch}

-- kAttributeHasSnapshot of this engine.
abbrev pub attribute_has_snapshot : ℕ
attribute_has_snapshot = 16

module _ {B : Type 0} where
  -- `WriteBackAndInvalidate()`.
  unfoldable pub write_back_cache : LmcEngine B → LmcEngine B
  write_back_cache e = record e {
    attributes = Word.flush e.attributes;
    current_epoch = Word.flush e.current_epoch;
    tagmap = λ i. Word.flush (e.tagmap i);
    working = Region.write_back_all e.working;
    shadow = Region.write_back_all e.shadow;
  }

  unfoldable pub flush_parallel : FlushMode → ℕ → LmcEngine B → ℕ → LmcEngine B
  flush_parallel wbinvd nr_threads e tid = store_fence (if tid == 0 then write_back_cache e else e)
  flush_parallel _ nr_threads e tid = store_fence (record e {
    working =
        flush_buckets e.working e.flush_blocks (strided max_threads tid nr_threads max_threads);
  })

  unfoldable pub flushed_by : FlushMode → ℕ → List ℕ → LmcEngine B → LmcEngine B
  flushed_by mode nr_threads [] e = e
  flushed_by mode nr_threads (t ∷ ts) e =
      flushed_by mode nr_threads ts (flush_parallel mode nr_threads e t)

  unfoldable pub set_snapshot : LmcEngine B → LmcEngine B
  set_snapshot e =
      let stored = record e { attributes = Word.nt_store e.attributes attribute_has_snapshot } in
      if e.has_snapshot then e else record (store_fence stored) { has_snapshot = true }

  -- What the leader does once the blocks are flushed.
  unfoldable pub commit : LmcEngine B → LmcEngine B
  commit e =
      let advanced = advance_current_epoch (set_snapshot (record e { next_thread_id = 0 })) in
      record advanced { flush_blocks = empty_buckets advanced.flush_blocks (threads max_threads 0) }

  unfoldable pub checkpoint_in : FlushMode → LmcEngine B → ℕ → LmcEngine B
  checkpoint_in no_action e nr_threads = record e { flush_mode = no_action; next_thread_id = 0 }
  checkpoint_in mode e nr_threads =
      commit (flushed_by mode nr_threads (threads nr_threads 0) (record e { flush_mode = mode }))

  unfoldable pub checkpoint : LmcEngine B → ℕ → LmcEngine B
  checkpoint e nr_threads = checkpoint_in (mode_of (scan e.flush_blocks)) e nr_threads
