-- ===== src/Undo/Checkpoint.antt =====
-- UndoLogEngine::checkpoint. The barriers make of the threads' phases a sequence: what the leader
-- decides, the flush of each thread, the clearing of each thread, what the leader commits.
use libcrpm.Base.{ℕ, ◌*◌, true, List, [], ◌∷◌, ◌==◌, if◌then◌else◌}
use libcrpm.Constants.{max_threads, attribute_has_snapshot}
use libcrpm.Pm.Region
use libcrpm.Pm.Word
use libcrpm.Pm.Run.{run}
use libcrpm.BitSet
use libcrpm.BitSet.{BitSet}
use libcrpm.Buckets.{
  FlushMode, no_action, wbinvd, scan, mode_of, strided, threads, empty_buckets, flush_buckets,
  BlockLists,
}
use libcrpm.Undo.Defs.{UndoLogEngine, store_fence}

-- `block_dirty.clear_all(id)` for each id.
unfoldable pub clear_words : BitSet → List ℕ → BitSet
clear_words s [] = s
clear_words s (i ∷ is) = clear_words (BitSet.clear_all s i) is

unfoldable pub clear_buckets : BitSet → BlockLists → List ℕ → BitSet
clear_buckets s fb [] = s
clear_buckets s fb (i ∷ is) = clear_buckets (clear_words s (fb i)) fb is

-- The thread ids whose buckets the thread `tid` of `nr_threads` serves.
abbrev pub served : ℕ → ℕ → List ℕ
served tid nr_threads = strided max_threads tid nr_threads max_threads

module _ {B : Type 0} where
  unfoldable pub write_back_cache : UndoLogEngine B → UndoLogEngine B
  write_back_cache e = record e {
    attributes = Word.flush e.attributes;
    header_log_head = Word.flush e.header_log_head;
    heap = Region.write_back_all e.heap;
    entries = Region.write_back_all e.entries;
    payloads = Region.write_back_all e.payloads;
  }

  unfoldable pub flush_parallel : FlushMode → ℕ → UndoLogEngine B → ℕ → UndoLogEngine B
  flush_parallel wbinvd nr_threads e tid = store_fence (if tid == 0 then write_back_cache e else e)
  flush_parallel _ nr_threads e tid =
      store_fence (record e { heap = flush_buckets e.heap e.flush_blocks (served tid nr_threads) })

  unfoldable pub clear_dirty_bits_parallel : FlushMode → ℕ → UndoLogEngine B → ℕ → UndoLogEngine B
  clear_dirty_bits_parallel wbinvd nr_threads e tid = record e {
    block_dirty =
        clear_words e.block_dirty (strided e.nr_blocks (tid * 64) (nr_threads * 64) e.nr_blocks);
    flush_blocks = empty_buckets e.flush_blocks (served tid nr_threads);
  }
  clear_dirty_bits_parallel _ nr_threads e tid = record e {
    block_dirty = clear_buckets e.block_dirty e.flush_blocks (served tid nr_threads);
    flush_blocks = empty_buckets e.flush_blocks (served tid nr_threads);
  }

  -- A phase, run by each thread of the list.
  abbrev pub by_threads :
      (UndoLogEngine B → ℕ → UndoLogEngine B) → List ℕ → UndoLogEngine B → UndoLogEngine B
  by_threads phase [] e = e
  by_threads phase (t ∷ ts) e = by_threads phase ts (phase e t)

  -- What the leader stores: the attribute if there was no snapshot, and the empty log.
  abbrev pub commit_instructions : List (UndoLogEngine B → UndoLogEngine B)
  commit_instructions =
      (λ e. record e {
        attributes =
            if e.has_snapshot
            then e.attributes
            else Word.nt_store e.attributes attribute_has_snapshot;
        has_snapshot = true;
      })
      ∷ (λ e. record e { header_log_head = Word.nt_store e.header_log_head 0 })
      ∷ store_fence
      ∷ []

  unfoldable pub commit : UndoLogEngine B → UndoLogEngine B
  commit e = record (run commit_instructions e) { log_head = 0 }

  unfoldable pub flushed_by : FlushMode → ℕ → UndoLogEngine B → UndoLogEngine B
  flushed_by mode nr_threads e =
      by_threads (flush_parallel mode nr_threads) (threads nr_threads 0) e

  unfoldable pub cleared_by : FlushMode → ℕ → UndoLogEngine B → UndoLogEngine B
  cleared_by mode nr_threads e =
      by_threads (clear_dirty_bits_parallel mode nr_threads) (threads nr_threads 0) e

  unfoldable pub checkpoint_in : FlushMode → UndoLogEngine B → ℕ → UndoLogEngine B
  checkpoint_in no_action e nr_threads = e
  checkpoint_in mode e nr_threads =
      commit (cleared_by mode nr_threads (flushed_by mode nr_threads e))

  unfoldable pub checkpoint : UndoLogEngine B → ℕ → UndoLogEngine B
  checkpoint e nr_threads = checkpoint_in (mode_of (scan e.flush_blocks)) e nr_threads
