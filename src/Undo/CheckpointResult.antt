-- ===== src/Undo/CheckpointResult.antt =====
-- What UndoLogEngine::checkpoint achieves.
use libcrpm.Base.{
  ℕ, ◌*◌, ◌<◌, ◌≡◌, ◌≢◌, ◌⊎◌, inl, inr, refl, sym, ◌∙◌, ap, true, false, List, [], ◌∷◌, length,
  contains, arith, Bool-cases,
}
use libcrpm.Constants.{max_threads, max_flush_blocks}
use libcrpm.Pm.Region.{Region, clean, settled}
use libcrpm.Pm.Region
use libcrpm.Pm.Word.{Word, May, May-sure}
use libcrpm.Pm.Word
use libcrpm.BitSet
use libcrpm.Buckets.{FlushMode, no_action, use_flush_blocks, wbinvd, scan, mode_of}
use libcrpm.Buckets.Laws.{no_action-empty, use_flush_blocks-not_full, length-zero_contains}
use libcrpm.Undo.Defs.{UndoLogEngine, log_size, store_fence}
use libcrpm.Undo.Checkpoint.{
  checkpoint, checkpoint_in, commit, flushed_by, cleared_by, flush_parallel, by_threads,
}
use libcrpm.Undo.Clear.{
  SameButMarks, cleared_by-SameButMarks, cleared_by-bucket, cleared_by-all, cleared_by_stay,
}
use libcrpm.Undo.Flush.{
  by_threads-Still, flushed_by-Still, flushed_by-bucket, flushed_by-all, SameMarks,
  flushed_by-SameMarks,
}
use libcrpm.Undo.HookResult.{IsRecoverable, IsSafe-IsRecoverable}
use libcrpm.Undo.Safety.{IsLogging, Still-IsSafe}

contains-none : (xs : List ℕ) → ((b : ℕ) → contains xs b ≡ false) → xs ≡ []
contains-none [] h = refl
contains-none (x ∷ xs) h = absurd (not_head (h x))
  where
    not_head : contains (x ∷ xs) x ≡ false → ⊥
    not_head e = ground arith

module _ {B : Type 0} where
  -- Each marked block lies in the heap, and is in the bucket of a thread or was dropped by a full one.
  pub record IsTracked (e : UndoLogEngine B) : Type 0 where
    pub in_heap : (b : ℕ) → BitSet.test e.block_dirty b ≡ true → b < e.nr_blocks
    pub in_bucket :
        (b : ℕ)
        → BitSet.test e.block_dirty b ≡ true
        → (i : ℕ) × (i < max_threads)
          × ((contains (e.flush_blocks i) b ≡ true)
              ⊎ (length (e.flush_blocks i) ≡ max_flush_blocks))

  -- The checkpoint keeps the data, which is now what a recovery gives back; no block is marked.
  pub record IsCheckpointed (e f : UndoLogEngine B) : Type 0 where
    pub logging : IsLogging e.heap.view f
    pub tracked : IsTracked f
    pub same_data : (b : ℕ) → f.heap.view b ≡ e.heap.view b
    pub unmarked : (b : ℕ) → BitSet.test f.block_dirty b ≡ false
    pub log_empty : f.log_head ≡ 0
    pub same_size : f.nr_blocks ≡ e.nr_blocks
    pub same_capacity : f.log_capacity ≡ e.log_capacity

  pub unmarked-IsTracked :
      (f : UndoLogEngine B) → ((b : ℕ) → BitSet.test f.block_dirty b ≡ false) → IsTracked f
  unmarked-IsTracked f h = record {
    in_heap = λ b on. let off = h b in cc;
    in_bucket = λ b on. let off = h b in absurd (cc);
  }

  module _ (snap : ℕ → B) (e : UndoLogEngine B) (l : IsLogging snap e) (n : ℕ) where
    -- From an engine between two calls, a crash after the flush phases of any threads, in any mode
    -- and order, leaves a file from which the recovery returns with the data of the last
    -- checkpoint.
    pub flush-crash_safe :
        (mode : FlushMode) (ts : List ℕ)
        → IsRecoverable snap (by_threads (flush_parallel mode n) ts e)
    flush-crash_safe mode ts =
        IsSafe-IsRecoverable snap _ (Still-IsSafe snap e _ l (by_threads-Still mode n _ ts e))

    module _ (t : IsTracked e) (pos : 0 < n) where
      -- After the flush phase of the chosen mode every block is on the medium.
      all_clean :
          (mode : FlushMode)
          → mode_of (scan e.flush_blocks) ≡ mode
          → mode ≢ no_action
          → (b : ℕ) → (flushed_by mode n e).heap.status b ≡ clean
      all_clean no_action m act b = absurd (act refl)
      all_clean wbinvd m act b = flushed_by-all n e b pos
      all_clean use_flush_blocks m act b = elim (Bool-cases (contains l.ids b)) [
        | inl logged ↦
            let (i, lt, where_it_is) = t.in_bucket b (l.marked b ∙ logged) in
            elim where_it_is [
              | inl there ↦ flushed_by-bucket n e i b pos lt there
              | inr full ↦ absurd (use_flush_blocks-not_full e.flush_blocks m i lt full)
            ]
        | inr out ↦ (flushed_by-Still use_flush_blocks n 0 e).keeps.heap.clean b (l.kept b out).1
      ]

      -- After the clearing phase no block is marked.
      all_cleared :
          (mode : FlushMode)
          → mode_of (scan e.flush_blocks) ≡ mode
          → mode ≢ no_action
          → (f : UndoLogEngine B) → SameMarks e f
          → (b : ℕ) → BitSet.test (cleared_by mode n f).block_dirty b ≡ false
      all_cleared no_action m act f s b = absurd (act refl)
      all_cleared wbinvd m act f s b = elim (Bool-cases (BitSet.test f.block_dirty b)) [
        | inl on ↦ cleared_by-all n f b pos (rw s.blocks (t.in_heap b (rw s.marks at on)))
        | inr off ↦ cleared_by_stay wbinvd n f b off
      ]
      all_cleared use_flush_blocks m act f s b = elim (Bool-cases (BitSet.test f.block_dirty b)) [
        | inl on ↦
            let (i, lt, where_it_is) = t.in_bucket b (rw s.marks at on) in
            elim where_it_is [
              | inl there ↦ cleared_by-bucket n f i b pos lt (rw s.buckets there)
              | inr full ↦ absurd (use_flush_blocks-not_full e.flush_blocks m i lt full)
            ]
        | inr off ↦ cleared_by_stay use_flush_blocks n f b off
      ]

      idle-unmarked :
          mode_of (scan e.flush_blocks) ≡ no_action → (b : ℕ) → BitSet.test e.block_dirty b ≡ false
      idle-unmarked m b = elim (Bool-cases (BitSet.test e.block_dirty b)) [
        | inr off ↦ off
        | inl on ↦
            let (i, lt, where_it_is) = t.in_bucket b on in
            let none_there = no_action-empty e.flush_blocks m i lt in
            elim where_it_is [
              | inl there ↦ let out = length-zero_contains (e.flush_blocks i) b none_there in cc
              | inr full ↦ absurd (omega arith)
            ]
      ]

      idle-IsCheckpointed : mode_of (scan e.flush_blocks) ≡ no_action → IsCheckpointed e e
      idle-IsCheckpointed m = record {
        logging = record {
          ids = [];
          head = l.head ∙ ap (λ xs. log_size * length xs) none;
          head_sure = l.head_sure;
          reserved = l.reserved ∙ ap (λ xs. log_size * length xs) none;
          logged = tt;
          kept = λ b out. (refl, (l.kept b (out_of_log b)).1);
          marked = idle-unmarked m;
          unlocked = l.unlocked;
        };
        tracked = t;
        same_data = λ b. refl;
        unmarked = idle-unmarked m;
        log_empty = l.reserved ∙ ap (λ xs. log_size * length xs) none ∙ omega arith;
        same_size = refl;
        same_capacity = refl;
      }
        where
          out_of_log : (b : ℕ) → contains l.ids b ≡ false
          out_of_log b = sym (l.marked b) ∙ idle-unmarked m b

          none : l.ids ≡ []
          none = contains-none l.ids out_of_log

      module _ (mode : FlushMode) (m : mode_of (scan e.flush_blocks) ≡ mode)
          (act : mode ≢ no_action) where
        abbrev pub cleared : UndoLogEngine B
        cleared = cleared_by mode n (flushed_by mode n e)

        pub same : SameButMarks (flushed_by mode n e) cleared
        same = cleared_by-SameButMarks mode n (flushed_by mode n e)

        pub cleared_view : (b : ℕ) → cleared.heap.view b ≡ e.heap.view b
        cleared_view b = rw same.heap ((flushed_by-Still mode n 0 e).keeps.heap.view b)

        pub cleared_clean : (b : ℕ) → cleared.heap.status b ≡ clean
        cleared_clean b = rw same.heap (all_clean mode m act b)

        cleared_unmarked : (b : ℕ) → BitSet.test cleared.block_dirty b ≡ false
        cleared_unmarked =
            all_cleared mode m act (flushed_by mode n e) (flushed_by-SameMarks mode n e)

        commit-IsCheckpointed : IsCheckpointed e (commit cleared)
        unfolding commit store_fence Region.fence Word.fence Word.nt_store
        commit-IsCheckpointed = record {
          logging = record {
            ids = [];
            head = omega arith;
            head_sure = refl;
            reserved = omega arith;
            logged = tt;
            kept = λ b out. (cleared_view b, ap settled (cleared_clean b));
            marked = cleared_unmarked;
            unlocked = λ k. rw (same.locks, (flushed_by-SameMarks mode n e).locks) (l.unlocked k);
          };
          tracked = unmarked-IsTracked _ cleared_unmarked;
          same_data = cleared_view;
          unmarked = cleared_unmarked;
          log_empty = refl;
          same_size = same.blocks ∙ (flushed_by-SameMarks mode n e).blocks;
          same_capacity = same.capacity ∙ (flushed_by-SameMarks mode n e).capacity;
        }

      -- From an engine between two calls whose marked blocks are all in a bucket or dropped by a
      -- full one, a checkpoint by at least one thread keeps the data, the size and the capacity,
      -- leaves an empty log and no block marked, and puts the engine in the state between two calls
      -- for the data that the checkpoint found.
      pub checkpoint-IsCheckpointed : IsCheckpointed e (checkpoint e n)
      unfolding checkpoint
      checkpoint-IsCheckpointed = by_mode (mode_of (scan e.flush_blocks)) refl
        where
          by_mode :
              (mode : FlushMode)
              → mode_of (scan e.flush_blocks) ≡ mode
              → IsCheckpointed e (checkpoint_in mode e n)
          by_mode no_action m = unfold checkpoint_in in idle-IsCheckpointed m
          by_mode use_flush_blocks m =
              unfold checkpoint_in in commit-IsCheckpointed use_flush_blocks m (λ p. cc)
          by_mode wbinvd m = unfold checkpoint_in in commit-IsCheckpointed wbinvd m (λ p. cc)
