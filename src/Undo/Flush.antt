-- ===== src/Undo/Flush.antt =====
-- The flush phase of a checkpoint brings every block of the heap to the medium.
use libcrpm.Base.{
  ℕ, zero, suc, ◌%◌, ◌<◌, ◌≡◌, inl, inr, refl, ◌∙◌, ap, true, List, [], ◌∷◌, ◌==◌, contains, arith,
  Bool-cases, ==_iff,
}
use native.Mathlib.Nat.{mod-lt}
use libcrpm.Constants.{max_threads}
use libcrpm.Pm.Region.{Region, clean, flushed}
use libcrpm.Pm.Region
use libcrpm.Pm.Word
use libcrpm.Buckets.{
  FlushMode, no_action, use_flush_blocks, wbinvd, threads, in_buckets, flush_buckets,
}
use libcrpm.Buckets.Laws.{strided-mod, threads-covers, in_buckets-member}
use libcrpm.Buckets.Flushing.{
  flush_buckets-view, flush_buckets-dirty, flush_buckets-clean, fence-clean, write_back_all-dirty,
}
use libcrpm.Undo.Defs.{UndoLogEngine, store_fence}
use libcrpm.Undo.Checkpoint.{flush_parallel, by_threads, served, write_back_cache, flushed_by}
use libcrpm.Undo.Keeps.{
  KeepsAll, KeepsRegion-refl, Still, Still-refl, Still-trans, store_fence-Still,
}

module _ {B : Type 0} where
  heap-Still :
      (end : ℕ) (e : UndoLogEngine B) (h : Region B)
      → KeepsAll e.heap h
      → Still end e (record e { heap = h })
  heap-Still end e h k = record {
    keeps = record {
      entries = KeepsRegion-refl end e.entries;
      payloads = KeepsRegion-refl end e.payloads;
      heap = k;
    };
    head = refl;
    sure = λ o. o;
  }

  write_back_cache-Still : (end : ℕ) (e : UndoLogEngine B) → Still end e (write_back_cache e)
  unfolding write_back_cache Region.write_back_all Word.flush
  write_back_cache-Still end e = record {
    keeps = record {
      entries = record { view = λ o lt. refl; clean = λ o lt h. ap flushed h };
      payloads = record { view = λ o lt. refl; clean = λ o lt h. ap flushed h };
      heap = record { view = λ o. refl; clean = λ o h. ap flushed h };
    };
    head = refl;
    sure = λ o. o;
  }

  buckets-Still :
      (end : ℕ) (e : UndoLogEngine B) (is : List ℕ)
      → Still end e (store_fence (record e { heap = flush_buckets e.heap e.flush_blocks is }))
  buckets-Still end e is =
      Still-trans end e (record e { heap = flush_buckets e.heap e.flush_blocks is }) _
        (heap-Still end e _ (record {
          view = flush_buckets-view is e.flush_blocks e.heap;
          clean = flush_buckets-clean is e.flush_blocks e.heap;
        }))
        (store_fence-Still end (record e { heap = flush_buckets e.heap e.flush_blocks is }))

  -- One thread's flush changes no data, and makes no clean block dirty.
  flush_parallel-Still :
      (mode : FlushMode) (n end : ℕ) (e : UndoLogEngine B) (t : ℕ)
      → Still end e (flush_parallel mode n e t)
  unfolding flush_parallel
  flush_parallel-Still wbinvd n end e t = elim (Bool-cases (t == 0)) [
    | inl leader ↦ rw leader (
        Still-trans end e (write_back_cache e) _ (write_back_cache-Still end e)
          (store_fence-Still end (write_back_cache e)))
    | inr other ↦ rw other (store_fence-Still end e)
  ]
  flush_parallel-Still no_action n end e t = buckets-Still end e (served t n)
  flush_parallel-Still use_flush_blocks n end e t = buckets-Still end e (served t n)

  pub by_threads-Still :
      (mode : FlushMode) (n end : ℕ) (ts : List ℕ) (e : UndoLogEngine B)
      → Still end e (by_threads (flush_parallel mode n) ts e)
  by_threads-Still mode n end [] e = Still-refl end e
  by_threads-Still mode n end (t ∷ ts) e =
      Still-trans end e (flush_parallel mode n e t) _ (flush_parallel-Still mode n end e t)
        (by_threads-Still mode n end ts (flush_parallel mode n e t))

  -- A block is clean after the phase if it is after the flush of one of the threads.
  later_clean :
      (mode : FlushMode) (n : ℕ) (ts : List ℕ) (e : UndoLogEngine B) (b : ℕ)
      → e.heap.status b ≡ clean
      → (by_threads (flush_parallel mode n) ts e).heap.status b ≡ clean
  later_clean mode n ts e b h = (by_threads-Still mode n 0 ts e).keeps.heap.clean b h

  flush_served :
      (n t i b : ℕ) (e : UndoLogEngine B)
      → contains (served t n) i ≡ true
      → contains (e.flush_blocks i) b ≡ true
      → (flush_parallel use_flush_blocks n e t).heap.status b ≡ clean
  unfolding flush_parallel store_fence
  flush_served n t i b e s m =
      let found : in_buckets e.flush_blocks (served t n) b ≡ true =
        in_buckets-member e.flush_blocks (served t n) i b s m in
      fence-clean (flush_buckets e.heap e.flush_blocks (served t n)) b
        (flush_buckets-dirty (served t n) e.flush_blocks e.heap b ∙ rw found)

  same_buckets :
      (n t : ℕ) (e : UndoLogEngine B)
      → (flush_parallel use_flush_blocks n e t).flush_blocks ≡ e.flush_blocks
  unfolding flush_parallel store_fence
  same_buckets n t e = refl

  bucket_clean :
      (n : ℕ) (ts : List ℕ) (e : UndoLogEngine B) (t i b : ℕ)
      → contains ts t ≡ true
      → contains (served t n) i ≡ true
      → contains (e.flush_blocks i) b ≡ true
      → (by_threads (flush_parallel use_flush_blocks n) ts e).heap.status b ≡ clean
  bucket_clean n [] e t i b mt s m = cc
  bucket_clean n (u ∷ ts) e t i b mt s m = elim (Bool-cases (u == t)) [
    | inl here ↦
        let same : u ≡ t = (==_iff u t).0 here in
        later_clean use_flush_blocks n ts (flush_parallel use_flush_blocks n e u) b
          (flush_served n u i b e (rw same s) m)
    | inr later ↦
        bucket_clean n ts (flush_parallel use_flush_blocks n e u) t i b (ground arith) s
          (rw (same_buckets n u e) m)
  ]

  -- In the mode of the buckets each block of a bucket is clean after the phase.
  pub flushed_by-bucket :
      (n : ℕ) (e : UndoLogEngine B) (i b : ℕ)
      → 0 < n
      → i < max_threads
      → contains (e.flush_blocks i) b ≡ true
      → (flushed_by use_flush_blocks n e).heap.status b ≡ clean
  unfolding flushed_by
  flushed_by-bucket n e i b pos lt m =
      bucket_clean n (threads n 0) e (i % n) i b
        (threads-covers n 0 (i % n) (omega arith) (omega (arith, mod-lt i pos)))
        (strided-mod n i max_threads pos lt) m

  -- In the mode of the whole cache each block is clean after the phase.
  pub flushed_by-all :
      (n : ℕ) (e : UndoLogEngine B) (b : ℕ) → 0 < n → (flushed_by wbinvd n e).heap.status b ≡ clean
  unfolding flushed_by threads flush_parallel store_fence write_back_cache
  flushed_by-all zero e b pos = absurd (omega arith)
  flushed_by-all (suc n) e b pos =
      later_clean wbinvd (suc n) (threads n 1) (flush_parallel wbinvd (suc n) e 0) b
        (fence-clean (Region.write_back_all e.heap) b (write_back_all-dirty e.heap b))

  pub flushed_by-Still :
      (mode : FlushMode) (n end : ℕ) (e : UndoLogEngine B) → Still end e (flushed_by mode n e)
  unfolding flushed_by
  flushed_by-Still mode n end e = by_threads-Still mode n end (threads n 0) e

  -- The phase touches nothing that the processor alone keeps.
  pub record SameMarks (e f : UndoLogEngine B) : Type 0 where
    pub marks : f.block_dirty ≡ e.block_dirty
    pub buckets : f.flush_blocks ≡ e.flush_blocks
    pub locks : f.segment_locks ≡ e.segment_locks
    pub blocks : f.nr_blocks ≡ e.nr_blocks
    pub capacity : f.log_capacity ≡ e.log_capacity

  flush-SameMarks :
      (mode : FlushMode) (n : ℕ) (e f : UndoLogEngine B) (t : ℕ)
      → SameMarks e f
      → SameMarks e (flush_parallel mode n f t)
  unfolding flush_parallel store_fence write_back_cache
  flush-SameMarks wbinvd n e f t s = elim (Bool-cases (t == 0)) [
    | inl leader ↦ rw leader (record {
      marks = s.marks;
      buckets = s.buckets;
      locks = s.locks;
      blocks = s.blocks;
      capacity = s.capacity;
    })
    | inr other ↦ rw other (record {
      marks = s.marks;
      buckets = s.buckets;
      locks = s.locks;
      blocks = s.blocks;
      capacity = s.capacity;
    })
  ]
  flush-SameMarks no_action n e f t s = record {
    marks = s.marks;
    buckets = s.buckets;
    locks = s.locks;
    blocks = s.blocks;
    capacity = s.capacity;
  }
  flush-SameMarks use_flush_blocks n e f t s = record {
    marks = s.marks;
    buckets = s.buckets;
    locks = s.locks;
    blocks = s.blocks;
    capacity = s.capacity;
  }

  by_threads-SameMarks :
      (mode : FlushMode) (n : ℕ) (ts : List ℕ) (e f : UndoLogEngine B)
      → SameMarks e f
      → SameMarks e (by_threads (flush_parallel mode n) ts f)
  by_threads-SameMarks mode n [] e f s = s
  by_threads-SameMarks mode n (t ∷ ts) e f s =
      by_threads-SameMarks mode n ts e (flush_parallel mode n f t) (flush-SameMarks mode n e f t s)

  pub flushed_by-SameMarks :
      (mode : FlushMode) (n : ℕ) (e : UndoLogEngine B) → SameMarks e (flushed_by mode n e)
  unfolding flushed_by
  flushed_by-SameMarks mode n e =
      by_threads-SameMarks mode n (threads n 0) e e
        (record { marks = refl; buckets = refl; locks = refl; blocks = refl; capacity = refl })
