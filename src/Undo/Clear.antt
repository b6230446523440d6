-- ===== src/Undo/Clear.antt =====
-- The clearing phase of a checkpoint leaves no block marked and no bucket with a block in it.
use libcrpm.Base.{
  ℕ, ◌+◌, ◌*◌, ◌/◌, ◌%◌, ◌<◌, ◌≤◌, ◌≡◌, inl, inr, refl, ap, true, false, List, [], ◌∷◌, ◌==◌,
  contains, arith, Bool-cases, ==_iff, subst,
}
use native.Mathlib.Nat.{mod-lt, mod-add-div', div-le_self}
use libcrpm.Constants.{max_threads}
use libcrpm.BitSet
use libcrpm.BitSet.{BitSet}
use libcrpm.BitSet.Laws.{test-clear_all}
use libcrpm.Buckets.{FlushMode, no_action, use_flush_blocks, wbinvd, threads, strided, BlockLists}
use libcrpm.Buckets.Laws.{
  strided-mod, strided_covers, threads-covers, empty_buckets-other, empty_buckets-hit,
  empty_buckets_stay,
}
use libcrpm.Undo.Defs.{UndoLogEngine}
use libcrpm.Undo.Checkpoint.{
  clear_words, clear_buckets, clear_dirty_bits_parallel, by_threads, served, cleared_by,
}

-- A clear sets no bit.
clear_words_stay :
    (s : BitSet) (is : List ℕ) (j : ℕ)
    → BitSet.test s j ≡ false
    → BitSet.test (clear_words s is) j ≡ false
unfolding clear_words
clear_words_stay s [] j h = h
clear_words_stay s (i ∷ is) j h =
    clear_words_stay (BitSet.clear_all s i) is j (ground (arith, test-clear_all s i j))

clear_words-hit :
    (s : BitSet) (is : List ℕ) (i j : ℕ)
    → contains is i ≡ true
    → i / 64 ≡ j / 64
    → BitSet.test (clear_words s is) j ≡ false
unfolding clear_words
clear_words-hit s [] i j m w = cc
clear_words-hit s (k ∷ is) i j m w = elim (Bool-cases (k == i)) [
  | inl here ↦ clear_words_stay (BitSet.clear_all s k) is j (ground (arith, test-clear_all s k j))
  | inr later ↦ clear_words-hit (BitSet.clear_all s k) is i j (ground arith) w
]

clear_buckets_stay :
    (s : BitSet) (fb : BlockLists) (is : List ℕ) (j : ℕ)
    → BitSet.test s j ≡ false
    → BitSet.test (clear_buckets s fb is) j ≡ false
unfolding clear_buckets
clear_buckets_stay s fb [] j h = h
clear_buckets_stay s fb (i ∷ is) j h =
    clear_buckets_stay (clear_words s (fb i)) fb is j (clear_words_stay s (fb i) j h)

clear_buckets-hit :
    (s : BitSet) (fb : BlockLists) (is : List ℕ) (i j : ℕ)
    → contains is i ≡ true
    → contains (fb i) j ≡ true
    → BitSet.test (clear_buckets s fb is) j ≡ false
unfolding clear_buckets
clear_buckets-hit s fb [] i j m h = cc
clear_buckets-hit s fb (k ∷ is) i j m h = elim (Bool-cases (k == i)) [
  | inl here ↦
      let same : k ≡ i = (==_iff k i).0 here in
      clear_buckets_stay (clear_words s (fb k)) fb is j
        (clear_words-hit s (fb k) j j (rw same h) refl)
  | inr later ↦ clear_buckets-hit (clear_words s (fb k)) fb is i j (ground arith) h
]

-- The thread `(j / 64) % n` clears the word of block `j`.
word_visited :
    (n j bound : ℕ)
    → j < bound
    → contains (strided bound (j / 64 % n * 64) (n * 64) bound) (j / 64 * 64) ≡ true
word_visited n j bound lt =
    let w : ℕ = j / 64 in
    let e : w % n + w / n * n ≡ w = mod-add-div' w n in
    let at : w % n * 64 + w / n * (n * 64) ≡ w * 64 = omega (arith, ap (λ (t : ℕ). t * 64) e) in
    let le : w / n ≤ w = div-le_self w n in
    subst (λ y. contains (strided bound (w % n * 64) (n * 64) bound) y ≡ true) at
      (strided_covers (w / n) bound (w % n * 64) (n * 64) bound (omega arith) (rw at (omega arith)))

module _ {B : Type 0} where
  clear_stay :
      (mode : FlushMode) (n : ℕ) (ts : List ℕ) (e : UndoLogEngine B) (j : ℕ)
      → BitSet.test e.block_dirty j ≡ false
      → BitSet.test (by_threads (clear_dirty_bits_parallel mode n) ts e).block_dirty j ≡ false
  unfolding clear_dirty_bits_parallel
  clear_stay mode n [] e j h = h
  clear_stay wbinvd n (t ∷ ts) e j h =
      clear_stay wbinvd n ts _ j (clear_words_stay e.block_dirty _ j h)
  clear_stay no_action n (t ∷ ts) e j h =
      clear_stay no_action n ts _ j
        (clear_buckets_stay e.block_dirty e.flush_blocks (served t n) j h)
  clear_stay use_flush_blocks n (t ∷ ts) e j h =
      clear_stay use_flush_blocks n ts _ j
        (clear_buckets_stay e.block_dirty e.flush_blocks (served t n) j h)

  -- A block of a bucket is no longer marked once the thread that serves the bucket has run.
  clear_bucket :
      (n : ℕ) (ts : List ℕ) (e : UndoLogEngine B) (t i j : ℕ)
      → contains ts t ≡ true
      → contains (served t n) i ≡ true
      → contains (e.flush_blocks i) j ≡ true
      → BitSet.test (by_threads (clear_dirty_bits_parallel use_flush_blocks n) ts e).block_dirty j
        ≡ false
  unfolding clear_dirty_bits_parallel
  clear_bucket n [] e t i j mt s m = cc
  clear_bucket n (u ∷ ts) e t i j mt s m = elim (Bool-cases (contains (served u n) i)) [
    | inl now ↦
        clear_stay use_flush_blocks n ts _ j
          (clear_buckets-hit e.block_dirty e.flush_blocks (served u n) i j now m)
    | inr not_now ↦ elim (Bool-cases (u == t)) [
      | inl here ↦
          let same : u ≡ t = (==_iff u t).0 here in
          let found : contains (served u n) i ≡ true = rw same s in cc
      | inr later ↦
          clear_bucket n ts _ t i j (ground arith) s
            (rw (empty_buckets-other e.flush_blocks (served u n) i not_now) m)
    ]
  ]

  clear_all_words :
      (n : ℕ) (ts : List ℕ) (e : UndoLogEngine B) (t i j : ℕ)
      → contains ts t ≡ true
      → contains (strided e.nr_blocks (t * 64) (n * 64) e.nr_blocks) i ≡ true
      → i / 64 ≡ j / 64
      → BitSet.test (by_threads (clear_dirty_bits_parallel wbinvd n) ts e).block_dirty j ≡ false
  unfolding clear_dirty_bits_parallel
  clear_all_words n [] e t i j mt s w = cc
  clear_all_words n (u ∷ ts) e t i j mt s w = elim (Bool-cases (u == t)) [
    | inl here ↦
        let same : u ≡ t = (==_iff u t).0 here in
        clear_stay wbinvd n ts _ j (clear_words-hit e.block_dirty _ i j (rw same s) w)
    | inr later ↦ clear_all_words n ts _ t i j (ground arith) s w
  ]

  empty_stay :
      (mode : FlushMode) (n : ℕ) (ts : List ℕ) (e : UndoLogEngine B) (i : ℕ)
      → e.flush_blocks i ≡ []
      → (by_threads (clear_dirty_bits_parallel mode n) ts e).flush_blocks i ≡ []
  unfolding clear_dirty_bits_parallel
  empty_stay mode n [] e i h = h
  empty_stay wbinvd n (t ∷ ts) e i h =
      empty_stay wbinvd n ts _ i (empty_buckets_stay e.flush_blocks (served t n) i h)
  empty_stay no_action n (t ∷ ts) e i h =
      empty_stay no_action n ts _ i (empty_buckets_stay e.flush_blocks (served t n) i h)
  empty_stay use_flush_blocks n (t ∷ ts) e i h =
      empty_stay use_flush_blocks n ts _ i (empty_buckets_stay e.flush_blocks (served t n) i h)

  empty_bucket :
      (mode : FlushMode) (n : ℕ) (ts : List ℕ) (e : UndoLogEngine B) (t i : ℕ)
      → contains ts t ≡ true
      → contains (served t n) i ≡ true
      → (by_threads (clear_dirty_bits_parallel mode n) ts e).flush_blocks i ≡ []
  empty_bucket mode n [] e t i mt s = cc
  empty_bucket mode n (u ∷ ts) e t i mt s = elim (Bool-cases (u == t)) [
    | inl here ↦
        let same : u ≡ t = (==_iff u t).0 here in
        empty_stay mode n ts (clear_dirty_bits_parallel mode n e u) i
          (emptied mode n e u i (rw same s))
    | inr later ↦ empty_bucket mode n ts (clear_dirty_bits_parallel mode n e u) t i (ground arith) s
  ]
    where
      emptied :
          (mode : FlushMode) (n : ℕ) (e : UndoLogEngine B) (t i : ℕ)
          → contains (served t n) i ≡ true
          → (clear_dirty_bits_parallel mode n e t).flush_blocks i ≡ []
      emptied wbinvd n e t i s =
          unfold clear_dirty_bits_parallel in empty_buckets-hit e.flush_blocks _ i s
      emptied no_action n e t i s =
          unfold clear_dirty_bits_parallel in empty_buckets-hit e.flush_blocks _ i s
      emptied use_flush_blocks n e t i s =
          unfold clear_dirty_bits_parallel in empty_buckets-hit e.flush_blocks _ i s

  pub cleared_by-empty :
      (mode : FlushMode) (n : ℕ) (e : UndoLogEngine B) (i : ℕ)
      → 0 < n
      → i < max_threads
      → (cleared_by mode n e).flush_blocks i ≡ []
  unfolding cleared_by
  cleared_by-empty mode n e i pos lt =
      empty_bucket mode n (threads n 0) e (i % n) i
        (threads-covers n 0 (i % n) (omega arith) (omega (arith, mod-lt i pos)))
        (strided-mod n i max_threads pos lt)

  pub cleared_by_stay :
      (mode : FlushMode) (n : ℕ) (e : UndoLogEngine B) (j : ℕ)
      → BitSet.test e.block_dirty j ≡ false
      → BitSet.test (cleared_by mode n e).block_dirty j ≡ false
  unfolding cleared_by
  cleared_by_stay mode n e j h = clear_stay mode n (threads n 0) e j h

  pub cleared_by-bucket :
      (n : ℕ) (e : UndoLogEngine B) (i j : ℕ)
      → 0 < n
      → i < max_threads
      → contains (e.flush_blocks i) j ≡ true
      → BitSet.test (cleared_by use_flush_blocks n e).block_dirty j ≡ false
  unfolding cleared_by
  cleared_by-bucket n e i j pos lt m =
      clear_bucket n (threads n 0) e (i % n) i j
        (threads-covers n 0 (i % n) (omega arith) (omega (arith, mod-lt i pos)))
        (strided-mod n i max_threads pos lt) m

  pub cleared_by-all :
      (n : ℕ) (e : UndoLogEngine B) (j : ℕ)
      → 0 < n
      → j < e.nr_blocks
      → BitSet.test (cleared_by wbinvd n e).block_dirty j ≡ false
  unfolding cleared_by
  cleared_by-all n e j pos lt =
      clear_all_words n (threads n 0) e (j / 64 % n) (j / 64 * 64) j
        (threads-covers n 0 (j / 64 % n) (omega arith) (omega (arith, mod-lt (j / 64) pos)))
        (word_visited n j e.nr_blocks lt) (omega arith)

  -- The phase touches nothing but the marks and the buckets.
  pub record SameButMarks (e f : UndoLogEngine B) : Type 0 where
    pub heap : f.heap ≡ e.heap
    pub entries : f.entries ≡ e.entries
    pub payloads : f.payloads ≡ e.payloads
    pub head : f.header_log_head ≡ e.header_log_head
    pub locks : f.segment_locks ≡ e.segment_locks
    pub blocks : f.nr_blocks ≡ e.nr_blocks
    pub capacity : f.log_capacity ≡ e.log_capacity
    pub snapshot : f.has_snapshot ≡ e.has_snapshot

  clear-SameButMarks :
      (mode : FlushMode) (n : ℕ) (e f : UndoLogEngine B) (t : ℕ)
      → SameButMarks e f
      → SameButMarks e (clear_dirty_bits_parallel mode n f t)
  unfolding clear_dirty_bits_parallel
  clear-SameButMarks wbinvd n e f t s = record {
    heap = s.heap;
    entries = s.entries;
    payloads = s.payloads;
    head = s.head;
    locks = s.locks;
    blocks = s.blocks;
    capacity = s.capacity;
    snapshot = s.snapshot;
  }
  clear-SameButMarks no_action n e f t s = record {
    heap = s.heap;
    entries = s.entries;
    payloads = s.payloads;
    head = s.head;
    locks = s.locks;
    blocks = s.blocks;
    capacity = s.capacity;
    snapshot = s.snapshot;
  }
  clear-SameButMarks use_flush_blocks n e f t s = record {
    heap = s.heap;
    entries = s.entries;
    payloads = s.payloads;
    head = s.head;
    locks = s.locks;
    blocks = s.blocks;
    capacity = s.capacity;
    snapshot = s.snapshot;
  }

  by_threads-SameButMarks :
      (mode : FlushMode) (n : ℕ) (ts : List ℕ) (e f : UndoLogEngine B)
      → SameButMarks e f
      → SameButMarks e (by_threads (clear_dirty_bits_parallel mode n) ts f)
  by_threads-SameButMarks mode n [] e f s = s
  by_threads-SameButMarks mode n (t ∷ ts) e f s =
      by_threads-SameButMarks mode n ts e _ (clear-SameButMarks mode n e f t s)

  pub cleared_by-SameButMarks :
      (mode : FlushMode) (n : ℕ) (e : UndoLogEngine B) → SameButMarks e (cleared_by mode n e)
  unfolding cleared_by
  cleared_by-SameButMarks mode n e = by_threads-SameButMarks mode n (threads n 0) e e (record {
    heap = refl;
    entries = refl;
    payloads = refl;
    head = refl;
    locks = refl;
    blocks = refl;
    capacity = refl;
    snapshot = refl;
  })
