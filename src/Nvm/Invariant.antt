-- ===== src/Nvm/Invariant.antt =====
-- What NvmInstEngine maintains between two checkpoints.
use libcrpm.Base.{
  ℕ, ◌*◌, ◌<◌, ◌≡◌, ◌≢◌, ◌⊎◌, inl, inr, subst, Bool, true, false, ◌==◌, arith, Bool-cases,
}
use libcrpm.Constants.{null_segment_index, blocks_per_segment}
use libcrpm.BitSet
use libcrpm.BitSet.{BitSet}
use libcrpm.BitSet.Laws.{test-set}
use libcrpm.BitSet.Words.{IsWide}
use libcrpm.Image.Defs.{Image, ss_initial, ss_main, ss_back}
use libcrpm.Image.Update.{IsUpdating}
use libcrpm.Nvm.Defs.{NvmInstEngine, cell, set_segment_dirty}
use libcrpm.Nvm.Protection.{Snapshot, IsPromised, Covers, Holds}
use libcrpm.Nvm.Covering.{IsSafe, IsUpdating-IsSafe, ==_eq}

module _ {B : Type 0} where
  -- Where a segment has a back segment, the promised blocks that are neither dirty nor pending are the same in
  -- both.
  abbrev pub IsSynced : Snapshot B → (ℕ → Bool) → (ℕ → Bool) → Image B → Type 0
  IsSynced s pending block_dirty m =
      (seg k : ℕ)
      → IsPromised s seg k
      → m.main_to_back seg ≢ null_segment_index
      → pending (cell seg k) ≡ false
      → block_dirty (cell seg k) ≡ false
      → Holds m.back_memory (cell (m.main_to_back seg) k) (m.main_memory.view (cell seg k))

  -- The engine protects the checkpoint, with the states `old`; `pending` says which blocks of dirty segments the
  -- program has written before the engine is told.
  pub record IsProtected (s : Snapshot B) (pending : ℕ → Bool) (old : ℕ → ℕ) (e : NvmInstEngine B)
      : Type 0 where
    pub updating : IsUpdating old old e.image
    pub covers : Covers s (BitSet.test e.segment_dirty) old e.image
    pub promised_states : (seg k : ℕ) → IsPromised s seg k → old seg ≢ ss_initial
    pub known_states :
        (seg : ℕ)
        → seg < s.nr_main
        → (old seg ≡ ss_initial) ⊎ (old seg ≡ ss_main) ⊎ (old seg ≡ ss_back)
    pub synced : IsSynced s pending (BitSet.test e.block_dirty) e.image
    pub pending_dirty :
        (seg k : ℕ)
        → seg < s.nr_main
        → k < blocks_per_segment
        → pending (cell seg k) ≡ true
        → BitSet.test e.segment_dirty seg ≡ true
    pub blocks : e.nr_blocks ≡ s.nr_main * blocks_per_segment
    pub wide : IsWide e.block_dirty
    pub next_in_range : e.next_back_id < s.nr_back

  -- Whatever a crash leaves now, the recovery finds the checkpoint.
  pub IsProtected-IsSafe :
      (s : Snapshot B) (pending : ℕ → Bool) (old : ℕ → ℕ) (e : NvmInstEngine B)
      → IsProtected s pending old e
      → IsSafe s e.image
  IsProtected-IsSafe s pending old e p =
      IsUpdating-IsSafe s (BitSet.test e.segment_dirty) old old e.image p.updating p.covers

  -- A segment whose back segment a restart takes may become dirty.
  pub Covers-set :
      (s : Snapshot B) (dirty : BitSet) (old : ℕ → ℕ) (m : Image B) (seg : ℕ)
      → Covers s (BitSet.test dirty) old m
      → ((k : ℕ)
          → IsPromised s seg k
          → (old seg ≡ ss_back) × (m.main_to_back seg ≢ null_segment_index))
      → Covers s (BitSet.test (BitSet.set dirty seg)) old m
  Covers-set s dirty old m seg c kept = record {
    main_size = c.main_size;
    back_size = c.back_size;
    few_main = c.few_main;
    few_back = c.few_back;
    bound = c.bound;
    bound_sure = c.bound_sure;
    main_kept = λ i k p idle. c.main_kept i k p (ground (arith, test-set dirty seg i));
    back_kept = c.back_kept;
    dirty_kept = λ i k p now. elim (Bool-cases (seg == i)) [
      | inr there ↦ c.dirty_kept i k p (ground (arith, test-set dirty seg i))
      | inl here ↦
          subst
            (λ j. IsPromised s j k → (old j ≡ ss_back) × (m.main_to_back j ≢ null_segment_index))
            (==_eq seg i here) (kept k) p
    ];
  }

  pub marked-IsProtected :
      (s : Snapshot B) (pending : ℕ → Bool) (old : ℕ → ℕ) (e : NvmInstEngine B) (seg : ℕ)
      → IsProtected s pending old e
      → ((k : ℕ)
          → IsPromised s seg k
          → (old seg ≡ ss_back) × (e.image.main_to_back seg ≢ null_segment_index))
      → IsProtected s pending old (set_segment_dirty e seg)
  unfolding set_segment_dirty
  marked-IsProtected s pending old e seg p kept = record {
    updating = p.updating;
    covers = Covers-set s e.segment_dirty old e.image seg p.covers kept;
    promised_states = p.promised_states;
    known_states = p.known_states;
    synced = p.synced;
    pending_dirty = λ i k lt k_lt h.
        ground (arith, test-set e.segment_dirty seg i, p.pending_dirty i k lt k_lt h);
    blocks = p.blocks;
    wide = p.wide;
    next_in_range = p.next_in_range;
  }

  -- The locks are not part of it.
  pub locks-IsProtected :
      (s : Snapshot B) (pending : ℕ → Bool) (old : ℕ → ℕ) (e : NvmInstEngine B) (locks : ℕ → Bool)
      → IsProtected s pending old e
      → IsProtected s pending old (record e { segment_locks = locks })
  locks-IsProtected s pending old e locks p = record {
    updating = p.updating;
    covers = p.covers;
    promised_states = p.promised_states;
    known_states = p.known_states;
    synced = p.synced;
    pending_dirty = p.pending_dirty;
    blocks = p.blocks;
    wide = p.wide;
    next_in_range = p.next_in_range;
  }
