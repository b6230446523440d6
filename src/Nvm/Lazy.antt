-- ===== src/Nvm/Lazy.antt =====
-- NvmInstEngine::lazy_write_back on demand, and hook_copy_on_write_routine: the segment is protected before
-- the program writes to it.
use libcrpm.Base.{
  ℕ, ◌+◌, ◌*◌, ◌<◌, ◌≡◌, ◌≢◌, ◌⊎◌, inl, inr, refl, sym, ◌∙◌, ap, subst, Bool, true, false, List,
  ◌==◌, update, min, contains, arith, Bool-cases, ==_refl,
}
use libcrpm.Constants.{null_segment_index, blocks_per_segment}
use libcrpm.Pm.Run.{run, AtEachPoint}
use libcrpm.BitSet
use libcrpm.BitSet.{BitSet}
use libcrpm.BitSet.Laws.{test-set, test-clear_region}
use libcrpm.BitSet.Words.{IsWide, clear_region-IsWide}
use libcrpm.Image.Defs.{Image, ss_initial, ss_main, ss_back, bi_epoch}
use libcrpm.Image.Update.{IsUpdating}
use libcrpm.Nvm.Defs.{NvmInstEngine, cell, set_segment_dirty, release_lock, lock_of}
use libcrpm.Nvm.WriteBack.{blocks_to_copy, write_back_instructions, write_back}
use libcrpm.Nvm.Protection.{Snapshot, IsPromised, Covers, Holds}
use libcrpm.Nvm.Covering.{IsSafe, ==_eq}
use libcrpm.Nvm.Copying.{AreIn}
use libcrpm.Nvm.CrashSafety.{write_back-IsSafe, written-Covers, IsWritten, written-IsWritten}
use libcrpm.Nvm.Invariant.{IsSynced, IsProtected, marked-IsProtected, locks-IsProtected}

module _ {B : Type 0} where
  -- What a write-back on demand starts from: the segment has a back segment, no restart takes it, and each promised
  -- block is copied or is there.
  pub record IsFillable (s : Snapshot B) (pending : ℕ → Bool) (old : ℕ → ℕ) (e : NvmInstEngine B)
      (seg back : ℕ) (bs : List ℕ) : Type 0 where
    pub updating : IsUpdating old old e.image
    pub covers : Covers s (BitSet.test e.segment_dirty) old e.image
    pub promised_states : (i k : ℕ) → IsPromised s i k → old i ≢ ss_initial
    pub known_states :
        (i : ℕ) → i < s.nr_main → (old i ≡ ss_initial) ⊎ (old i ≡ ss_main) ⊎ (old i ≡ ss_back)
    pub synced :
        (i k : ℕ)
        → i ≢ seg
        → IsPromised s i k
        → e.image.main_to_back i ≢ null_segment_index
        → pending (cell i k) ≡ false
        → BitSet.test e.block_dirty (cell i k) ≡ false
        → Holds e.image.back_memory
            (cell (e.image.main_to_back i) k)
            (e.image.main_memory.view (cell i k))
    pub pending_dirty :
        (i k : ℕ)
        → i < s.nr_main
        → k < blocks_per_segment
        → pending (cell i k) ≡ true
        → BitSet.test e.segment_dirty i ≡ true
    pub blocks : e.nr_blocks ≡ s.nr_main * blocks_per_segment
    pub wide : IsWide e.block_dirty
    pub next_in_range : e.next_back_id < s.nr_back
    pub idle : BitSet.test e.segment_dirty seg ≡ false
    pub not_back : old seg ≢ ss_back
    pub in_range : seg < s.nr_main
    pub mine : e.image.main_to_back seg ≡ back
    pub some : back ≢ null_segment_index
    pub within : AreIn seg bs
    pub filled :
        (k : ℕ)
        → IsPromised s seg k
        → (contains bs (cell seg k) ≡ true)
          ⊎ Holds e.image.back_memory (cell back k) (s.content (cell seg k))

  module _ (s : Snapshot B) (pending : ℕ → Bool) (old : ℕ → ℕ) (e : NvmInstEngine B) (seg back : ℕ)
      (bs : List ℕ) (f : IsFillable s pending old e seg back bs) where
    abbrev dirty : ℕ → Bool
    dirty = BitSet.test e.segment_dirty

    pub fill-IsSafe :
        AtEachPoint (IsSafe s) (write_back_instructions (bi_epoch e.image) back seg bs) e.image
    fill-IsSafe =
        write_back-IsSafe s dirty old seg back f.idle f.not_back e.image bs f.updating f.covers
          f.in_range f.mine f.some f.within f.filled

    abbrev filled_image : Image B
    filled_image = run (write_back_instructions (bi_epoch e.image) back seg bs) e.image

    filled-Covers :
        IsUpdating (update old seg ss_back) (update old seg ss_back) filled_image
        × Covers s dirty (update old seg ss_back) filled_image
    filled-Covers =
        written-Covers s dirty old seg back f.idle f.not_back e.image bs f.updating f.covers
          f.in_range f.mine f.some f.within f.filled

    filled-IsWritten :
        IsWritten s dirty old seg back f.idle f.not_back e.image bs f.updating f.covers f.in_range
          f.mine f.some f.within f.filled filled_image
    filled-IsWritten =
        written-IsWritten s dirty old seg back f.idle f.not_back e.image bs f.updating f.covers
          f.in_range f.mine f.some f.within f.filled

    abbrev start : ℕ
    start = seg * blocks_per_segment

    abbrev stop : ℕ
    stop = min e.nr_blocks (start + blocks_per_segment)

    stop_lem : stop ≡ start + blocks_per_segment
    stop_lem = omega (arith, f.blocks, f.in_range)

    -- A block of another segment stays dirty.
    other_dirty :
        (i k : ℕ)
        → i ≢ seg
        → k < blocks_per_segment
        → BitSet.test (BitSet.clear_region e.block_dirty start stop) (cell i k)
          ≡ BitSet.test e.block_dirty (cell i k)
    other_dirty i k ne lt =
        test-clear_region e.block_dirty start stop (cell i k) ∙ rw stop_lem (ground arith)

    filled-IsSynced :
        IsSynced s pending (BitSet.test (BitSet.clear_region e.block_dirty start stop)) filled_image
    filled-IsSynced i k p bound_i told not_dirty = elim (Bool-cases (seg == i)) [
      | inl here ↦
          subst
            (λ j.
              IsPromised s j k
              → Holds filled_image.back_memory (cell (filled_image.main_to_back j) k)
                  (filled_image.main_memory.view (cell j k)))
            (==_eq seg i here)
            (λ q.
              rw (filled-IsWritten.table seg, f.mine, filled-IsWritten.main (cell seg k))
                (
                  (filled-IsWritten.own k q).0 ∙ sym (f.covers.main_kept seg k q f.idle).0,
                  (filled-IsWritten.own k q).1,
                ))
            p
      | inr there ↦
          let ne : i ≢ seg = ground arith in
          let some_i : e.image.main_to_back i ≢ null_segment_index =
            rw (filled-IsWritten.table i) at bound_i in
          let other : e.image.main_to_back i ≢ back = λ same. ne (
            sym (f.covers.bound.forward i _ (rw f.covers.main_size p.0) refl some_i).1
            ∙ ap (λ b. (e.image.back_to_main b).value) same
            ∙ (f.covers.bound.forward seg back (rw f.covers.main_size f.in_range) f.mine
                f.some).1) in
          rw (filled-IsWritten.table i, filled-IsWritten.main (cell i k))
            (filled-IsWritten.other (e.image.main_to_back i) k _ other p.1
              (f.synced i k ne p some_i told (sym (other_dirty i k ne p.1) ∙ not_dirty)))
    ]

    -- The engine before the segment is marked.
    abbrev filled_engine : ℕ → NvmInstEngine B
    filled_engine traffic = record e {
      image = filled_image;
      block_dirty = BitSet.clear_region e.block_dirty start stop;
      checkpoint_traffic = traffic;
    }

    filled-IsProtected :
        (traffic : ℕ) → IsProtected s pending (update old seg ss_back) (filled_engine traffic)
    filled-IsProtected traffic = record {
      updating = filled-Covers.0;
      covers = filled-Covers.1;
      promised_states = λ i k p. elim (Bool-cases (seg == i)) [
        | inl here ↦ rw here (omega arith)
        | inr there ↦ rw there (f.promised_states i k p)
      ];
      known_states = λ i lt. elim (Bool-cases (seg == i)) [
        | inl here ↦ rw here (inr (inr refl))
        | inr there ↦ rw there (f.known_states i lt)
      ];
      synced = filled-IsSynced;
      pending_dirty = f.pending_dirty;
      blocks = f.blocks;
      wide = clear_region-IsWide e.block_dirty start stop f.wide;
      next_in_range = f.next_in_range;
    }

    filled_mine : filled_image.main_to_back seg ≡ back
    filled_mine = filled-IsWritten.table seg ∙ f.mine

    marked :
        (traffic : ℕ)
        → IsProtected s pending
            (update old seg ss_back)
            (set_segment_dirty (filled_engine traffic) seg)
    marked traffic =
        marked-IsProtected s pending (update old seg ss_back) (filled_engine traffic) seg
          (filled-IsProtected traffic) (λ k p. (rw (==_refl seg) refl, rw filled_mine f.some))

  -- What the call leaves: the checkpoint is protected, the segment may be written, the data are the same.
  pub record IsHooked (s : Snapshot B) (pending : ℕ → Bool) (e : NvmInstEngine B) (seg : ℕ)
      (g : NvmInstEngine B) : Type 0 where
    pub states : ℕ → ℕ
    pub protected : IsProtected s pending states g
    pub is_dirty : BitSet.test g.segment_dirty seg ≡ true
    pub same_blocks : (x : ℕ) → g.image.main_memory.view x ≡ e.image.main_memory.view x
    pub still_dirty :
        (i : ℕ) → BitSet.test e.segment_dirty i ≡ true → BitSet.test g.segment_dirty i ≡ true
    pub same_locks : (l : ℕ) → e.segment_locks l ≡ false → g.segment_locks l ≡ false
    pub released : g.segment_locks (lock_of seg) ≡ false
    pub same_back_lock : g.back_memory_lock ≡ e.back_memory_lock
    pub same_skip : g.skip_copy_on_write ≡ e.skip_copy_on_write
    pub same_range : (g.address_first ≡ e.address_first) × (g.capacity ≡ e.capacity)
    pub same_table :
        e.image.main_to_back seg ≢ null_segment_index
        → (i : ℕ) → g.image.main_to_back i ≡ e.image.main_to_back i

  pub write_back-IsHooked :
      (s : Snapshot B) (pending : ℕ → Bool) (old : ℕ → ℕ) (e : NvmInstEngine B)
      (seg back attribute : ℕ) (created : Bool)
      → IsFillable s pending old e seg back (blocks_to_copy e seg attribute created)
      → IsHooked s pending e seg (write_back e seg back attribute created true)
  unfolding write_back release_lock
  write_back-IsHooked s pending old e seg back attribute created f =
      let bs = blocks_to_copy e seg attribute created in
      record {
        states = update old seg ss_back;
        protected =
            locks-IsProtected s pending (update old seg ss_back) _ _
              (marked s pending old e seg back bs f _);
        is_dirty = unfold set_segment_dirty in ground (arith, test-set e.segment_dirty seg seg);
        same_blocks =
            unfold set_segment_dirty in
            IsWritten.main (filled-IsWritten s pending old e seg back bs f);
        still_dirty =
            unfold set_segment_dirty in λ i h. ground (arith, test-set e.segment_dirty seg i);
        same_locks = unfold set_segment_dirty in λ l h. ground arith;
        released = unfold set_segment_dirty in ground arith;
        same_back_lock = unfold set_segment_dirty in refl;
        same_skip = unfold set_segment_dirty in refl;
        same_range = unfold set_segment_dirty in (refl, refl);
        same_table =
            unfold set_segment_dirty in
            λ some. IsWritten.table (filled-IsWritten s pending old e seg back bs f);
      }
