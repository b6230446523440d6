-- ===== src/Nvm/Filling.antt =====
-- The two ways in which NvmInstEngine::lazy_write_back on demand copies: to the back segment that the segment
-- has, the blocks that are dirty; to one that it gets, all blocks.
use libcrpm.Base.{
  ℕ, suc, ◌+◌, ◌*◌, ◌/◌, ◌<◌, ◌≡◌, ◌≢◌, ◌⊎◌, inl, inr, refl, sym, ◌∙◌, Bool, true, false, ◌&&◌, [],
  ◌==◌, leb, ltb, min, contains, arith, Bool-cases,
}
use native.Mathlib.Nat.{mod-lt}
use libcrpm.Constants.{null_segment_index, blocks_per_segment}
use libcrpm.BitSet
use libcrpm.BitSet.Words.{scan_words, scan_words_lem}
use libcrpm.Image.Defs.{Image, ss_initial, ss_main, ss_back, get_segment_state}
use libcrpm.Image.Defs
use libcrpm.Image.Update.{IsUpdating}
use libcrpm.Image.Binding.{bind_back_segment, bind-IsBound}
use libcrpm.Nvm.Defs.{NvmInstEngine, cell}
use libcrpm.Nvm.Allocation.{can_take, turn, bound_at}
use libcrpm.Nvm.WriteBack.{dirty_blocks, blocks_to_copy}
use libcrpm.Nvm.Protection.{Snapshot, IsPromised, Covers, Holds}
use libcrpm.Nvm.Copying.{AreIn, copy_order_lem, range_lem}
use libcrpm.Pm.Region
use libcrpm.Nvm.Binding.{bind-Covers, bind-other}
use libcrpm.Nvm.Invariant.{IsProtected}
use libcrpm.Nvm.Lazy.{IsFillable}

module _ {B : Type 0} (s : Snapshot B) (pending : ℕ → Bool) (old : ℕ → ℕ) (e : NvmInstEngine B)
    (seg : ℕ) (p : IsProtected s pending old e) (in_range : seg < s.nr_main)
    (idle : BitSet.test e.segment_dirty seg ≡ false) where
  -- The blocks that are dirty, and no others.
  dirty_blocks_lem :
      (b : ℕ)
      → contains (dirty_blocks e seg) b ≡ (
          leb (seg * blocks_per_segment) b
          && (ltb (b / 64 * 64) (seg * blocks_per_segment + blocks_per_segment)
              && BitSet.test e.block_dirty b))
  dirty_blocks_lem b =
      let start = seg * blocks_per_segment in
      let stop = min e.nr_blocks (start + blocks_per_segment) in
      let whole : stop ≡ start + blocks_per_segment = omega (arith, p.blocks, in_range) in
      copy_order_lem (scan_words (blocks_per_segment / 64) e.block_dirty start stop) [] b
      ∙ scan_words_lem e.block_dirty p.wide (blocks_per_segment / 64) start stop b (omega arith)
          (omega arith)
      ∙ rw whole refl

  -- The segment has its data in place, and has a back segment.
  pub bound-IsFillable :
      old seg ≡ ss_main
      → e.image.main_to_back seg ≢ null_segment_index
      → IsFillable s pending old e seg
          (e.image.main_to_back seg)
          (blocks_to_copy e seg (old seg) false)
  unfolding blocks_to_copy
  bound-IsFillable in_main some = record {
    updating = p.updating;
    covers = p.covers;
    promised_states = p.promised_states;
    known_states = p.known_states;
    synced = λ i k ne. p.synced i k;
    pending_dirty = p.pending_dirty;
    blocks = p.blocks;
    wide = p.wide;
    next_in_range = p.next_in_range;
    idle = idle;
    not_back = omega arith;
    in_range = in_range;
    mine = refl;
    some = some;
    within = λ b h. ground (arith, dirty_blocks_lem b);
    filled = λ k q. elim (Bool-cases (BitSet.test e.block_dirty (cell seg k))) [
      | inl dirty ↦ inl (ground (arith, dirty_blocks_lem (cell seg k)))
      | inr clean ↦
          let told : pending (cell seg k) ≡ false = elim (Bool-cases (pending (cell seg k))) [
            | inl yet ↦ absurd (ground (arith, idle, p.pending_dirty seg k q.0 q.1 yet))
            | inr told ↦ told
          ] in
          let h = p.synced seg k q some told clean in
          inr (h.0 ∙ (p.covers.main_kept seg k q idle).0, h.1)
    ];
  }

  turn_lt : (j : ℕ) → turn e j < s.nr_back
  turn_lt j =
      let lt : turn e j < e.image.nr_back_segments =
        mod-lt (e.next_back_id + j) (omega (arith, p.next_in_range, p.covers.back_size)) in
      omega (arith, lt, p.covers.back_size)

  -- The segment has just got a back segment.
  module _ (k : ℕ) (free : e.image.main_to_back seg ≡ null_segment_index)
      (not_back : old seg ≢ ss_back) (can : can_take e (turn e k) ≡ true) where
    pub turn_in_range : turn e k < s.nr_back
    turn_in_range = turn_lt k

    pub owner_is_idle :
        ((e.image.back_to_main (turn e k)).value ≡ null_segment_index)
        ⊎ (BitSet.test e.segment_dirty (e.image.back_to_main (turn e k)).value ≡ false)
    owner_is_idle = ground arith

    rebound :
        IsUpdating old old (bind_back_segment e.image seg (turn e k))
        × Covers s (BitSet.test e.segment_dirty) old (bind_back_segment e.image seg (turn e k))
    rebound =
        bind-Covers s (BitSet.test e.segment_dirty) old e.image seg (turn e k) p.updating p.covers
          idle not_back in_range turn_in_range free owner_is_idle

    rebound_mine : (bind_back_segment e.image seg (turn e k)).main_to_back seg ≡ turn e k
    rebound_mine =
        (bind-IsBound e.image seg (turn e k) (rw p.covers.main_size in_range)
          (omega (arith, turn_in_range, p.covers.back_size))
          (rw p.covers.main_size p.covers.few_main) (rw p.covers.back_size p.covers.few_back) free
          p.covers.bound).1

    rebound_synced :
        (i j : ℕ)
        → i ≢ seg
        → IsPromised s i j
        → (bind_back_segment e.image seg (turn e k)).main_to_back i ≢ null_segment_index
        → pending (cell i j) ≡ false
        → BitSet.test e.block_dirty (cell i j) ≡ false
        → Holds
            (bind_back_segment e.image seg (turn e k)).back_memory
            (cell ((bind_back_segment e.image seg (turn e k)).main_to_back i) j)
            (e.image.main_memory.view (cell i j))
    rebound_synced i j ne q some told clean =
        let other =
          bind-other s (BitSet.test e.segment_dirty) old e.image seg (turn e k) p.updating p.covers
            idle not_back in_range turn_in_range free owner_is_idle i j
            (e.image.main_memory.view (cell i j)) q.0 ne some in
        other.1 (p.synced i j q other.0 told clean)

    all_blocks :
        (b : ℕ)
        → old seg ≢ ss_initial
        → contains (blocks_to_copy (bound_at e seg k) seg (old seg) true) b ≡ (
            leb (seg * blocks_per_segment) b
            && ltb b (seg * blocks_per_segment + blocks_per_segment))
    unfolding blocks_to_copy
    all_blocks b known =
        let other : (old seg == ss_initial) ≡ false = ground arith in
        rw other (range_lem blocks_per_segment (seg * blocks_per_segment) b)

    within_all : AreIn seg (blocks_to_copy (bound_at e seg k) seg (old seg) true)
    unfolding blocks_to_copy
    within_all b h = elim (Bool-cases (old seg == ss_initial)) [
      | inl initial ↦ let empty = rw initial at h in absurd (cc)
      | inr known ↦ ground (arith, sym h ∙ all_blocks b (ground arith))
    ]

    pub rebound-IsFillable :
        IsFillable s pending old
          (bound_at e seg k)
          seg
          (turn e k)
          (blocks_to_copy (bound_at e seg k) seg (old seg) true)
    rebound-IsFillable = record {
      updating = rebound.0;
      covers = rebound.1;
      promised_states = p.promised_states;
      known_states = p.known_states;
      synced = unfold bind_back_segment Defs.store_fence Region.fence in rebound_synced;
      pending_dirty = p.pending_dirty;
      blocks = p.blocks;
      wide = p.wide;
      next_in_range = turn_lt (suc k);
      idle = idle;
      not_back = not_back;
      in_range = in_range;
      mine = rebound_mine;
      some = omega (arith, turn_in_range, p.covers.few_back);
      within = within_all;
      filled = λ j q. inl (ground (arith, all_blocks (cell seg j) (p.promised_states seg j q)));
    }
