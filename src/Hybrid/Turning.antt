-- ===== src/Hybrid/Turning.antt =====
-- The marks of HybridInstEngine at the end of a checkpoint, when the epochs change places.
use libcrpm.Base.{
  ℕ, ◌+◌, ◌-◌, ◌*◌, ◌/◌, ◌<◌, ◌≤◌, ◌≡◌, Bool, true, false, ◌&&◌, List, [], ◌∷◌, ◌==◌, contains,
  if◌then◌else◌, refl, ap, subst, ◌∙◌, arith, Bool-cases, inl, inr, ==_refl, min,
}
use libcrpm.Constants.{blocks_per_segment}
use libcrpm.BitSet
use libcrpm.BitSet.Laws.{test-clear_region}
use libcrpm.BitSet.Clearing.{test-clear}
use libcrpm.Nvm.WriteBack.{range}
use libcrpm.Nvm.Copying.{range_lem}
use libcrpm.Hybrid.Defs.{HybridInstEngine}
use libcrpm.Hybrid.Checkpoint.{
  clear_last, clear_last_each, clear_dirty_bits_last_epoch, end_checkpoint,
}

module _ {B : Type 0} where
  abbrev pub segment_in : HybridInstEngine B → ℕ → ℕ → Bool
  segment_in e epoch i = BitSet.test (e.segment_dirty epoch) i

  abbrev pub block_in : HybridInstEngine B → ℕ → ℕ → Bool
  block_in e epoch b = BitSet.test (e.block_dirty epoch) b

  -- The marks of the epoch `last` of the segments `segs` are gone, and those of the epoch `now` are the same.
  record IsCleared (last now : ℕ) (e : HybridInstEngine B) (segs : List ℕ) (g : HybridInstEngine B)
      : Type 0 where
    segments :
        (i : ℕ) → segment_in g last i ≡ (if contains segs i then false else segment_in e last i)
    blocks :
        (b : ℕ)
        → block_in g last b ≡ (
            if contains segs (b / blocks_per_segment) && segment_in e last (b / blocks_per_segment)
            then false
            else block_in e last b)
    same_segments : g.segment_dirty now ≡ e.segment_dirty now
    same_blocks : g.block_dirty now ≡ e.block_dirty now
    same_epoch : g.epoch ≡ e.epoch
    same_size : g.nr_blocks ≡ e.nr_blocks

  module _ (e : HybridInstEngine B) (seg : ℕ) (other : (1 - e.epoch == e.epoch) ≡ false)
      (inside : seg * blocks_per_segment + blocks_per_segment ≤ e.nr_blocks) where
    region_lem :
        (b : ℕ)
        → BitSet.test
            (BitSet.clear_region
              (e.block_dirty (1 - e.epoch))
              (seg * blocks_per_segment)
              (min e.nr_blocks (seg * blocks_per_segment + blocks_per_segment)))
            b
          ≡ (if seg == b / blocks_per_segment then false else block_in e (1 - e.epoch) b)
    region_lem b =
        test-clear_region (e.block_dirty (1 - e.epoch)) (seg * blocks_per_segment)
          (min e.nr_blocks (seg * blocks_per_segment + blocks_per_segment)) b
        ∙ ground (arith, inside)

    clear_last-IsCleared : IsCleared (1 - e.epoch) e.epoch e (seg ∷ []) (clear_last e seg)
    unfolding clear_last
    clear_last-IsCleared = elim (Bool-cases (segment_in e (1 - e.epoch) seg)) [
      | inl had ↦ simp had (record {
        segments = λ i.
            rw (==_refl (1 - e.epoch))
              (test-clear (e.segment_dirty (1 - e.epoch)) seg i ∙ ground arith);
        blocks = λ b. rw (==_refl (1 - e.epoch)) (region_lem b ∙ ground (arith, had));
        same_segments = rw other refl;
        same_blocks = rw other refl;
        same_epoch = refl;
        same_size = refl;
      })
      | inr not ↦ simp not (record {
        segments = λ i. ground (arith, not);
        blocks = λ b. ground (arith, not);
        same_segments = refl;
        same_blocks = refl;
        same_epoch = refl;
        same_size = refl;
      })
    ]

  IsCleared-trans :
      (last now : ℕ) (e f g : HybridInstEngine B) (seg : ℕ) (segs : List ℕ)
      → IsCleared last now e (seg ∷ []) f
      → IsCleared last now f segs g
      → IsCleared last now e (seg ∷ segs) g
  IsCleared-trans last now e f g seg segs a b = record {
    segments = λ i. b.segments i ∙ ground (arith, a.segments i);
    blocks = λ x. b.blocks x ∙ ground (arith, a.blocks x, a.segments (x / blocks_per_segment));
    same_segments = b.same_segments ∙ a.same_segments;
    same_blocks = b.same_blocks ∙ a.same_blocks;
    same_epoch = b.same_epoch ∙ a.same_epoch;
    same_size = b.same_size ∙ a.same_size;
  }

  clear_last_each-IsCleared :
      (segs : List ℕ) (e : HybridInstEngine B)
      → (1 - e.epoch == e.epoch) ≡ false
      → ((i : ℕ)
          → contains segs i ≡ true
          → i * blocks_per_segment + blocks_per_segment ≤ e.nr_blocks)
      → IsCleared (1 - e.epoch) e.epoch e segs (clear_last_each segs e)
  unfolding clear_last_each
  clear_last_each-IsCleared [] e other inside = record {
    segments = λ i. refl;
    blocks = λ b. refl;
    same_segments = refl;
    same_blocks = refl;
    same_epoch = refl;
    same_size = refl;
  }
  clear_last_each-IsCleared (seg ∷ segs) e other inside =
      let a = clear_last-IsCleared e seg other (inside seg (ground arith)) in
      let f = clear_last e seg in
      let b : IsCleared (1 - f.epoch) f.epoch f segs (clear_last_each segs f) =
        clear_last_each-IsCleared segs f (rw a.same_epoch other)
          (λ i c. rw a.same_size (inside i (ground (arith, c)))) in
      IsCleared-trans (1 - e.epoch) e.epoch e f (clear_last_each segs f) seg segs a
        (subst (λ n. IsCleared (1 - n) n f segs (clear_last_each segs f)) a.same_epoch b)

  -- After the turn nothing is marked in the epoch that begins, and the one that ends keeps its marks.
  pub record IsTurned (e g : HybridInstEngine B) : Type 0 where
    pub turned : g.epoch ≡ 1 - e.epoch
    pub no_segments : (i : ℕ) → segment_in g g.epoch i ≡ false
    pub no_blocks : (b : ℕ) → block_in g g.epoch b ≡ false
    pub kept_segments : (i : ℕ) → segment_in g (1 - g.epoch) i ≡ segment_in e e.epoch i
    pub kept_blocks : (b : ℕ) → block_in g (1 - g.epoch) b ≡ block_in e e.epoch b
    pub unlocked : g.write_back_thread_lock ≡ false
    pub ended : g.checkpoint_in_progress ≡ false

  -- In either epoch, if the numbers of blocks and segments agree, no segment beyond the last is
  -- dirty in the last epoch and each block that is dirty in the last epoch lies in a segment that
  -- is, the end of a checkpoint of the hybrid engine, which clears the marks of the last epoch and
  -- lets the epochs change places, leaves no mark in the epoch that begins and those of the epoch
  -- that ends as they are, with the lock of the write-back thread free.
  pub clear-IsTurned :
      (e : HybridInstEngine B)
      → e.epoch < 2
      → e.nr_blocks ≡ e.nr_segments * blocks_per_segment
      → ((i : ℕ) → e.nr_segments ≤ i → segment_in e (1 - e.epoch) i ≡ false)
      → ((b : ℕ)
          → block_in e (1 - e.epoch) b ≡ true
          → segment_in e (1 - e.epoch) (b / blocks_per_segment) ≡ true)
      → IsTurned e (end_checkpoint (clear_dirty_bits_last_epoch e))
  unfolding end_checkpoint clear_dirty_bits_last_epoch
  clear-IsTurned e two size within marked =
      let segs = range e.nr_segments 0 in
      let other : (1 - e.epoch == e.epoch) ≡ false = ground arith in
      let c =
        clear_last_each-IsCleared segs e other
          (λ i h. ground (arith, size, range_lem e.nr_segments 0 i, h)) in
      let back : 1 - (1 - e.epoch) ≡ e.epoch = omega (arith, two) in
      let g = clear_last_each segs e in
      let start : g.epoch ≡ e.epoch = c.same_epoch in
      rw start (record {
        turned = refl;
        no_segments = λ i. (c.segments i ∙ ground (arith, range_lem e.nr_segments 0 i, within i));
        no_blocks = λ b.
            (c.blocks b
              ∙ ground (
                arith,
                range_lem e.nr_segments 0 (b / blocks_per_segment),
                within (b / blocks_per_segment),
                marked b,
              ));
        kept_segments = λ i. rw back (ap (λ t. BitSet.test t i) c.same_segments);
        kept_blocks = λ b. rw back (ap (λ t. BitSet.test t b) c.same_blocks);
        unlocked = refl;
        ended = refl;
      })
