-- ===== src/Hybrid/Layout.antt =====
-- HybridInstEngine::commit_layout_state: the states of the segments after it.
use libcrpm.Base.{
  ℕ, ◌+◌, ◌-◌, ◌*◌, ◌/◌, ◌%◌, ◌<◌, ◌≤◌, ◌≡◌, Bool, true, false, ◌&&◌, ◌||◌, ltb, contains,
  if◌then◌else◌, refl, sym, ◌∙◌, arith, Returns, Returns-bind,
}
use libcrpm.BitSet
use libcrpm.BitSet.{BitSet}
use libcrpm.BitSet.Laws.{test-eq-bit_at}
use libcrpm.BitSet.Words.{IsWide, scan_words_lem}
use libcrpm.Base.Bits.{bit_at-bit_or, bit_at-lt, bit_or-lt}
use libcrpm.Image.Defs.{begin_segment_state_update}
use libcrpm.Image.Update.{IsUpdating}
use libcrpm.Image.Committed.{commit-IsUpdating}
use libcrpm.Nvm.Layout.{IsSetting, set_all, set_states-IsSetting, begin-IsSetting}
use libcrpm.Nvm.Checkpoint.{set_states}
use libcrpm.Hybrid.Defs.{HybridInstEngine}
use libcrpm.Hybrid.Checkpoint.{union, layout_segments, commit_layout_state}

test-union :
    (s t : BitSet) (i : ℕ) → BitSet.test (union s t) i ≡ (BitSet.test s i || BitSet.test t i)
unfolding union
test-union s t i = ground (
  arith,
  test-eq-bit_at s i,
  test-eq-bit_at t i,
  test-eq-bit_at (union s t) i,
  bit_at-bit_or (i % 64) (s.buf (i / 64)) (t.buf (i / 64)),
  bit_at-lt (s.buf (i / 64)) (i % 64),
  bit_at-lt (t.buf (i / 64)) (i % 64),
)

union-IsWide : (s t : BitSet) → IsWide s → IsWide t → IsWide (union s t)
unfolding union
union-IsWide s t a b w = bit_or-lt 64 (s.buf w) (t.buf w) (a w) (b w)

module _ {B : Type 0} where
  -- What the commit of a state leaves.
  pub record IsCommitted (old : ℕ → ℕ) (state : ℕ) (e g : HybridInstEngine B) : Type 0 where
    pub states : ℕ → ℕ
    pub updating : IsUpdating states states g.image
    pub dirty_states :
        (i : ℕ)
        → i < e.nr_segments
        → states i ≡ (
            if BitSet.test (e.segment_dirty e.epoch) i
              || BitSet.test (e.segment_dirty (1 - e.epoch)) i
            then state
            else old i)
    pub same : g ≡ record e { image = g.image }

  module _ (state : ℕ) (old : ℕ → ℕ) (e : HybridInstEngine B)
      (wide : (epoch : ℕ) → IsWide (e.segment_dirty epoch))
      (size : e.image.nr_main_segments ≡ e.nr_segments)
      (within : (epoch i : ℕ)
        → e.nr_segments ≤ i
        → BitSet.test (e.segment_dirty epoch) i ≡ false) where
    abbrev is_dirty : ℕ → Bool
    is_dirty i =
        BitSet.test (e.segment_dirty e.epoch) i || BitSet.test (e.segment_dirty (1 - e.epoch)) i

    segments_lem :
        (i : ℕ) → contains (layout_segments e) i ≡ (ltb (i / 64 * 64) e.nr_segments && is_dirty i)
    unfolding layout_segments
    segments_lem i =
        let both = union (e.segment_dirty e.epoch) (e.segment_dirty (1 - e.epoch)) in
        scan_words_lem both
          (union-IsWide (e.segment_dirty e.epoch) (e.segment_dirty (1 - e.epoch)) (wide e.epoch)
            (wide (1 - e.epoch)))
          (e.nr_segments / 64 + 1) 0 e.nr_segments i (omega arith) (omega arith)
        ∙ ground (arith, test-union (e.segment_dirty e.epoch) (e.segment_dirty (1 - e.epoch)) i)

    in_range : (i : ℕ) → contains (layout_segments e) i ≡ true → i < e.image.nr_main_segments
    in_range i c =
        rw size (ground (arith, sym (segments_lem i) ∙ c, within e.epoch i, within (1 - e.epoch) i))

    -- When the states of the segments are on the medium and no segment beyond the last is dirty,
    -- the commit of a state by the hybrid engine returns, commits that state for each segment that
    -- is dirty in this epoch or the last and leaves every other state as it was, and changes
    -- nothing else of the engine.
    pub commit_layout_state-IsCommitted :
        IsUpdating old old e.image → Returns (IsCommitted old state e) (commit_layout_state state e)
    unfolding commit_layout_state
    commit_layout_state-IsCommitted u =
        let segs = layout_segments e in
        let states = set_all segs state old in
        Returns-bind (IsSetting old states e.image.nr_main_segments) (IsCommitted old state e)
          (set_states segs state (begin_segment_state_update e.image)) _
          (set_states-IsSetting segs state e.image.nr_main_segments old old
            (begin_segment_state_update e.image) in_range (begin-IsSetting old e.image u))
          (λ set h. record {
            states = states;
            updating = (commit-IsUpdating old states set h.updating).0;
            dirty_states = λ i lt. ground (arith, segments_lem i, lt);
            same = refl;
          })
