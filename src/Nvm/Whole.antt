-- ===== src/Nvm/Whole.antt =====
-- A checkpoint of NvmInstEngine that writes back the whole cache: the states it commits, and the segments that stay
-- dirty after it.
use libcrpm.Base.{
  ℕ, ◌*◌, ◌/◌, ◌<◌, ◌≤◌, ◌≡◌, inl, inr, refl, sym, ◌∙◌, ap, subst, true, false, ◌&&◌, List, [], ◌∷◌,
  ◌==◌, leb, ltb, if◌then◌else◌, contains, Returns, Returns-bind, arith, Bool-cases, ltb→lt,
}
use libcrpm.Constants.{max_threads}
use libcrpm.Pm.Word
use libcrpm.Pm.Word.{Word}
use libcrpm.BitSet
use libcrpm.BitSet.Laws.{test-clear_region}
use libcrpm.BitSet.Words.{IsWide}
use libcrpm.Buckets.{wbinvd, threads}
use libcrpm.Buckets.Laws.{empty_buckets-hit, threads-covers}
use libcrpm.Image.Defs.{Image, ss_main, bi_epoch, get_segment_state}
use libcrpm.Image.Defs
use libcrpm.Image.Update.{IsUpdating, get_segment_state_lem}
use libcrpm.Nvm.Defs.{NvmInstEngine, wb_started, store_fence}
use libcrpm.Nvm.Covering.{IsUpdating-fence}
use libcrpm.Nvm.Checkpoint.{
  layout_segments, commit_layout_state, write_back_cache, flush_parallel, by_threads, flushed_by,
  begin_checkpoint, set_snapshot, end_checkpoint, checkpoint_by_wbinvd,
}
use libcrpm.Nvm.Layout.{set_all, HasLayout, commit_layout_state-HasLayout, wbinvd_segments}

module _ {B : Type 0} where
  IsUpdating-flush :
      (old new : ℕ → ℕ) (m : Image B)
      → IsUpdating old new m
      → IsUpdating old new (write_back_cache m)
  unfolding write_back_cache Word.flush
  IsUpdating-flush old new m u = record {
    stable = record {
      epoch = u.stable.epoch;
      epoch_sure = u.stable.epoch_sure;
      copy = u.stable.copy;
    };
    pending = u.pending;
    marked = λ seg lt. elim (u.marked seg lt) [ inl on ↦ inl on | inr h ↦ inr (inl refl, h.1) ];
  }

  -- What a phase of the flush leaves alone.
  record IsFlushed (old : ℕ → ℕ) (e g : NvmInstEngine B) : Type 0 where
    updating : IsUpdating old old g.image
    size : g.image.nr_main_segments ≡ e.image.nr_main_segments
    same : g ≡ record e { image = g.image }

  flush_parallel-IsFlushed :
      (old : ℕ → ℕ) (e g : NvmInstEngine B) (nr_threads tid : ℕ)
      → IsFlushed old e g
      → IsFlushed old e (flush_parallel wbinvd nr_threads g tid)
  unfolding flush_parallel store_fence
  flush_parallel-IsFlushed old e g nr_threads tid f = elim (Bool-cases (tid == 0)) [
    | inl leader ↦ simp leader (record {
      updating = IsUpdating-fence old old _ (IsUpdating-flush old old g.image f.updating);
      size = unfold Defs.store_fence write_back_cache in f.size;
      same =
          ap
            (λ (h : NvmInstEngine B). record h {
              image = Defs.store_fence (write_back_cache g.image);
            })
            f.same;
    })
    | inr other ↦ simp other (record {
      updating = IsUpdating-fence old old g.image f.updating;
      size = unfold Defs.store_fence in f.size;
      same = ap (λ (h : NvmInstEngine B). record h { image = Defs.store_fence g.image }) f.same;
    })
  ]

  by_threads-IsFlushed :
      (old : ℕ → ℕ) (e g : NvmInstEngine B) (nr_threads : ℕ) (ts : List ℕ)
      → IsFlushed old e g
      → IsFlushed old e (by_threads (flush_parallel wbinvd nr_threads) ts g)
  by_threads-IsFlushed old e g nr_threads [] f = f
  by_threads-IsFlushed old e g nr_threads (t ∷ ts) f =
      by_threads-IsFlushed old e (flush_parallel wbinvd nr_threads g t) nr_threads ts
        (flush_parallel-IsFlushed old e g nr_threads t f)

  set_snapshot-IsUpdating :
      (old : ℕ → ℕ) (e : NvmInstEngine B)
      → IsUpdating old old e.image
      → IsUpdating old old (set_snapshot e).image
        × ((set_snapshot e).image.nr_main_segments ≡ e.image.nr_main_segments)
        × ((set_snapshot e).segment_dirty ≡ e.segment_dirty)
        × ((set_snapshot e).has_snapshot ≡ true)
        × ((set_snapshot e).flush_blocks ≡ e.flush_blocks)
  unfolding set_snapshot
  set_snapshot-IsUpdating old e u = elim (Bool-cases e.has_snapshot) [
    | inl had ↦ simp had (u, refl, refl, refl, refl)
    | inr had_not ↦ simp had_not (
      IsUpdating-fence old old _ (record {
        stable = record {
          epoch = u.stable.epoch;
          epoch_sure = u.stable.epoch_sure;
          copy = u.stable.copy;
        };
        pending = u.pending;
        marked = u.marked;
      }),
      (unfold Defs.store_fence in refl),
      refl,
      refl,
      refl,
    )
  ]

  -- What a checkpoint by the whole cache leaves.
  pub record IsWhole (old : ℕ → ℕ) (e g : NvmInstEngine B) : Type 0 where
    pub states :
        (seg : ℕ)
        → seg < e.nr_segments
        → get_segment_state g.image seg
          ≡ (if BitSet.test e.segment_dirty seg then ss_main else old seg)
    pub dirty :
        (seg : ℕ)
        → seg < e.nr_segments
        → BitSet.test g.segment_dirty seg
          ≡ (leb (e.nr_segments / 64 * 64) seg && BitSet.test e.segment_dirty seg)
    pub snapshot : g.has_snapshot ≡ true
    pub started : g.cleaner_state ≡ wb_started
    pub ended : g.checkpoint_in_progress ≡ false
    pub emptied : (i : ℕ) → i < max_threads → g.flush_blocks i ≡ []

  module _ (old : ℕ → ℕ) (e : NvmInstEngine B) (nr_threads : ℕ) (u : IsUpdating old old e.image)
      (size : e.image.nr_main_segments ≡ e.nr_segments) (wide : IsWide e.segment_dirty)
      (within : (i : ℕ) → e.nr_segments ≤ i → BitSet.test e.segment_dirty i ≡ false) where
    abbrev begun : NvmInstEngine B
    begun = begin_checkpoint wbinvd e

    abbrev flushed : NvmInstEngine B
    flushed = flushed_by wbinvd nr_threads begun

    flushed-IsFlushed : IsFlushed old begun flushed
    unfolding flushed_by begin_checkpoint
    flushed-IsFlushed =
        by_threads-IsFlushed old begun begun nr_threads (threads nr_threads 0)
          (record { updating = u; size = refl; same = refl })

    flushed_dirty :
        (flushed.segment_dirty ≡ e.segment_dirty) × (flushed.nr_segments ≡ e.nr_segments)
    unfolding begin_checkpoint
    flushed_dirty = (
      ap (λ (g : NvmInstEngine B). g.segment_dirty) flushed-IsFlushed.same,
      ap (λ (g : NvmInstEngine B). g.nr_segments) flushed-IsFlushed.same,
    )

    flushed_size : flushed.image.nr_main_segments ≡ e.nr_segments
    unfolding begin_checkpoint
    flushed_size = flushed-IsFlushed.size ∙ size

    all_segments :
        (i : ℕ)
        → contains (layout_segments wbinvd flushed) i
          ≡ (ltb (i / 64 * 64) e.nr_segments && BitSet.test e.segment_dirty i)
    all_segments i =
        wbinvd_segments flushed i (subst IsWide (sym flushed_dirty.0) wide)
        ∙ rw (flushed_dirty.0, flushed_dirty.1) refl

    dirty_segments :
        (i : ℕ)
        → i < e.nr_segments
        → contains (layout_segments wbinvd flushed) i ≡ BitSet.test e.segment_dirty i
    dirty_segments i lt = all_segments i ∙ ground arith

    segments_within :
        (i : ℕ)
        → contains (layout_segments wbinvd flushed) i ≡ true
        → i < flushed.image.nr_main_segments
    segments_within i c = rw flushed_size (elim (Bool-cases (ltb i e.nr_segments)) [
      | inl lt ↦ ltb→lt i e.nr_segments lt
      | inr beyond ↦ absurd (ground (arith, sym c ∙ all_segments i, within i))
    ])

    abbrev states : ℕ → ℕ
    states = set_all (layout_segments wbinvd flushed) ss_main old

    done-IsWhole :
        (g : NvmInstEngine B)
        → HasLayout flushed states g
        → IsWhole old e (
            end_checkpoint
              (record (set_snapshot (record g {
                segment_dirty = BitSet.clear_region g.segment_dirty 0 g.nr_segments;
              })) { cleaner_state = wb_started }))
    unfolding end_checkpoint
    done-IsWhole g h =
        let cleared = record g {
          segment_dirty = BitSet.clear_region g.segment_dirty 0 g.nr_segments;
        } in
        let same_dirty : g.segment_dirty ≡ e.segment_dirty =
          ap (λ (f : NvmInstEngine B). f.segment_dirty) h.same ∙ flushed_dirty.0 in
        let same_size : g.nr_segments ≡ e.nr_segments =
          ap (λ (f : NvmInstEngine B). f.nr_segments) h.same ∙ flushed_dirty.1 in
        let k = set_snapshot-IsUpdating states cleared h.updating in
        record {
          states = λ seg lt.
              get_segment_state_lem states states (set_snapshot cleared).image k.0 seg
                (rw (k.1, h.size, flushed_size) lt)
              ∙ ap (λ b. if b then ss_main else old seg) (dirty_segments seg lt);
          dirty = λ seg lt.
              ap (λ d. BitSet.test d seg) k.2
              ∙ test-clear_region g.segment_dirty 0 g.nr_segments seg
              ∙ rw (same_dirty, same_size) (ground arith);
          snapshot = k.3;
          started = refl;
          ended = refl;
          emptied = λ i lt.
              empty_buckets-hit (set_snapshot cleared).flush_blocks (threads max_threads 0) i
                (threads-covers max_threads 0 i (omega arith) (omega arith));
        }

    -- When the states of the segments are on the medium and no segment beyond the last is dirty, a
    -- checkpoint that writes the whole cache back returns, with the state of each dirty segment
    -- SS_Main and every other state as before, the snapshot there, the cleaner started, the
    -- checkpoint over and the buckets empty; of the dirty segments those in whole words of the set
    -- become clean, and those in the last word, where the number of segments cuts it, stay dirty.
    pub checkpoint_by_wbinvd-IsWhole : Returns (IsWhole old e) (checkpoint_by_wbinvd e nr_threads)
    unfolding checkpoint_by_wbinvd
    checkpoint_by_wbinvd-IsWhole =
        Returns-bind (HasLayout flushed states) (IsWhole old e)
          (commit_layout_state wbinvd ss_main flushed) _
          (commit_layout_state-HasLayout wbinvd ss_main old flushed flushed-IsFlushed.updating
            segments_within)
          done-IsWhole
